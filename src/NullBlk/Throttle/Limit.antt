-- ===== src/NullBlk/Throttle/Limit.antt =====
-- null_blk.c: what passes the limit between two ticks of the timer.
use caplifive_buildroot.Base.{
  ℕ, ◌+◌, ◌-◌, ◌*◌, ◌^◌, ◌≤◌, ◌<◌, ◌≡◌, refl, inl, inr, arith, Bool, Bool-cases, leb, if◌then◌else◌,
  List, [], ◌∷◌,
}
use caplifive_buildroot.Base.Words.{sub64}
use caplifive_buildroot.NullBlk.Throttle.{Meter, mb_per_tick, nullb_bwtimer_fn}
use caplifive_buildroot.NullBlk.Throttle.Charge.{charge, charge_within, charge_refused, tick_fills}

-- The bytes of the requests that pass, of those that come one after another
pub passed : Bool → List ℕ → Meter → ℕ
passed mq [] t = 0
passed mq (bytes ∷ rest) t =
    let (ok, t') = charge mq bytes t in (if ok then bytes else 0) + passed mq rest t'

abbrev pub total : List ℕ → ℕ
total [] = 0
total (bytes ∷ rest) = bytes + total rest

-- Once the counter is below zero, nothing passes.
pub in_debt :
    (mq : Bool) (sizes : List ℕ) (t : Meter)
    → 2 ^ 63 + total sizes ≤ t.cur_bytes
    → t.cur_bytes < 2 ^ 64
    → passed mq sizes t ≡ 0
unfolding passed
in_debt mq [] t low high = refl
in_debt mq (bytes ∷ rest) t low high =
    let cur : sub64 t.cur_bytes bytes ≡ t.cur_bytes - bytes = omega (arith, low, high) in
    let (refused, left) = charge_refused mq bytes t (omega (arith, cur, low)) in
    let none_pass =
      in_debt mq rest (charge mq bytes t).1 (omega (arith, left, cur, low))
        (omega (arith, left, cur, high)) in
    rw (refused, none_pass)

passed-le :
    (mq : Bool) (sizes : List ℕ) (t : Meter)
    → t.cur_bytes < 2 ^ 63
    → total sizes ≤ 2 ^ 63
    → passed mq sizes t ≤ t.cur_bytes
unfolding passed
passed-le mq [] t small few = omega arith
passed-le mq (bytes ∷ rest) t small few = elim (Bool-cases (leb bytes t.cur_bytes)) [
  | inl covered ↦
      let le : bytes ≤ t.cur_bytes = ground (arith, covered) in
      let (ok, left) = charge_within mq bytes t small le in
      let others =
        passed-le mq rest (charge mq bytes t).1 (omega (arith, left, small)) (omega (arith, few)) in
      rw ok (omega (arith, others, left, le))
  | inr over ↦
      let lt : t.cur_bytes < bytes = ground (arith, over) in
      let cur : sub64 t.cur_bytes bytes ≡ t.cur_bytes + 2 ^ 64 - bytes =
        omega (arith, lt, few, small) in
      let (refused, left) = charge_refused mq bytes t (omega (arith, cur, few)) in
      let none_pass =
        in_debt mq rest (charge mq bytes t).1 (omega (arith, left, cur, few))
          (omega (arith, left, cur, lt)) in
      rw (refused, none_pass) (omega arith)
]

-- Between two ticks of the timer, the requests that pass have no more bytes than a tick allows, for
-- a limit that `null_validate_conf` lets through and requests of 2^63 bytes in all.
pub passed_per_tick :
    (mq : Bool) (mbps : ℕ) (sizes : List ℕ) (t : Meter)
    → mbps ≤ 1024 * 40
    → total sizes ≤ 2 ^ 63
    → passed mq sizes (nullb_bwtimer_fn mq mbps t) ≤ mb_per_tick mbps
unfolding mb_per_tick
passed_per_tick mq mbps sizes t low few =
    let full = tick_fills mq mbps t in
    let le = passed-le mq sizes (nullb_bwtimer_fn mq mbps t) (omega (arith, full, low)) few in
    omega (arith, le, full)
