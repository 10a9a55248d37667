-- ===== src/NullBlk/Throttle/Charge.antt =====
-- null_blk.c: what one request, and one tick of the timer, do to the counter.
use caplifive_buildroot.Base.{
  ℕ, ◌-◌, ◌^◌, ◌≤◌, ◌<◌, ◌≡◌, refl, inl, inr, arith, Bool, Bool-cases, true, false, ltb, ◌==◌,
}
use caplifive_buildroot.Base.Words.{sub64}
use caplifive_buildroot.NullBlk.Throttle.{
  Meter, negative, mb_per_tick, null_handle_throttled, nullb_bwtimer_fn,
}

abbrev pub charge : Bool → ℕ → Meter → Bool × Meter
charge mq bytes t = null_handle_throttled (λ c. c) mq bytes t

pub charge_within :
    (mq : Bool) (bytes : ℕ) (t : Meter)
    → t.cur_bytes < 2 ^ 63
    → bytes ≤ t.cur_bytes
    → ((charge mq bytes t).0 ≡ true) × ((charge mq bytes t).1.cur_bytes ≡ t.cur_bytes - bytes)
unfolding null_handle_throttled
charge_within mq bytes t small le =
    let cur : sub64 t.cur_bytes bytes ≡ t.cur_bytes - bytes = omega arith in
    let room : negative (sub64 t.cur_bytes bytes) ≡ false = rw cur (ground (arith, small, le)) in
    rw room (refl, cur)

-- A request that the counter does not cover: it is refused, and charged all the same.
pub charge_refused :
    (mq : Bool) (bytes : ℕ) (t : Meter)
    → 2 ^ 63 ≤ sub64 t.cur_bytes bytes
    → ((charge mq bytes t).0 ≡ false) × ((charge mq bytes t).1.cur_bytes ≡ sub64 t.cur_bytes bytes)
unfolding null_handle_throttled
charge_refused true bytes t h =
    let debt : negative (sub64 t.cur_bytes bytes) ≡ true = ground (arith, h) in
    elim (Bool-cases (ltb 0 (sub64 t.cur_bytes bytes))) [
      | inl some_left ↦ rw (debt, some_left) (refl, refl)
      | inr none_left ↦ rw (debt, none_left) (refl, refl)
    ]
charge_refused false bytes t h =
    let debt : negative (sub64 t.cur_bytes bytes) ≡ true = ground (arith, h) in
    elim (Bool-cases (ltb 0 (sub64 t.cur_bytes bytes))) [
      | inl some_left ↦ rw (debt, some_left) (refl, refl)
      | inr none_left ↦ rw (debt, none_left) (refl, refl)
    ]

-- After a tick the counter has the bytes of a tick.
pub tick_fills :
    (mq : Bool) (mbps : ℕ) (t : Meter) → (nullb_bwtimer_fn mq mbps t).cur_bytes ≡ mb_per_tick mbps
unfolding nullb_bwtimer_fn
tick_fills true mbps t = elim (Bool-cases (t.cur_bytes == mb_per_tick mbps)) [
  | inl same ↦ rw same (ground (arith, same))
  | inr other ↦ rw other
]
tick_fills false mbps t = elim (Bool-cases (t.cur_bytes == mb_per_tick mbps)) [
  | inl same ↦ rw same (ground (arith, same))
  | inr other ↦ rw other
]
