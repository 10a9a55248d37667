-- ===== src/NullBlk/Throttle/Starve.antt =====
-- null_blk.c: a request that the limit never lets through.
use native.Mathlib.Nat.{add-zero, add_assoc}
use caplifive_buildroot.Base.{
  ℕ, ◌+◌, ◌*◌, ◌^◌, ◌≤◌, ◌<◌, ◌≡◌, sym, ◌⊎◌, inl, inr, arith, Bool, Bool-cases, false, leb, List,
  [], ◌∷◌,
}
use caplifive_buildroot.Base.Words.{sub64}
use caplifive_buildroot.NullBlk.Throttle.{
  Meter, mb_per_tick, null_handle_throttled, nullb_bwtimer_fn, nullb_setup_bwtimer,
}
use caplifive_buildroot.NullBlk.Throttle.Charge.{charge, charge_refused, tick_fills}

-- What happens to a device with a limit: a tick of the timer, or a request.
pub data Event : Type 0 where
  tick : Event
  request : (bytes : ℕ) → Event

abbrev pub run : Bool → ℕ → List Event → Meter → Meter
run mq mbps [] t = t
run mq mbps (Event.tick ∷ es) t = run mq mbps es (nullb_bwtimer_fn mq mbps t)
run mq mbps (Event.request bytes ∷ es) t = run mq mbps es (charge mq bytes t).1

abbrev pub asked : List Event → ℕ
asked [] = 0
asked (Event.tick ∷ es) = asked es
asked (Event.request bytes ∷ es) = bytes + asked es

-- The counter has what a tick allows at most, or is below zero by at most what has been asked for.
abbrev InTick : ℕ → ℕ → ℕ → Type 0
InTick full used c = (c ≤ full) ⊎ ((2 ^ 64 ≤ c + used) × (c < 2 ^ 64))

charge_counter :
    (mq : Bool) (bytes : ℕ) (t : Meter) → (charge mq bytes t).1.cur_bytes ≡ sub64 t.cur_bytes bytes
unfolding null_handle_throttled
charge_counter mq bytes t = elim (Bool-cases (leb (2 ^ 63) (sub64 t.cur_bytes bytes))) [
  | inl debt ↦ (charge_refused mq bytes t (ground (arith, debt))).1
  | inr room ↦ rw room
]

charge-InTick :
    (mq : Bool) (full used bytes : ℕ) (t : Meter)
    → full < 2 ^ 62
    → used + bytes ≤ 2 ^ 62
    → InTick full used t.cur_bytes
    → InTick full (used + bytes) (charge mq bytes t).1.cur_bytes
charge-InTick mq full used bytes t small few h =
    let e = charge_counter mq bytes t in
    elim h [
      | inl within ↦ elim (Bool-cases (leb bytes t.cur_bytes)) [
        | inl covered ↦
            let le : bytes ≤ t.cur_bytes = ground (arith, covered) in
            inl (omega (arith, e, le, within, small))
        | inr over ↦
            let lt : t.cur_bytes < bytes = ground (arith, over) in
            inr (omega (arith, e, lt, within, small, few), omega (arith, e, lt, within, small, few))
      ]
      | inr (debt, high) ↦
          inr (omega (arith, e, debt, high, few), omega (arith, e, debt, high, few))
    ]

run-InTick :
    (mq : Bool) (mbps used : ℕ) (es : List Event) (t : Meter)
    → mb_per_tick mbps < 2 ^ 62
    → used + asked es ≤ 2 ^ 62
    → InTick (mb_per_tick mbps) used t.cur_bytes
    → InTick (mb_per_tick mbps) (used + asked es) (run mq mbps es t).cur_bytes
run-InTick mq mbps used [] t small few h = rw (add-zero used) h
run-InTick mq mbps used (Event.tick ∷ es) t small few h =
    run-InTick mq mbps used es (nullb_bwtimer_fn mq mbps t) small few
      (inl (omega (arith, tick_fills mq mbps t)))
run-InTick mq mbps used (Event.request bytes ∷ es) t small few h =
    rw (sym (add_assoc used bytes (asked es))) (
      run-InTick mq mbps (used + bytes) es (charge mq bytes t).1 small (omega (arith, few))
        (charge-InTick mq (mb_per_tick mbps) used bytes t small (omega (arith, few)) h))

-- A request that has more bytes than a tick allows is refused whenever it is made, however many
-- ticks have passed and whatever else was asked for.
pub large_never_passes :
    (mq : Bool) (mbps bytes : ℕ) (es : List Event)
    → mbps ≤ 1024 * 40
    → mb_per_tick mbps < bytes
    → bytes + asked es ≤ 2 ^ 62
    → (null_handle_throttled (λ c. c) mq bytes (run mq mbps es (nullb_setup_bwtimer mbps))).0
      ≡ false
unfolding mb_per_tick
large_never_passes mq mbps bytes es low large few =
    let t = run mq mbps es (nullb_setup_bwtimer mbps) in
    let h =
      run-InTick mq mbps 0 es (nullb_setup_bwtimer mbps) (omega (arith, low)) (omega (arith, few))
        (inl (omega arith)) in
    (charge_refused mq bytes t (elim h [
      | inl within ↦ omega (arith, within, large, few, low)
      | inr (debt, high) ↦ omega (arith, debt, high, few)
    ])).0
