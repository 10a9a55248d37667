-- ===== src/NullBlk/Cache/Space/Drain.antt =====
-- null_blk.c, `null_handle_flush`: the cache is empty afterwards, or the loop does not end.
use caplifive_buildroot.Base.{
  ℕ, zero, suc, ◌+◌, ◌-◌, ◌*◌, ◌%◌, ◌^◌, ◌≤◌, ◌<◌, ◌≡◌, refl, ap, ◌∙◌, ◌≢◌, inl, inr, arith, Bool,
  Bool-cases, ltb, true, false, ◌==◌, if◌then◌else◌, none, List, starved, Returns, Returns-mono,
  Returns-done, done,
}
use caplifive_buildroot.NullBlk.Store.{Nullb, Page, Tree}
use caplifive_buildroot.NullBlk.Store.Block.{Sectors}
use caplifive_buildroot.NullBlk.Cache.View.{cached_reads}
use caplifive_buildroot.NullBlk.Cache.Space.{
  enough, null_make_cache_space, flush_loop, null_handle_flush,
}
use caplifive_buildroot.NullBlk.Cache.Space.Count.{zero_count}
use caplifive_buildroot.NullBlk.Cache.Space.Search.{IsGang}
use caplifive_buildroot.NullBlk.Cache.Space.Ends.{Calm, Made, left, flag_le, make-end, make-Made}

-- `cache_size` in bytes
abbrev pub limit : Nullb → ℕ
limit s = s.cache_size * 1024 * 1024

-- After a flush: nothing is cached, and every aligned block reads as it did.
pub record Drained (q : ℕ) (s s' : Nullb) : Type 0 where
  pub counter : s'.disk.curr_cache ≡ 0
  pub empty : (i : ℕ) → s'.disk.cache_tree i ≡ none
  pub same :
      (t k : ℕ) → t % q ≡ 0 → k < 512 * q → cached_reads s'.disk t k ≡ cached_reads s.disk t k

-- The cache's size does not wrap with what is cached.
enough-empty :
    (s : Nullb)
    → limit s + s.disk.curr_cache < 2 ^ 64
    → enough (limit s % 2 ^ 64) s ≡ true
    → s.disk.curr_cache ≡ 0
enough-empty s fits e = ground (arith, e, fits)

Calm-empty : (n q : ℕ) (s : Nullb) → Calm n q s → s.disk.curr_cache ≡ 0 → left n s ≡ 0
Calm-empty n q s c e = omega (arith, c.counted.counter, e)

Calm-none :
    (n q : ℕ) (s : Nullb)
    → Calm n q s
    → s.disk.curr_cache ≡ 0
    → (i : ℕ) → s.disk.cache_tree i ≡ none
Calm-none n q s c e i = elim (Bool-cases (ltb i n)) [
  | inl lt ↦ zero_count n i s.disk.cache_tree (Calm-empty n q s c e) (ground (arith, lt))
  | inr ge ↦ c.counted.bound i (ground (arith, ge))
]

-- A call that leaves something in the cache has flushed some of it.
some_flushed :
    (n q : ℕ) (s s1 : Nullb)
    → Calm n q s
    → 0 < s.cache_size
    → limit s + s.disk.curr_cache < 2 ^ 64
    → Made n q (limit s % 2 ^ 64) 0 s s1
    → s1.disk.curr_cache ≢ 0
    → (left n s1 < left n s) × (limit s1 + s1.disk.curr_cache < 2 ^ 64)
some_flushed n q s s1 c pos fits m more =
    let counts : s1.disk.curr_cache ≤ s.disk.curr_cache =
      omega (arith, m.calm.counted.counter, c.counted.counter, m.fewer) in
    let fits' : limit s1 + s1.disk.curr_cache < 2 ^ 64 =
      rw m.same_size (omega (arith, counts, fits)) in
    (
      elim m.room [
        | inl room ↦ absurd (
            more (
              enough-empty s1 fits'
                (ap (λ z. enough (z * 1024 * 1024 % 2 ^ 64) s1) m.same_size ∙ room)))
        | inr flushed ↦ omega (arith, flushed, pos, fits)
      ],
      fits',
    )

module _ (junk : ℕ → ℕ) (gang_lookup : Tree → ℕ → List (ℕ × Page)) where
  loop-step :
      (rounds calls : ℕ) (s s1 : Nullb)
      → null_make_cache_space junk gang_lookup rounds (limit s % 2 ^ 64) 0 s ≡ done (true, s1)
      → flush_loop junk gang_lookup rounds (suc calls) s ≡ (
          if s1.disk.curr_cache == 0
          then done (true, s1)
          else flush_loop junk gang_lookup rounds calls s1)
  unfolding flush_loop
  loop-step rounds calls s s1 e = rw e

  loop-Drained :
      (n q rounds calls : ℕ) (s : Nullb)
      → IsGang n gang_lookup
      → Sectors q
      → Calm n q s
      → 0 < s.cache_size
      → limit s + s.disk.curr_cache < 2 ^ 64
      → 2 * left n s + 1 < rounds
      → left n s < calls
      → Returns (λ r. (r.0 ≡ true) × Drained q s r.1) (flush_loop junk gang_lookup rounds calls s)
  loop-Drained n q rounds zero s gang sectors c size fits fuel more = absurd (omega arith)
  loop-Drained n q rounds (suc calls) s gang sectors c size fits fuel more =
      let made : Bool × Nullb → Type 0 = λ r. (r.0 ≡ true) × Made n q (limit s % 2 ^ 64) 0 s r.1 in
      let (r, e, (ok, m)) = Returns-done made _ (
        make-Made junk gang_lookup n q gang sectors rounds (limit s % 2 ^ 64) 0 s c
          (omega (arith, flag_le s.cache_flush_pos))) in
      let s1 = r.1 in
      let result : Bool × Nullb → Type 0 = λ a. (a.0 ≡ true) × Drained q s a.1 in
      rw (loop-step rounds calls s s1 (e ∙ ap (λ (b : Bool). done (b, s1)) ok))
        (elim (Bool-cases (s1.disk.curr_cache == 0)) [
          | inl none_left ↦
              let zero_cache : s1.disk.curr_cache ≡ 0 = ground (arith, none_left) in
              rw none_left (
                refl,
                record {
                  counter = zero_cache;
                  empty = Calm-none n q s1 m.calm zero_cache;
                  same = m.same;
                },
              )
          | inr some_left ↦
              let more_left : s1.disk.curr_cache ≢ 0 = λ e. ground (arith, some_left, e) in
              let (lt, fits') = some_flushed n q s s1 c size fits m more_left in
              rw some_left (
                Returns-mono _ result
                  (λ a (ok', d). (
                    ok',
                    record {
                      counter = d.counter;
                      empty = d.empty;
                      same = λ t k al h. d.same t k al h ∙ m.same t k al h;
                    },
                  ))
                  _
                  (loop-Drained n q rounds calls s1 gang sectors m.calm (rw m.same_size size) fits'
                    (omega (arith, lt, fuel)) (omega (arith, lt, more))))
        ])

  handle_active :
      (rounds calls : ℕ) (s : Nullb)
      → s.disk.cache_active ≡ true
      → null_handle_flush junk gang_lookup rounds calls s
        ≡ flush_loop junk gang_lookup rounds calls s
  unfolding null_handle_flush
  handle_active rounds calls s active =
      ap (λ (b : Bool). if b then flush_loop junk gang_lookup rounds calls s else done (true, s))
        active

  -- Flushing a device with a cache, when no other thread uses it: the flush ends without an error,
  -- nothing is cached afterwards, and every aligned block reads as it did.
  pub null_handle_flush-Drained :
      (n q rounds calls : ℕ) (s : Nullb)
      → IsGang n gang_lookup
      → Sectors q
      → Calm n q s
      → s.disk.cache_active ≡ true
      → 0 < s.cache_size
      → limit s + s.disk.curr_cache < 2 ^ 64
      → 2 * left n s + 1 < rounds
      → left n s < calls
      → Returns
          (λ r. (r.0 ≡ true) × Drained q s r.1)
          (null_handle_flush junk gang_lookup rounds calls s)
  null_handle_flush-Drained n q rounds calls s gang sectors c active size fits fuel more =
      rw (handle_active rounds calls s active)
        (loop-Drained n q rounds calls s gang sectors c size fits fuel more)

  loop_spins :
      (rounds calls : ℕ) (s : Nullb)
      → enough (limit s % 2 ^ 64) s ≡ true
      → s.disk.curr_cache ≢ 0
      → flush_loop junk gang_lookup (suc rounds) calls s ≡ starved
  unfolding flush_loop
  loop_spins rounds zero s e more = refl
  loop_spins rounds (suc calls) s e more =
      let cached : (s.disk.curr_cache == 0) ≡ false = ground (arith, more) in
      rw (make-end junk gang_lookup rounds (limit s % 2 ^ 64) 0 s e, cached)
        (loop_spins rounds calls s e more)

  -- With the largest `cache_size` that `null_validate_conf` lets through, and a megabyte or more in
  -- the cache, the sum that `null_make_cache_space` compares wraps, so that nothing is flushed, and
  -- the loop of `null_handle_flush` does not end.
  pub null_handle_flush-spins :
      (rounds calls : ℕ) (s : Nullb)
      → s.disk.cache_active ≡ true
      → s.cache_size ≡ 2 ^ 44 - 1
      → 2 ^ 20 ≤ s.disk.curr_cache
      → s.disk.curr_cache < 2 ^ 32
      → null_handle_flush junk gang_lookup (suc rounds) calls s ≡ starved
  null_handle_flush-spins rounds calls s active size low high =
      let room : enough (limit s % 2 ^ 64) s ≡ true = rw size (ground (arith, low, high)) in
      handle_active (suc rounds) calls s active
      ∙ loop_spins rounds calls s room (λ e. omega (arith, e, low))
