-- ===== src/NullBlk/Cache/Write/Loop.antt =====
-- null_blk.c, `copy_to_nullb` on a device with a cache.
use native.Mathlib.Nat.{mul-suc}
use caplifive_buildroot.Base.{
  ℕ, zero, suc, ◌+◌, ◌*◌, ◌%◌, ◌^◌, ◌≤◌, ◌<◌, ◌≡◌, refl, ap, ◌∙◌, ◌⊎◌, inl, arith, Bool, true,
  false, List, done, Returns, Returns-mono, Returns-done,
}
use caplifive_buildroot.NullBlk.Store.{
  Page, Tree, Nullb, page_of, copy_to_round, copy_to_nullb, null_insert_page, stored,
}
use caplifive_buildroot.NullBlk.Store.Block.{Sectors}
use caplifive_buildroot.NullBlk.Store.Copy.{Sectors-pos, aligned_next, copy_to-step, copy_to-end}
use caplifive_buildroot.NullBlk.Cache.View.{cached_reads}
use caplifive_buildroot.NullBlk.Cache.Space.{null_make_cache_space, page_space}
use caplifive_buildroot.NullBlk.Cache.Space.Search.{IsGang}
use caplifive_buildroot.NullBlk.Cache.Space.Ends.{Calm, left, Made, make-Made, flag_le}
use caplifive_buildroot.NullBlk.Cache.Write.{Shows}
use caplifive_buildroot.NullBlk.Cache.Write.Counts.{Written}
use caplifive_buildroot.NullBlk.Cache.Write.Stored.{stored-Written}

-- A device with an active cache, and memory for `m` blocks more.
pub record IsCached (n q m : ℕ) (s : Nullb) : Type 0 where
  pub calm : Calm n q s
  pub active : s.disk.cache_active ≡ true
  pub small : left n s + m < 2 ^ 20
  pub memory : left n s + 2 * m ≤ s.disk.spare

-- After a round, on a device that has memory for `m` blocks more.
record Stepped (n q m sector : ℕ) (source : ℕ → ℕ) (s s' : Nullb) : Type 0 where
  cached : IsCached n q m s'
  shows : Shows q sector source s.disk s'.disk
  more : left n s' ≤ left n s + 1

-- After a write of `m` blocks from `sector` on: they read as the source, all others as before.
pub record CachedTo (n q sector m : ℕ) (source : ℕ → ℕ) (s s' : Nullb) : Type 0 where
  pub cached : IsCached n q 0 s'
  pub inside :
      (j k : ℕ)
      → j < m
      → k < 512 * q
      → cached_reads s'.disk (sector + q * j) k ≡ source (512 * q * j + k)
  pub outside :
      (t k : ℕ)
      → t % q ≡ 0
      → (t < sector) ⊎ (sector + q * m ≤ t)
      → k < 512 * q
      → cached_reads s'.disk t k ≡ cached_reads s.disk t k

module _ (junk : ℕ → ℕ) (gang_lookup : Tree → ℕ → List (ℕ × Page)) (n q fuel : ℕ)
    (gang : IsGang n gang_lookup) (size : Sectors q) where
  stepped :
      (m sector : ℕ) (source : ℕ → ℕ) (s s1 s' : Nullb)
      → IsCached n q (suc m) s
      → Made n q 4096 0 s s1
      → Written n q sector source s1.disk s'.disk
      → Stepped n q m sector source s s'
  stepped m sector source s s1 s' c made w = record {
    cached = record {
      calm = record { counted = w.counted; idle = w.idle };
      active = w.active ∙ made.active ∙ c.active;
      small = omega (arith, w.more, made.fewer, c.small);
      memory = omega (arith, w.slack, made.slack, c.memory, w.more, made.fewer);
    };
    shows = record {
      inside = w.shows.inside;
      outside = λ t k a ne h. w.shows.outside t k a ne h ∙ made.same t k a h;
    };
    more = omega (arith, w.more, made.fewer);
  }

  round_runs :
      (sector : ℕ) (source : ℕ → ℕ) (s s1 s' : Nullb) (ok : Bool)
      → s.disk.cache_active ≡ true
      → null_make_cache_space junk gang_lookup fuel 4096 0 s ≡ done (ok, s1)
      → s1.disk.cache_active ≡ true
      → stored sector false (512 * q) source s1 (null_insert_page junk sector false s1.disk)
        ≡ done (true, s')
      → copy_to_round junk (page_space junk gang_lookup fuel) sector false (512 * q) source s
        ≡ done (true, s')
  unfolding copy_to_round
  round_runs sector source s s1 s' ok active made on run = simp (active, made, on, run)

  round-Stepped :
      (m sector : ℕ) (source : ℕ → ℕ) (s : Nullb)
      → IsCached n q (suc m) s
      → sector % q ≡ 0
      → page_of sector < n
      → 2 * left n s + 1 < fuel
      → Returns
          (λ r. (r.0 ≡ true) × Stepped n q m sector source s r.1)
          (copy_to_round junk (page_space junk gang_lookup fuel) sector false (512 * q) source s)
  round-Stepped m sector source s c a lt enough =
      let made_all : Bool × Nullb → Type 0 = λ r. (r.0 ≡ true) × Made n q 4096 0 s r.1 in
      let (r, e, (ok, made)) = Returns-done made_all _ (
        make-Made junk gang_lookup n q gang size fuel 4096 0 s c.calm
          (omega (arith, enough, flag_le s.cache_flush_pos))) in
      let s1 = r.1 in
      let on : s1.disk.cache_active ≡ true = made.active ∙ c.active in
      let (d, run, w) =
        stored-Written junk source n q sector size s1 made.calm.counted made.calm.idle a lt
          (omega (arith, made.fewer, c.small)) (omega (arith, made.slack, made.fewer, c.memory)) in
      let s' = record s1 { disk = d } in
      rw (round_runs sector source s s1 s' r.0 c.active e on run)
        (refl, stepped m sector source s s1 s' c made w)

  CachedTo-cons :
      (sector m : ℕ) (source : ℕ → ℕ) (s s1 s' : Nullb)
      → sector % q ≡ 0
      → Stepped n q m sector source s s1
      → CachedTo n q (sector + q) m (λ j. source (512 * q + j)) s1 s'
      → CachedTo n q sector (suc m) source s s'
  CachedTo-cons sector m source s s1 s' a w c = record {
    cached = c.cached;
    inside = inside;
    outside = λ t k b far h.
        c.outside t k b (omega (arith, far, mul-suc q m)) h
        ∙ w.shows.outside t k b (omega (arith, far, pos, mul-suc q m)) h;
  }
    where
      pos : 0 < q
      pos = Sectors-pos q size

      inside :
          (j k : ℕ)
          → j < suc m
          → k < 512 * q
          → cached_reads s'.disk (sector + q * j) k ≡ source (512 * q * j + k)
      inside zero k lt h =
          let place : sector + q * 0 ≡ sector = omega arith in
          let byte : 512 * q * 0 + k ≡ k = omega arith in
          rw (place, byte) (c.outside sector k a (inl (omega (arith, pos))) h ∙ w.shows.inside k h)
      inside (suc j) k lt h =
          let place : sector + q * suc j ≡ sector + q + q * j = omega (arith, mul-suc q j) in
          let byte : 512 * q * suc j + k ≡ 512 * q + (512 * q * j + k) =
            omega (arith, mul-suc (512 * q) j) in
          rw (place, byte) (c.inside j k (omega arith) h)

  -- Writing `m` aligned blocks, below sector 8 * `n`, to a device whose cache is active and used by
  -- no other thread, with memory for the pages of the cache and two for each block: each round has
  -- enough rounds to make space, and the write ends without an error; the blocks then read as the
  -- bytes written and every other block as before, wherever the pages are.
  pub copy_to-CachedTo :
      (m rounds sector : ℕ) (source : ℕ → ℕ) (s : Nullb)
      → IsCached n q m s
      → sector % q ≡ 0
      → sector + q * m ≤ 8 * n
      → m < rounds
      → 2 * (left n s + m) < fuel
      → Returns
          (λ r. (r.0 ≡ true) × CachedTo n q sector m source s r.1)
          (copy_to_nullb junk
            (page_space junk gang_lookup fuel)
            rounds
            sector
            false
            (512 * q * m)
            source
            s)
  copy_to-CachedTo m zero sector source s c a fits lt enough = absurd (omega arith)
  copy_to-CachedTo zero (suc rounds) sector source s c a fits lt enough =
      rw (copy_to-end junk (page_space junk gang_lookup fuel) q size rounds sector false source s) (
        refl,
        record {
          cached = c;
          inside = λ j k none h. absurd (omega arith);
          outside = λ t k b far h. refl;
        },
      )
  copy_to-CachedTo (suc m) (suc rounds) sector source s c a fits lt enough =
      let one : Bool × Nullb → Type 0 = λ r. (r.0 ≡ true) × Stepped n q m sector source s r.1 in
      let all : Bool × Nullb → Type 0 =
        λ r. (r.0 ≡ true) × CachedTo n q sector (suc m) source s r.1 in
      let (r, e, (ok, w)) = Returns-done one _ (
        round-Stepped m sector source s c a (omega (arith, fits, Sectors-pos q size, mul-suc q m))
          (omega (arith, enough))) in
      rw
        (copy_to-step junk (page_space junk gang_lookup fuel) q size rounds sector (512 * q * suc m)
          (512 * q * m) false source s r.1 c.calm.counted.block (omega (arith, mul-suc (512 * q) m))
          (e ∙ ap (λ (b : Bool). done (b, r.1)) ok))
        (Returns-mono _ all (λ x (ok', f). (ok', CachedTo-cons sector m source s r.1 x.1 a w f)) _
          (copy_to-CachedTo m rounds (sector + q) (λ j. source (512 * q + j)) r.1 w.cached
            (aligned_next q sector size a) (omega (arith, fits, mul-suc q m)) (omega arith)
            (omega (arith, enough, w.more))))
