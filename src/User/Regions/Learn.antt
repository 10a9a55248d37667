-- ===== src/User/Regions/Learn.antt =====
-- libcapstone.c: the loop of `map_region` learns what the module's table has.
use caplifive_buildroot.Base.{
  ℕ, zero, suc, ◌+◌, ◌%◌, ◌^◌, ◌≤◌, ◌<◌, ◌≡◌, refl, inl, inr, Bool, true, false, done, Returns,
  Returns-chain, ◌>>=◌, arith, ltb, leb, ◌==◌, Bool-cases, length, get_or, length-set,
  get_or-set_next, length-replicate,
}
use native.Mathlib.Decide.{dec_lt}
use caplifive_buildroot.Base.Words.{sign_extend}
use caplifive_buildroot.Kernel.Table.{
  Driver, entry, map_size_limit, max_region_n, QueryArgs, ioctl_region_query,
}
use caplifive_buildroot.Kernel.Table.Layout.{IsValid}
use caplifive_buildroot.Kernel.Table.Create.{Grows}
use caplifive_buildroot.User.Regions.{Known, nothing_known, remember, query_next, learn}

-- What the library keeps of a region is what the module's table has.
pub record Knows {W : Type 0} (d : Driver W) (k : Known) : Type 0 where
  pub offsets_n : length k.region_mmap_offsets ≡ max_region_n
  pub mappable_n : length k.region_mmappable ≡ max_region_n
  pub few : k.region_n ≤ d.region_n
  pub filled : (i : ℕ) → i < k.region_n → 0 < (entry d i).len
  pub offsets :
      (i : ℕ) → i < k.region_n → get_or k.region_mmap_offsets i 0 ≡ (entry d i).mmap_offset
  pub mappable :
      (i : ℕ)
      → i < k.region_n
      → get_or k.region_mmappable i false ≡ ltb (entry d i).len map_size_limit

pub nothing_known-Knows : {W : Type 0} (d : Driver W) → Knows d nothing_known
unfolding nothing_known
nothing_known-Knows d = record {
  offsets_n = length-replicate {A = ℕ} 64 0;
  mappable_n = length-replicate 64 false;
  few = omega arith;
  filled = λ i lt. absurd (omega arith);
  offsets = λ i lt. absurd (omega arith);
  mappable = λ i lt. absurd (omega arith);
}

-- The module's table may grow meanwhile: its entries in use stay as they were.
pub Knows-Grows : {W : Type 0} (d d' : Driver W) (k : Known) → Grows d d' → Knows d k → Knows d' k
Knows-Grows d d' k g h = record {
  offsets_n = h.offsets_n;
  mappable_n = h.mappable_n;
  few = omega (arith, h.few, g.more);
  filled = λ i lt. rw (g.kept i (omega (arith, h.few))) (h.filled i lt);
  offsets = λ i lt. rw (g.kept i (omega (arith, h.few))) (h.offsets i lt);
  mappable = λ i lt. rw (g.kept i (omega (arith, h.few))) (h.mappable i lt);
}

module _ {W : Type 0} (d : Driver W) (v : IsValid d) where
  -- What the module answers for the region that is next, if it has it.
  abbrev queried : Known → QueryArgs
  queried k = record {
    region_id = sign_extend k.region_n;
    mmap_offset = (entry d k.region_n).mmap_offset;
    len = (entry d k.region_n).len;
  }

  query_next_inside : (k : Known) → k.region_n < d.region_n → query_next d k ≡ done (queried k)
  unfolding query_next ioctl_region_query
  query_next_inside k lt =
      let e : sign_extend k.region_n ≡ k.region_n = ground (arith, v.count) in
      let known : ltb k.region_n (sign_extend d.region_n) ≡ true = ground (arith, v.count) in
      let inside : ltb k.region_n max_region_n ≡ true = ground (arith, v.count) in
      rw (e, known, inside) refl

  query_next_end :
      (k : Known)
      → k.region_n ≡ d.region_n
      → query_next d k
        ≡ done (record { region_id = sign_extend k.region_n; mmap_offset = 0; len = 0 })
  unfolding query_next ioctl_region_query
  query_next_end k e =
      let past : ltb (sign_extend k.region_n) (sign_extend d.region_n) ≡ false =
        ground (arith, v.count) in
      rw past

  filled_next :
      (k : Known)
      → Knows d k
      → 0 < (entry d k.region_n).len
      → (i : ℕ) → i < k.region_n + 1
      → 0 < (entry d i).len
  filled_next k h full i lt = elim (dec_lt i k.region_n) [
    | yes old ↦ h.filled i old
    | no new ↦ let here : i ≡ k.region_n = omega arith in rw here full
  ]

  remember-Knows :
      (k : Known)
      → k.region_n < d.region_n
      → Knows d k
      → 0 < (entry d k.region_n).len
      → Returns (λ k'. Knows d k' × (k'.region_n ≡ k.region_n + 1)) (remember (queried k) k)
  unfolding remember
  remember-Knows k lt h full =
      let room : ltb k.region_n max_region_n ≡ true = ground (arith, v.count) in
      let one_more : (k.region_n + 1) % 2 ^ 32 ≡ k.region_n + 1 = omega (arith, v.count) in
      rw room (
        record {
          offsets_n = rw length-set h.offsets_n;
          mappable_n = rw length-set h.mappable_n;
          few = omega (arith, v.count);
          filled = λ i lt'. filled_next k h full i (omega (arith, v.count));
          offsets = λ i lt'.
              get_or-set_next k.region_mmap_offsets k.region_n _ 0 (λ i. (entry d i).mmap_offset)
                (omega (arith, h.offsets_n, v.count)) h.offsets refl i (omega (arith, v.count));
          mappable = λ i lt'.
              get_or-set_next k.region_mmappable k.region_n _ false
                (λ i. ltb (entry d i).len map_size_limit) (omega (arith, h.mappable_n, v.count))
                h.mappable refl i (omega (arith, v.count));
        },
        one_more,
      )

  -- Where the loop stops: past the region, or at the first one that is missing or empty.
  abbrev pub Learnt : ℕ → Bool × Known → Type 0
  Learnt id r =
      Knows d r.1
      × (r.0 ≡ true → id < r.1.region_n)
      × (r.0 ≡ false
          → (r.1.region_n ≤ id) × (r.1.region_n < d.region_n → (entry d r.1.region_n).len ≡ 0))

  learn_stop :
      (rounds id : ℕ) (k : Known)
      → id < k.region_n
      → Knows d k
      → learn (suc rounds) id d k ≡ done (true, k)
  unfolding learn
  learn_stop rounds id k lt h =
      let past : leb (sign_extend k.region_n) id ≡ false = ground (arith, v.count, h.few) in rw past

  learn_empty :
      (rounds id : ℕ) (k : Known) (q : QueryArgs)
      → k.region_n ≤ id
      → Knows d k
      → query_next d k ≡ done q
      → (q.len == 0) ≡ true
      → learn (suc rounds) id d k ≡ done (false, k)
  unfolding learn
  learn_empty rounds id k q le h answer e =
      let more : leb (sign_extend k.region_n) id ≡ true = ground (arith, v.count, h.few) in
      rw (more, answer, e)

  learn_more :
      (rounds id : ℕ) (k : Known)
      → k.region_n ≤ id
      → Knows d k
      → query_next d k ≡ done (queried k)
      → ((queried k).len == 0) ≡ false
      → learn (suc rounds) id d k ≡ (remember (queried k) k >>= learn rounds id d)
  unfolding learn
  learn_more rounds id k le h answer e =
      let more : leb (sign_extend k.region_n) id ≡ true = ground (arith, v.count, h.few) in
      rw (more, answer, e)

  pub learn-Learnt :
      (rounds id : ℕ) (k : Known)
      → d.region_n < rounds + k.region_n
      → Knows d k
      → Returns (Learnt id) (learn rounds id d k)
  learn-Learnt zero id k f h = absurd (omega (arith, h.few))
  learn-Learnt (suc rounds) id k f h = elim (dec_lt id k.region_n) [
    | yes lt ↦ rw (learn_stop rounds id k lt h) (h, λ _. lt, λ e. cc)
    | no ge ↦ elim (dec_lt k.region_n d.region_n) [
      | no all_known ↦
          rw
            (learn_empty rounds id k _ (omega arith) h (query_next_end k (omega (arith, h.few)))
              refl)
            (h, λ b. cc, λ _. (omega arith, λ lt. absurd (all_known lt)))
      | yes lt ↦
          let answer = query_next_inside k lt in
          elim (Bool-cases ((entry d k.region_n).len == 0)) [
            | inl e ↦
                rw (learn_empty rounds id k (queried k) (omega arith) h answer e)
                  (h, λ b. cc, λ _. (omega arith, λ lt'. ground (arith, e)))
            | inr e ↦ rw (learn_more rounds id k (omega arith) h answer e) (
                Returns-chain (λ k'. Knows d k' × (k'.region_n ≡ k.region_n + 1)) (Learnt id)
                  (remember (queried k) k) (learn rounds id d)
                  (remember-Knows k lt h (ground (arith, e)))
                  (λ k' r. learn-Learnt rounds id k' (omega (arith, r.1)) r.0))
          ]
    ]
  ]
