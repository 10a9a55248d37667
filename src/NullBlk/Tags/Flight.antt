-- ===== src/NullBlk/Tags/Flight.antt =====
-- null_blk.c: an attempt for a tag with no other processor at the map, and the tags in flight.
pub mod Race
use native.Mathlib.Decide.{ℕ_discrete}
use caplifive_buildroot.Base.{
  ℕ, zero, suc, ◌≤◌, ◌<◌, ◌≡◌, refl, sym, ◌∙◌, ◌≢◌, inl, inr, arith, List, [], ◌∷◌, Bool, true,
  false, ltb, ◌==◌, if◌then◌else◌, Bool-cases, Option, none, some, done, Returns, Returns-chain,
  length, set, get_or, length-set, get_or-set_self, get_or-set_ne,
}
use caplifive_buildroot.NullBlk.Tags.{
  Cmd, Queue, find_first_zero_bit, get_tag, take_cmd, alloc_cmd, free_cmd,
}

find-clear :
    (bits : List Bool)
    → find_first_zero_bit bits < length bits
    → get_or bits (find_first_zero_bit bits) true ≡ false
find-clear [] h = absurd (omega arith)
find-clear (false ∷ bits) h = refl
find-clear (true ∷ bits) h = find-clear bits (omega arith)

find-full :
    (bits : List Bool) (i : ℕ)
    → length bits ≤ find_first_zero_bit bits
    → i < length bits
    → get_or bits i true ≡ true
find-full [] i h lt = absurd (omega arith)
find-full (false ∷ bits) i h lt = absurd (omega arith)
find-full (true ∷ bits) zero h lt = refl
find-full (true ∷ bits) (suc i) h lt = find-full bits i (omega arith) (omega arith)

-- What an attempt for a tag gives, when no other processor is at the map: the first clear bit,
-- now set, or the news that all are set.
pub data Got (bits : List Bool) : Option ℕ × List Bool → Type 0 where
  got :
      (tag : ℕ)
      → tag < length bits
      → get_or bits tag true ≡ false
      → Got bits (some tag, set bits tag true)
  full : ((i : ℕ) → i < length bits → get_or bits i true ≡ true) → Got bits (none, bits)

get_tag-Got :
    (rounds : ℕ) (bits : List Bool) → Returns (Got bits) (get_tag (λ r b. b) (suc rounds) bits)
unfolding get_tag
get_tag-Got rounds bits = elim (Bool-cases (ltb (find_first_zero_bit bits) (length bits))) [
  | inl some_clear ↦
      let clear = find-clear bits (ground arith) in
      rw (some_clear, clear) (got (find_first_zero_bit bits) (ground arith) clear)
  | inr none_clear ↦ rw none_clear (full (λ i lt. find-full bits i (ground arith) lt))
]

-- The commands in flight, by tag
abbrev pub in_flight : ℕ → List ℕ → Bool
in_flight t [] = false
in_flight t (u ∷ us) = if t == u then true else in_flight t us

abbrev pub landed : ℕ → List ℕ → List ℕ
landed t [] = []
landed t (u ∷ us) = if t == u then us else u ∷ landed t us

abbrev pub Distinct : List ℕ → Type 0
Distinct [] = Unit {0}
Distinct (u ∷ us) = (in_flight u us ≡ false) × Distinct us

pub landed_self : (t : ℕ) (tags : List ℕ) → Distinct tags → in_flight t (landed t tags) ≡ false
landed_self t [] d = refl
landed_self t (u ∷ us) d = elim (Bool-cases (t == u)) [
  | inl e ↦ let same : t ≡ u = ground arith in rw e (rw same d.0)
  | inr e ↦ rw (e, e) (landed_self t us d.1)
]

pub landed_other :
    (t i : ℕ) (tags : List ℕ) → i ≢ t → in_flight i (landed t tags) ≡ in_flight i tags
landed_other t i [] ne = refl
landed_other t i (u ∷ us) ne = elim (Bool-cases (t == u)) [
  | inl e ↦
      let same : t ≡ u = ground arith in
      let apart : (i == u) ≡ false = ground arith in rw (e, apart)
  | inr e ↦ elim (Bool-cases (i == u)) [
    | inl here ↦ rw (e, here)
    | inr not_here ↦ rw (e, not_here) (landed_other t i us ne)
  ]
]

pub landed-Distinct : (t : ℕ) (tags : List ℕ) → Distinct tags → Distinct (landed t tags)
landed-Distinct t [] d = tt
landed-Distinct t (u ∷ us) d = elim (Bool-cases (t == u)) [
  | inl e ↦ rw e d.1
  | inr e ↦
      let ne : u ≢ t = ground arith in rw e (landed_other t u us ne ∙ d.0, landed-Distinct t us d.1)
]

-- What one attempt of `alloc_cmd` does, when no other processor is at the map.
pub data Allocated (bio : ℕ) (nq : Queue) : Option ℕ × Queue → Type 0 where
  taken :
      (tag : ℕ)
      → tag < length nq.tag_map
      → get_or nq.tag_map tag true ≡ false
      → Allocated bio nq
          (some tag, take_cmd tag bio (record nq { tag_map = set nq.tag_map tag true }))
  asleep :
      ((i : ℕ) → i < length nq.tag_map → get_or nq.tag_map i true ≡ true)
      → Allocated bio nq (none, nq)

alloc-from :
    (bio : ℕ) (nq : Queue) (r : Option ℕ × List Bool)
    → Got nq.tag_map r
    → Returns (Allocated bio nq) (elim r.0 [
      | none ↦ done (none, record nq { tag_map = r.1 })
      | some tag ↦ done (some tag, take_cmd tag bio (record nq { tag_map = r.1 }))
    ])
alloc-from bio nq r (got tag lt clear) = taken tag lt clear
alloc-from bio nq r (full all) = asleep all

-- An attempt returns. It takes a clear bit of the map and the command at that place, or it finds
-- every bit set and changes nothing.
pub alloc_cmd-Allocated :
    (bio rounds : ℕ) (nq : Queue)
    → Returns (Allocated bio nq) (alloc_cmd (λ r b. b) (suc rounds) bio nq)
unfolding alloc_cmd
alloc_cmd-Allocated bio rounds nq =
    Returns-chain (Got nq.tag_map) (Allocated bio nq) (get_tag (λ r b. b) (suc rounds) nq.tag_map) _
      (get_tag-Got rounds nq.tag_map) (λ r g. alloc-from bio nq r g)
