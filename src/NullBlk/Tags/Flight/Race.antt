-- ===== src/NullBlk/Tags/Flight/Race.antt =====
-- null_blk.c, `get_tag`: no two commands in flight have the same tag, whatever other processors do
-- between the search of the map and the test of the bit.
use native.Mathlib.Decide.{ℕ_discrete}
use caplifive_buildroot.Base.{
  ℕ, zero, suc, ◌<◌, ◌≡◌, sym, ◌∙◌, ◌≢◌, inl, inr, arith, List, [], ◌∷◌, Bool, true, false, not,
  ltb, ◌==◌, if◌then◌else◌, Bool-cases, Option, none, some, Run, done, fault, starved, ◌>>=◌,
  length, set, get_or, length-set, get_or-set_self, get_or-set_ne,
}
use caplifive_buildroot.NullBlk.Tags.{
  Cmd, Queue, find_first_zero_bit, get_tag, take_cmd, alloc_cmd, free_cmd,
}
use caplifive_buildroot.NullBlk.Tags.Flight.{
  in_flight, landed, Distinct, landed_self, landed_other, landed-Distinct,
}

-- The map has the tags in flight, and they are distinct.
pub record Marks (depth : ℕ) (bits : List Bool) (tags : List ℕ) : Type 0 where
  pub map : (i : ℕ) → i < depth → get_or bits i true ≡ in_flight i tags
  pub size : length bits ≡ depth
  pub distinct : Distinct tags

-- What other processors do to the map in round `r`, and to the tags in flight: they take clear tags
-- and put back tags of theirs, so that the map still has the tags in flight.
pub record Honest (depth : ℕ) (others : ℕ → List Bool → List Bool) (owners : ℕ → List ℕ → List ℕ)
    : Type 0 where
  pub keeps :
      (r : ℕ) (bits : List Bool) (tags : List ℕ)
      → Marks depth bits tags
      → Marks depth (others r bits) (owners r tags)

module _ (others : ℕ → List Bool → List Bool) (owners : ℕ → List ℕ → List ℕ) where
  -- The tags that others hold when `get_tag` has one.
  unfoldable pub held : ℕ → List Bool → List ℕ → List ℕ
  held zero bits tags = tags
  held (suc r) bits tags =
      let tag = find_first_zero_bit bits in
      let now = others r bits in
      let rest = held r (set now tag true) (owners r tags) in
      if not (ltb tag (length bits))
      then tags
      else if get_or now tag true
      then rest
      else owners r tags

-- The queues that the processors' commands come to: each gets a tag, with other processors at the
-- map in every round, and frees it once, in any order.
pub data Reach (depth : ℕ) : Queue → List ℕ → Type 0 where
  idle :
      (nq : Queue)
      → ((i : ℕ) → i < depth → get_or nq.tag_map i true ≡ false)
      → length nq.tag_map ≡ depth
      → length nq.cmds ≡ depth
      → Reach depth nq []
  allocated :
      {nq nq' : Queue} {tags : List ℕ} (others : ℕ → List Bool → List Bool)
      (owners : ℕ → List ℕ → List ℕ) (bio tag rounds : ℕ)
      → Honest depth others owners
      → Reach depth nq tags
      → alloc_cmd others rounds bio nq ≡ done (some tag, nq')
      → Reach depth nq' (tag ∷ held others owners rounds nq.tag_map tags)
  freed :
      {nq : Queue} {tags : List ℕ} (cmd : Cmd)
      → Reach depth nq tags
      → in_flight cmd.tag tags ≡ true
      → Reach depth (free_cmd cmd nq) (landed cmd.tag tags)

pub record Accounts (depth : ℕ) (nq : Queue) (tags : List ℕ) : Type 0 where
  pub marks : Marks depth nq.tag_map tags
  pub places : length nq.cmds ≡ depth

module _ (depth : ℕ) where
  pub set-Marks :
      (tag : ℕ) (bits : List Bool) (tags : List ℕ)
      → Marks depth bits tags
      → tag < depth
      → get_or bits tag true ≡ false
      → Marks depth (set bits tag true) (tag ∷ tags)
  set-Marks tag bits tags a lt clear = record {
    map = λ i h. elim (Bool-cases (i == tag)) [
      | inl e ↦
          let same : i ≡ tag = ground arith in
          rw e (rw same (get_or-set_self bits tag true true (omega (arith, lt, a.size))))
      | inr e ↦
          let ne : tag ≢ i = ground arith in
          rw e (get_or-set_ne bits tag i true true ne ∙ a.map i h)
    ];
    size = length-set bits tag true ∙ a.size;
    distinct = (sym (a.map tag lt) ∙ clear, a.distinct);
  }

  -- The bit was set already.
  pub set_again-Marks :
      (tag : ℕ) (bits : List Bool) (tags : List ℕ)
      → Marks depth bits tags
      → tag < depth
      → get_or bits tag true ≡ true
      → Marks depth (set bits tag true) tags
  set_again-Marks tag bits tags a lt taken = record {
    map = λ i h. elim (ℕ_discrete i tag) [
      | yes same ↦ rw same (
          get_or-set_self bits tag true true (omega (arith, lt, a.size)) ∙ sym taken ∙ a.map tag lt)
      | no other ↦ get_or-set_ne bits tag i true true (λ e. other (sym e)) ∙ a.map i h
    ];
    size = length-set bits tag true ∙ a.size;
    distinct = a.distinct;
  }

  -- What an attempt leaves, if it gives a tag
  abbrev Taken : List ℕ → Run (Option ℕ × List Bool) → Type 0
  Taken tags (done (some tag, bits)) = Marks depth bits (tag ∷ tags)
  Taken tags (done (none, bits)) = Unit {0}
  Taken tags fault = Unit {0}
  Taken tags starved = Unit {0}

  abbrev Allocated : List ℕ → Run (Option ℕ × Queue) → Type 0
  Allocated tags (done (some tag, nq)) = Accounts depth nq (tag ∷ tags)
  Allocated tags (done (none, nq)) = Unit {0}
  Allocated tags fault = Unit {0}
  Allocated tags starved = Unit {0}

  get_tag-Taken :
      (others : ℕ → List Bool → List Bool) (owners : ℕ → List ℕ → List ℕ)
      → Honest depth others owners
      → (rounds : ℕ) (bits : List Bool) (tags : List ℕ) → Marks depth bits tags
      → Taken (held others owners rounds bits tags) (get_tag others rounds bits)
  unfolding get_tag held
  get_tag-Taken others owners honest zero bits tags a = tt
  get_tag-Taken others owners honest (suc r) bits tags a =
      let tag = find_first_zero_bit bits in
      let now = others r bits in
      let b = honest.keeps r bits tags a in
      elim (Bool-cases (ltb tag (length bits))) [
        | inr full ↦ rw full tt
        | inl found ↦
            let lt : tag < depth = ground (arith, found, a.size) in
            elim (Bool-cases (get_or now tag true)) [
              | inl lost ↦
                  rw (found, lost)
                    (get_tag-Taken others owners honest r (set now tag true) (owners r tags)
                      (set_again-Marks tag now (owners r tags) b lt lost))
              | inr won ↦ rw (found, won) (set-Marks tag now (owners r tags) b lt won)
            ]
      ]

  alloc-Allocated :
      (bio : ℕ) (nq : Queue) (tags : List ℕ) (m : Run (Option ℕ × List Bool))
      → length nq.cmds ≡ depth
      → Taken tags m
      → Allocated tags (
          m >>= λ r. elim r.0 [
            | none ↦ done (none, record nq { tag_map = r.1 })
            | some tag ↦ done (some tag, take_cmd tag bio (record nq { tag_map = r.1 }))
          ])
  alloc-Allocated bio nq tags (done (some tag, bits)) n m = record {
    marks = m;
    places = length-set nq.cmds tag _ ∙ n;
  }
  alloc-Allocated bio nq tags (done (none, bits)) n m = tt
  alloc-Allocated bio nq tags fault n m = tt
  alloc-Allocated bio nq tags starved n m = tt

  alloc_cmd-Accounts :
      (others : ℕ → List Bool → List Bool) (owners : ℕ → List ℕ → List ℕ) (bio rounds : ℕ)
      (nq : Queue) (tags : List ℕ)
      → Honest depth others owners
      → Accounts depth nq tags
      → Allocated (held others owners rounds nq.tag_map tags) (alloc_cmd others rounds bio nq)
  unfolding alloc_cmd
  alloc_cmd-Accounts others owners bio rounds nq tags honest a =
      alloc-Allocated bio nq _ (get_tag others rounds nq.tag_map) a.places
        (get_tag-Taken others owners honest rounds nq.tag_map tags a.marks)

  freed-Accounts :
      (cmd : Cmd) (nq : Queue) (tags : List ℕ)
      → Accounts depth nq tags
      → Accounts depth (free_cmd cmd nq) (landed cmd.tag tags)
  freed-Accounts cmd nq tags a = record {
    marks = record {
      map = λ i h. elim (ℕ_discrete i cmd.tag) [
        | yes same ↦ rw same (
            get_or-set_self nq.tag_map cmd.tag false true (omega (arith, h, same, a.marks.size))
            ∙ sym (landed_self cmd.tag tags a.marks.distinct))
        | no other ↦
            get_or-set_ne nq.tag_map cmd.tag i false true (λ e. other (sym e))
            ∙ a.marks.map i h
            ∙ sym (landed_other cmd.tag i tags other)
      ];
      size = length-set nq.tag_map cmd.tag false ∙ a.marks.size;
      distinct = landed-Distinct cmd.tag tags a.marks.distinct;
    };
    places = a.places;
  }

  -- However commands come and go, with other processors that take and put back tags between the
  -- search for a clear bit and the test of it, in every round of `get_tag`: the map of a queue has
  -- the tags of the commands in flight, and those tags are distinct, so two commands in flight
  -- never share a place.
  pub Reach-Accounts : (nq : Queue) (tags : List ℕ) → Reach depth nq tags → Accounts depth nq tags
  Reach-Accounts nq tags (Reach.idle q clear bits places) = record {
    marks = record { map = clear; size = bits; distinct = tt };
    places = places;
  }
  Reach-Accounts nq tags
        (Reach.allocated {nq = q} {tags = us} others owners bio tag rounds honest r run) =
      rw run at (alloc_cmd-Accounts others owners bio rounds q us honest (Reach-Accounts q us r))
  Reach-Accounts nq tags (Reach.freed cmd r flying) = freed-Accounts cmd _ _ (Reach-Accounts _ _ r)
