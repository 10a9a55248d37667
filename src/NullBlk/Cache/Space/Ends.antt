-- ===== src/NullBlk/Cache/Space/Ends.antt =====
-- null_blk.c, `null_make_cache_space` ends.
use caplifive_buildroot.Base.{
  ℕ, zero, suc, ◌+◌, ◌*◌, ◌%◌, ◌≤◌, ◌<◌, ◌≡◌, refl, ap, ◌∙◌, ◌≢◌, inl, inr, arith, Bool, Bool-cases,
  ltb, true, false, ◌==◌, ◌⊎◌, if◌then◌else◌, List, [], ◌∷◌, Returns, Returns-mono, Returns-done,
  done,
}
use caplifive_buildroot.NullBlk.Store.{Nullb, Page, Tree, Disk}
use caplifive_buildroot.NullBlk.Store.Block.{Sectors}
use caplifive_buildroot.NullBlk.Cache.View.{cached_reads}
use caplifive_buildroot.NullBlk.Cache.Space.{flush_pages, enough, restart, null_make_cache_space}
use caplifive_buildroot.NullBlk.Cache.Space.Count.{count, count_zero}
use caplifive_buildroot.NullBlk.Cache.Space.Batch.{
  Holds, locked_tree, lock_pages-all, last_pos, size, entries, Counted,
}
use caplifive_buildroot.NullBlk.Cache.Space.Round.{Idle, Emptied, round-Emptied}
use caplifive_buildroot.NullBlk.Cache.Space.Search.{IsGang, Listed-Holds}

-- A device with no other thread at its cache.
pub record Calm (n q : ℕ) (s : Nullb) : Type 0 where
  pub counted : Counted n q s.disk
  pub idle : Idle s.disk.cache_tree

abbrev pub left : ℕ → Nullb → ℕ
left n s = count n s.disk.cache_tree

-- After a call that has to make room for `bytes`, of which `flushed` are there: there is room, or
-- as much has been flushed, and every aligned block reads as it did.
pub record Made (n q bytes flushed : ℕ) (s s' : Nullb) : Type 0 where
  pub calm : Calm n q s'
  pub same :
      (t k : ℕ) → t % q ≡ 0 → k < 512 * q → cached_reads s'.disk t k ≡ cached_reads s.disk t k
  pub same_size : s'.cache_size ≡ s.cache_size
  pub fewer : left n s' ≤ left n s
  pub active : s'.disk.cache_active ≡ s.disk.cache_active
  pub slack : s.disk.spare + left n s' ≤ s'.disk.spare + left n s
  pub room : (enough bytes s' ≡ true) ⊎ (bytes + 4096 * left n s' ≤ flushed + 4096 * left n s)

abbrev pub flag : ℕ → ℕ
flag pos = if pos == 0 then 0 else 1

abbrev pub budget : ℕ → Nullb → ℕ
budget n s = 2 * left n s + flag s.cache_flush_pos

pub flag_le : (pos : ℕ) → flag pos ≤ 1
flag_le pos = ground arith

flag-pos : (pos : ℕ) → pos ≢ 0 → flag pos ≡ 1
flag-pos pos h = ground (arith, h)

-- The cache is not empty while there is not enough room.
not_enough : (n q bytes : ℕ) (s : Nullb) → Calm n q s → enough bytes s ≡ false → left n s ≢ 0
not_enough n q bytes s c less e =
    let zero_cache : s.disk.curr_cache ≡ 0 = omega (arith, c.counted.counter, e) in
    ground (arith, less, zero_cache)

-- The next round has less to do.
restart-budget :
    (n : ℕ) (es : List (ℕ × Page)) (s s1 : Nullb)
    → left n s1 + size es ≡ left n s
    → (es ≡ [] → s.cache_flush_pos ≢ 0)
    → budget n (restart es s1) < budget n s
restart-budget n [] s s1 fewer h = omega (arith, fewer, flag-pos s.cache_flush_pos (h refl))
restart-budget n (e ∷ es) s s1 fewer h =
    omega (arith, fewer, flag_le s1.cache_flush_pos, flag_le s.cache_flush_pos)

restart_kept :
    (es : List (ℕ × Page)) (s : Nullb)
    → ((restart es s).disk ≡ s.disk) × ((restart es s).cache_size ≡ s.cache_size)
restart_kept [] s = (refl, refl)
restart_kept (e ∷ es) s = (refl, refl)

module _ (junk : ℕ → ℕ) (gang_lookup : Tree → ℕ → List (ℕ × Page)) where
  abbrev pub found : Nullb → List (ℕ × Page)
  found s = gang_lookup s.disk.cache_tree s.cache_flush_pos

  -- The device after a round.
  abbrev after : Nullb → Disk → Nullb
  after s d = record s { disk = d; cache_flush_pos = last_pos (found s) s.cache_flush_pos }

  make-step :
      (rounds bytes flushed : ℕ) (s : Nullb) (r : Bool × (ℕ × Disk))
      → enough bytes s ≡ false
      → Holds s.disk.cache_tree (found s)
      → flush_pages junk
          (entries (found s))
          0
          (record s.disk { cache_tree = locked_tree (found s) s.disk.cache_tree })
        ≡ done r
      → r.0 ≡ true
      → null_make_cache_space junk gang_lookup (suc rounds) bytes flushed s ≡ (
          if ltb (flushed + r.1.0 * 4096) bytes
          then null_make_cache_space junk gang_lookup rounds bytes
              (flushed + r.1.0 * 4096)
              (restart (found s) (after s r.1.1))
          else done (true, after s r.1.1))
  unfolding null_make_cache_space
  make-step rounds bytes flushed s r less h e ok =
      rw (less, lock_pages-all (found s) s.disk.cache_tree s h, e, ok)

  pub make-end :
      (rounds bytes flushed : ℕ) (s : Nullb)
      → enough bytes s ≡ true
      → null_make_cache_space junk gang_lookup (suc rounds) bytes flushed s ≡ done (true, s)
  unfolding null_make_cache_space
  make-end rounds bytes flushed s e = rw e

  module _ (n q : ℕ) (gang : IsGang n gang_lookup) (sectors : Sectors q) where
    -- A search from the start finds something while the cache is not empty.
    found_some :
        (bytes : ℕ) (s : Nullb)
        → Calm n q s
        → enough bytes s ≡ false
        → found s ≡ []
        → s.cache_flush_pos ≢ 0
    found_some bytes s c less e start = not_enough n q bytes s c less (
        count_zero n s.disk.cache_tree (λ i lt.
          gang.missed s.disk.cache_tree s.cache_flush_pos i c.counted.bound e
            (omega (arith, start))))

    Made-next :
        (bytes flushed : ℕ) (s s1 s' : Nullb) (es : List (ℕ × Page))
        → Emptied n q es s.disk s1.disk
        → s1.cache_size ≡ s.cache_size
        → Made n q bytes (flushed + size es * 4096) (restart es s1) s'
        → Made n q bytes flushed s s'
    Made-next bytes flushed s s1 s' es e kept m =
        let (disk, csize) = restart_kept es s1 in
        let number : left n (restart es s1) ≡ left n s1 = ap (λ d. count n d.cache_tree) disk in
        record {
          calm = m.calm;
          same = λ t k a h. m.same t k a h ∙ ap (λ d. cached_reads d t k) disk ∙ e.same t k a h;
          same_size = m.same_size ∙ csize ∙ kept;
          fewer = omega (arith, m.fewer, number, e.fewer);
          active = m.active ∙ ap (λ d. d.cache_active) disk ∙ e.active;
          slack =
              let spare : (restart es s1).disk.spare ≡ s1.disk.spare = ap (λ d. d.spare) disk in
              omega (arith, m.slack, number, e.slack, spare);
          room = elim m.room [
            | inl enough ↦ inl enough
            | inr more ↦ inr (omega (arith, more, number, e.fewer))
          ];
        }

    -- A round that leaves `s1` and has flushed as much as was asked.
    Made-stop :
        (bytes flushed : ℕ) (s s1 : Nullb) (es : List (ℕ × Page))
        → Emptied n q es s.disk s1.disk
        → s1.cache_size ≡ s.cache_size
        → bytes ≤ flushed + size es * 4096
        → Made n q bytes flushed s s1
    Made-stop bytes flushed s s1 es e kept done_all = record {
      calm = record { counted = e.counted; idle = e.idle };
      same = e.same;
      same_size = kept;
      fewer = omega (arith, e.fewer);
      active = e.active;
      slack = e.slack;
      room = inr (omega (arith, e.fewer, done_all));
    }

    Calm-restart :
        (s s1 : Nullb) (es : List (ℕ × Page))
        → Emptied n q es s.disk s1.disk
        → Calm n q (restart es s1)
    Calm-restart s s1 [] e = record { counted = e.counted; idle = e.idle }
    Calm-restart s s1 (a ∷ es) e = record { counted = e.counted; idle = e.idle }

    -- With enough rounds, `null_make_cache_space` ends without an error.
    pub make-Made :
        (rounds bytes flushed : ℕ) (s : Nullb)
        → Calm n q s
        → budget n s < rounds
        → Returns
            (λ r. (r.0 ≡ true) × Made n q bytes flushed s r.1)
            (null_make_cache_space junk gang_lookup rounds bytes flushed s)
    make-Made zero bytes flushed s c fuel = absurd (omega arith)
    make-Made (suc rounds) bytes flushed s c fuel = elim (Bool-cases (enough bytes s)) [
      | inl e ↦ rw (make-end rounds bytes flushed s e) (
        refl,
        record {
          calm = c;
          same = λ t k a h. refl;
          same_size = refl;
          fewer = omega arith;
          active = refl;
          slack = omega arith;
          room = inl e;
        },
      )
      | inr less ↦
          let es = found s in
          let h =
            Listed-Holds es s.disk.cache_tree c.idle
              (gang.listed s.disk.cache_tree s.cache_flush_pos) in
          let flushed_all : Bool × (ℕ × Disk) → Type 0 =
            λ r. (r.0 ≡ true) × (r.1.0 ≡ size es) × Emptied n q es s.disk r.1.1 in
          let (r, e, (ok, k, em)) =
            Returns-done flushed_all _
              (round-Emptied junk n q sectors es s.disk c.counted c.idle h) in
          let s1 = after s r.1.1 in
          let made : Bool × Nullb → Type 0 = λ a. (a.0 ≡ true) × Made n q bytes flushed s a.1 in
          let smaller = restart-budget n es s s1 em.fewer (found_some bytes s c less) in
          rw (make-step rounds bytes flushed s r less h e ok, k)
            (elim (Bool-cases (ltb (flushed + size es * 4096) bytes)) [
              | inl more ↦ rw more (
                  Returns-mono _ made
                    (λ a (ok', m). (ok', Made-next bytes flushed s s1 a.1 es em refl m)) _
                    (make-Made rounds bytes (flushed + size es * 4096) (restart es s1)
                      (Calm-restart s s1 es em) (omega (arith, smaller))))
              | inr ended ↦
                  rw ended (refl, Made-stop bytes flushed s s1 es em refl (ground (arith, ended)))
            ])
    ]
