-- ===== src/NullBlk/Tags.antt =====
-- capstone_split/module/null_blk.c: the tags of a queue, which are the places of its commands.
pub mod Flight
use caplifive_buildroot.Base.{
  ℕ, zero, suc, ◌+◌, List, [], ◌∷◌, Bool, true, false, not, ltb, ◌==◌, if◌then◌else◌, Option, none,
  some, Run, done, starved, fault, ◌>>=◌, length, set, get_or,
}

-- BLK_STS_OK
abbrev pub blk_sts_ok : ℕ
blk_sts_ok = 0

-- struct nullb_cmd, as far as a bio-based queue uses it
pub record Cmd : Type 0 where
  pub tag : ℕ
  pub error : ℕ
  pub bio : ℕ

-- struct nullb_queue: `tag_map` and `cmds`, each `queue_depth` long
pub record Queue : Type 0 where
  pub tag_map : List Bool
  pub cmds : List Cmd

-- The kernel's `find_first_zero_bit`: the length of the map, if no bit is clear
abbrev pub find_first_zero_bit : List Bool → ℕ
find_first_zero_bit [] = 0
find_first_zero_bit (false ∷ bits) = 0
find_first_zero_bit (true ∷ bits) = suc (find_first_zero_bit bits)

abbrev pub put_tag : ℕ → Queue → Queue
put_tag tag nq = record nq { tag_map = set nq.tag_map tag false }

-- `get_tag`, for a bounded number of rounds. `others r` is what other processors do to the map
-- between the search and the test of the bit. `none` is -1U.
unfoldable pub get_tag :
    (others : ℕ → List Bool → List Bool) → ℕ → List Bool → Run (Option ℕ × List Bool)
get_tag others zero bits = starved
get_tag others (suc r) bits =
    let tag = find_first_zero_bit bits in
    let now = others r bits in
    let rest = get_tag others r (set now tag true) in
    if not (ltb tag (length bits))
    then done (none, bits)
    else if get_or now tag true
    then rest
    else done (some tag, set now tag true)

-- `__alloc_cmd` once there is a tag, and the assignment of `alloc_cmd`
abbrev pub take_cmd : ℕ → ℕ → Queue → Queue
take_cmd tag bio nq = record nq {
  cmds = set nq.cmds tag (record { tag = tag; error = blk_sts_ok; bio = bio });
}

-- One attempt of `alloc_cmd`. On `none` the caller sleeps until a tag is put back.
unfoldable pub alloc_cmd :
    (others : ℕ → List Bool → List Bool) → ℕ → ℕ → Queue → Run (Option ℕ × Queue)
alloc_cmd others rounds bio nq = get_tag others rounds nq.tag_map >>= λ r. elim r.0 [
  | none ↦ done (none, record nq { tag_map = r.1 })
  | some tag ↦ done (some tag, take_cmd tag bio (record nq { tag_map = r.1 }))
]

-- `free_cmd`: the tag is the one that the command holds.
abbrev pub free_cmd : Cmd → Queue → Queue
free_cmd cmd nq = put_tag cmd.tag nq
