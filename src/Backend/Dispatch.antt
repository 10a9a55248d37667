-- ===== src/Backend/Dispatch.antt =====
-- miniweb_backend.smode.c: which requests go where.
use native.Mathlib.Decide.{ℕ_discrete}
use caplifive_buildroot.Base.{
  ℕ, zero, suc, ◌+◌, ◌≤◌, ◌<◌, ◌≡◌, refl, sym, ap, ◌∙◌, ◌≢◌, inl, inr, arith, List, [], ◌∷◌, ◌++◌,
  true, false, ltb, ◌==◌, Bool-cases, done, fault, length, length-append,
}
use caplifive_buildroot.Base.Memory.{update, update_self, update_ne}
use caplifive_buildroot.Backend.{read_line_from_socket, copy_word, route, request_reprocessing}

-- The bytes stand in the array from `i` on.
abbrev pub Stands : (ℕ → ℕ) → ℕ → List ℕ → Type 0
Stands f i [] = Unit {0}
Stands f i (c ∷ cs) = (f i ≡ c) × Stands f (i + 1) cs

-- Bytes of a word in a line
abbrev pub Plain : List ℕ → Type 0
Plain [] = Unit {0}
Plain (c ∷ cs) = (c ≢ b' ') × (c ≢ b'\n') × (c ≢ 0) × Plain cs

read_line-before :
    (rounds i k : ℕ) (socket buf : ℕ → ℕ)
    → k < i
    → (read_line_from_socket rounds i socket buf).0 k ≡ buf k
unfolding read_line_from_socket
read_line-before zero i k socket buf lt = refl
read_line-before (suc rounds) i k socket buf lt = elim (Bool-cases (socket i == b'\n')) [
  | inl end ↦ rw end (update_ne buf i k 0 (omega arith))
  | inr more ↦ rw more (
      read_line-before rounds (i + 1) k socket (update buf i (socket i)) (omega arith)
      ∙ update_ne buf i k (socket i) (omega arith))
]

-- A byte of the first line, up to its end, is in the buffer.
read_line-keeps :
    (rounds i k : ℕ) (socket buf : ℕ → ℕ)
    → i ≤ k
    → k < i + rounds
    → ((j : ℕ) → i ≤ j → j ≤ k → socket j ≢ b'\n')
    → (read_line_from_socket rounds i socket buf).0 k ≡ socket k
unfolding read_line_from_socket
read_line-keeps zero i k socket buf lo hi plain = absurd (omega arith)
read_line-keeps (suc rounds) i k socket buf lo hi plain =
    let more : (socket i == b'\n') ≡ false = ground (arith, plain i (omega arith) lo) in
    rw more (elim (ℕ_discrete i k) [
      | yes here ↦
          let kept =
            read_line-before rounds (i + 1) i socket (update buf i (socket i)) (omega arith) in
          rw (← here) (kept ∙ update_self buf i (socket i))
      | no later ↦
          read_line-keeps rounds (i + 1) k socket _ (omega arith) (omega arith)
            (λ j a b. plain j (omega arith) b)
    ])

copy_word-copies :
    (limit i : ℕ) (line : ℕ → ℕ) (word : List ℕ)
    → Stands line i (word ++ b' ' ∷ [])
    → Plain word
    → length word < limit
    → copy_word limit i line ≡ word
unfolding copy_word
copy_word-copies zero i line word at plain lt = absurd (omega arith)
copy_word-copies (suc limit) i line [] at plain lt = rw at.0
copy_word-copies (suc limit) i line (c ∷ word) at plain lt =
    let go_on : (c == b' ') ≡ false = ground (arith, plain.0) in
    rw (at.0, go_on)
      (ap (λ t. c ∷ t) (copy_word-copies limit (i + 1) line word at.1 plain.3 (omega arith)))

abbrev pub OneLine : List ℕ → Type 0
OneLine [] = Unit {0}
OneLine (c ∷ cs) = (c ≢ b'\n') × OneLine cs

Plain-OneLine : (word rest : List ℕ) → Plain word → OneLine rest → OneLine (word ++ rest)
Plain-OneLine [] rest p r = r
Plain-OneLine (c ∷ word) rest p r = (p.1, Plain-OneLine word rest p.3 r)

Stands-OneLine :
    (f : ℕ → ℕ) (i : ℕ) (cs : List ℕ)
    → Stands f i cs
    → OneLine cs
    → (j : ℕ) → i ≤ j
    → j < i + length cs
    → f j ≢ b'\n'
Stands-OneLine f i [] at one j lo hi = absurd (omega arith)
Stands-OneLine f i (c ∷ cs) at one j lo hi = elim (ℕ_discrete i j) [
  | yes here ↦ rw (← here, at.0) one.0
  | no later ↦ Stands-OneLine f (i + 1) cs at.1 one.1 j (omega arith) (omega arith)
]

Stands-same :
    (f g : ℕ → ℕ) (i : ℕ) (cs : List ℕ)
    → ((j : ℕ) → i ≤ j → j < i + length cs → g j ≡ f j)
    → Stands f i cs
    → Stands g i cs
Stands-same f g i [] same at = tt
Stands-same f g i (c ∷ cs) same at = (
  same i (omega arith) (omega arith) ∙ at.0,
  Stands-same f g (i + 1) cs (λ j lo hi. same j (omega arith) (omega arith)) at.1,
)

Stands-append :
    (f : ℕ → ℕ) (i k : ℕ) (xs ys : List ℕ)
    → Stands f i (xs ++ ys)
    → k ≡ i + length xs
    → Stands f k ys
Stands-append f i k [] ys at e = let same : k ≡ i = omega (arith, e) in rw same at
Stands-append f i k (x ∷ xs) ys at e = Stands-append f (i + 1) k xs ys at.1 (omega (arith, e))

Stands-front :
    (f : ℕ → ℕ) (i : ℕ) (xs : List ℕ) (y : ℕ) (ys : List ℕ)
    → Stands f i (xs ++ y ∷ ys)
    → Stands f i (xs ++ y ∷ [])
Stands-front f i [] y ys at = (at.0, tt)
Stands-front f i (x ∷ xs) y ys at = (at.0, Stands-front f (i + 1) xs y ys at.1)

-- The first line's two words
abbrev pub request_line : List ℕ → List ℕ → List ℕ
request_line method url = method ++ b' ' ∷ (url ++ b' ' ∷ [])

length-request_line :
    (method url : List ℕ) → length (request_line method url) ≡ length method + length url + 2
length-request_line method url =
    omega (arith, length-append method (b' ' ∷ (url ++ b' ' ∷ [])), length-append url (b' ' ∷ []))

-- A request that starts with two words, each with a space behind it, the first of fewer than 16
-- bytes and the second of fewer than 128, without spaces, newlines and zeroes: the words are read
-- as they are, whatever the buffers had before, and decide where the request goes.
pub request-routes :
    (junk socket : ℕ → ℕ) (method url : List ℕ)
    → Stands socket 0 (request_line method url)
    → Plain method
    → Plain url
    → length method < 16
    → length url < 128
    → request_reprocessing junk socket ≡ done (route method url)
unfolding request_reprocessing
request-routes junk socket method url at plain plain' short short' =
    let line = (read_line_from_socket 256 0 socket junk).0 in
    let text = request_line method url in
    let n = length-request_line method url in
    let one : OneLine text = Plain-OneLine method _ plain (
      λ e. absurd (omega (arith, e)),
      Plain-OneLine url (b' ' ∷ []) plain' (λ e. absurd (omega (arith, e)), tt),
    ) in
    let kept : Stands line 0 text =
      Stands-same socket line 0 text
        (λ j lo hi.
          read_line-keeps 256 0 j socket junk lo (omega (arith, hi, n))
            (λ k a b. Stands-OneLine socket 0 text at one k a (omega arith)))
        at in
    let first : copy_word 16 0 line ≡ method =
      copy_word-copies 16 0 line method (Stands-front line 0 method (b' ') _ kept) plain short in
    let behind : Stands line (length method + 1) (url ++ b' ' ∷ []) =
      (Stands-append line 0 (length method) method (b' ' ∷ (url ++ b' ' ∷ [])) kept
        (omega arith)).1 in
    let second : copy_word 128 (length method + 1) line ≡ url =
      copy_word-copies 128 (length method + 1) line url behind plain' short' in
    let fits : ltb (length method) 16 ≡ true = ground arith in
    let fits' : ltb (length url) 128 ≡ true = ground arith in rw (first, fits) (rw (second, fits'))

copy_word-fills :
    (i : ℕ) (line : ℕ → ℕ) (word : List ℕ)
    → Stands line i word
    → Plain word
    → copy_word (length word) i line ≡ word
unfolding copy_word
copy_word-fills i line [] at plain = refl
copy_word-fills i line (c ∷ word) at plain =
    let go_on : (c == b' ') ≡ false = ground (arith, plain.0) in
    rw (at.0, go_on) (ap (λ t. c ∷ t) (copy_word-fills (i + 1) line word at.1 plain.3))

Plain-is_OneLine : (word : List ℕ) → Plain word → OneLine word
Plain-is_OneLine [] p = tt
Plain-is_OneLine (c ∷ word) p = (p.1, Plain-is_OneLine word p.3)

-- A request that starts with 16 bytes without a space, a newline and a zero makes the domain write
-- the terminator past `method`, whatever comes then.
pub request_overflows :
    (junk socket : ℕ → ℕ) (word : List ℕ)
    → Stands socket 0 word
    → Plain word
    → length word ≡ 16
    → request_reprocessing junk socket ≡ fault
unfolding request_reprocessing
request_overflows junk socket word at plain long =
    let line = (read_line_from_socket 256 0 socket junk).0 in
    let one = Plain-is_OneLine word plain in
    let kept : Stands line 0 word =
      Stands-same socket line 0 word
        (λ j lo hi.
          read_line-keeps 256 0 j socket junk lo (omega (arith, hi, long))
            (λ k a b. Stands-OneLine socket 0 word at one k a (omega arith)))
        at in
    let filled : copy_word 16 0 line ≡ word =
      ap (λ n. copy_word n 0 line) (sym long) ∙ copy_word-fills 0 line word kept plain in
    let past : ltb (length word) 16 ≡ false = ground arith in rw (filled, past)
