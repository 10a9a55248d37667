-- ===== src/Cgi/Parse/Feed.antt =====
-- cgi_register_success.dom.c: the two nested loops take the bytes one after the other.
use native.Mathlib.Decide.{dec_lt}
use caplifive_buildroot.Base.Memory.{Region}
use caplifive_buildroot.Base.{
  ℕ, zero, suc, ◌+◌, ◌-◌, ◌*◌, ◌/◌, ◌%◌, ◌≤◌, ◌<◌, ◌≡◌, refl, sym, ap, ◌∙◌, ◌≢◌, inl, inr, List, [],
  ◌∷◌, Run, done, ◌>>=◌, >>=_assoc, >>=_cong, >>=-eq-done, arith, ◌==◌, if◌then◌else◌, Bool-cases,
  true, false,
}
use caplifive_buildroot.Cgi.Socket.{byte_of, byte_at}
use caplifive_buildroot.Cgi.Parse.{Scan, scan_byte, scan_word, scan_socket}

-- The region holds these bytes from offset `k` on.
abbrev pub At : Region → ℕ → List ℕ → Type 0
At r k [] = Unit {0}
At r k (b ∷ bs) = (byte_at r k ≡ b) × At r (k + 1) bs

abbrev pub Avoids : ℕ → List ℕ → Type 0
Avoids c [] = Unit {0}
Avoids c (b ∷ bs) = (b ≢ c) × Avoids c bs

-- `n` bytes from offset `k` on, one after the other, up to the target.
unfoldable pub feed : ℕ → ℕ → Region → Scan → Run Scan
feed zero k r s = done s
feed (suc n) k r s =
    let rest = scan_byte (byte_at r k) s >>= feed n (k + 1) r in
    if s.find_target == 2 then done s else rest

feed_found : (n k : ℕ) (r : Region) (s : Scan) → s.find_target ≡ 2 → feed n k r s ≡ done s
unfolding feed
feed_found zero k r s e = refl
feed_found (suc n) k r s e = let f : (s.find_target == 2) ≡ true = ground arith in rw f

pub feed_more :
    (n k : ℕ) (r : Region) (s : Scan)
    → s.find_target ≢ 2
    → feed (suc n) k r s ≡ (scan_byte (byte_at r k) s >>= feed n (k + 1) r)
unfolding feed
feed_more n k r s e = let f : (s.find_target == 2) ≡ false = ground arith in rw f

pub feed-add :
    (n m k : ℕ) (r : Region) (s : Scan) → feed (n + m) k r s ≡ (feed n k r s >>= feed m (k + n) r)
feed-add zero m k r s =
    let e : 0 + m ≡ m = omega arith in
    let f : k + 0 ≡ k = omega arith in rw (e, f) (unfold feed in refl)
feed-add (suc n) m k r s = elim (Bool-cases (s.find_target == 2)) [
  | inl found ↦
      let e : s.find_target ≡ 2 = ground arith in
      rw (feed_found (suc n + m) k r s e, feed_found (suc n) k r s e)
        (sym (feed_found m (k + suc n) r s e))
  | inr open_still ↦
      let ne : s.find_target ≢ 2 = ground arith in
      let e : suc n + m ≡ suc (n + m) = omega arith in
      let f : k + suc n ≡ k + 1 + n = omega arith in
      rw (e, f, feed_more (n + m) k r s ne, feed_more n k r s ne)
        (>>=_cong (scan_byte (byte_at r k) s) (feed (n + m) (k + 1) r)
            (λ a. feed n (k + 1) r a >>= feed m (k + 1 + n) r) (λ a. feed-add n m (k + 1) r a)
          ∙ sym (>>=_assoc (scan_byte (byte_at r k) s) (feed n (k + 1) r) (feed m (k + 1 + n) r)))
]

byte_in_word : (r : Region) (o i : ℕ) → i < 8 → byte_at r (8 * o + i) ≡ byte_of (r o) i
byte_in_word r o i h =
    let e : (8 * o + i) / 8 ≡ o = omega arith in
    let f : (8 * o + i) % 8 ≡ i = omega arith in rw (e, f)

scan_word_round :
    (rounds i o : ℕ) (r : Region) (s : Scan)
    → i < 8
    → s.find_target ≢ 2
    → ((a : Scan)
        → a.find_target ≢ 2
        → scan_word rounds (i + 1) (r o) a ≡ feed rounds (8 * o + i + 1) r a)
    → scan_word (suc rounds) i (r o) s ≡ feed (suc rounds) (8 * o + i) r s
unfolding scan_word
scan_word_round rounds i o r s h ne rest =
    rw (feed_more rounds (8 * o + i) r s ne, byte_in_word r o i h)
      (>>=_cong (scan_byte (byte_of (r o) i) s) _ (feed rounds (8 * o + i + 1) r) (λ a.
        elim (Bool-cases (a.find_target == 2)) [
          | inl found ↦ rw found (sym (feed_found rounds (8 * o + i + 1) r a (ground arith)))
          | inr more ↦ rw more (rest a (ground arith))
        ]))

scan_word-feed :
    (rounds i o : ℕ) (r : Region) (s : Scan)
    → i + rounds ≤ 8
    → s.find_target ≢ 2
    → scan_word rounds i (r o) s ≡ feed rounds (8 * o + i) r s
scan_word-feed zero i o r s h ne = unfold scan_word feed in refl
scan_word-feed (suc rounds) i o r s h ne = scan_word_round rounds i o r s (omega arith) ne (λ a e.
    let f : 8 * o + i + 1 ≡ 8 * o + (i + 1) = omega arith in
    rw f (scan_word-feed rounds (i + 1) o r a (omega arith) e))

scan_socket_found :
    (words o : ℕ) (r : Region) (s : Scan)
    → s.find_target ≡ 2
    → scan_socket (suc words) o r s ≡ done s
unfolding scan_socket
scan_socket_found words o r s e = let f : (s.find_target == 2) ≡ true = ground arith in rw f

scan_socket_more :
    (words o : ℕ) (r : Region) (s : Scan)
    → s.find_target ≢ 2
    → scan_socket (suc words) o r s ≡ (feed 8 (8 * o) r s >>= scan_socket words (o + 1) r)
unfolding scan_socket
scan_socket_more words o r s e =
    let f : (s.find_target == 2) ≡ false = ground arith in
    let z : 8 * o + 0 ≡ 8 * o = omega arith in rw (f, scan_word-feed 8 0 o r s (omega arith) e, z)

-- The bytes up to the target are fewer than a word has: the word's other bytes change nothing.
feed_past :
    (n m k : ℕ) (r : Region) (s t : Scan)
    → feed n k r s ≡ done t
    → t.find_target ≡ 2
    → n ≤ m
    → feed m k r s ≡ done t
feed_past n m k r s t f e h =
    let split : m ≡ n + (m - n) = omega arith in
    rw (split, feed-add n (m - n) k r s, f) (feed_found (m - n) (k + n) r t e)

feed_none : (n k : ℕ) (r : Region) (s : Scan) → n ≡ 0 → feed n k r s ≡ done s
feed_none n k r s e = rw e (unfold feed in refl)

-- The nested loops read the bytes in order, if the target is found within the words allowed.
pub scan_socket-feed :
    (words n o : ℕ) (r : Region) (s t : Scan)
    → feed n (8 * o) r s ≡ done t
    → t.find_target ≡ 2
    → n ≤ 8 * words
    → scan_socket (suc words) o r s ≡ done t
scan_socket-feed zero n o r s t f e h =
    let same : done s ≡ done t = sym (feed_none n (8 * o) r s (omega arith)) ∙ f in
    let is : s.find_target ≡ 2 = ground (arith, same) in scan_socket_found 0 o r s is ∙ same
scan_socket-feed (suc words) n o r s t f e h = elim (Bool-cases (s.find_target == 2)) [
  | inl found ↦
      let is : s.find_target ≡ 2 = ground arith in
      scan_socket_found (suc words) o r s is ∙ sym (feed_found n (8 * o) r s is) ∙ f
  | inr more ↦ elim (dec_lt n 8) [
    | yes short ↦
        rw
          (
            scan_socket_more (suc words) o r s (ground arith),
            feed_past n 8 (8 * o) r s t f e (omega arith),
          )
          (scan_socket_found words (o + 1) r t e)
    | no long ↦
        let split : n ≡ 8 + (n - 8) = omega arith in
        let place : 8 * o + 8 ≡ 8 * (o + 1) = omega arith in
        let (a, first, rest) =
          >>=-eq-done (feed 8 (8 * o) r s) (feed (n - 8) (8 * o + 8) r)
            (sym (feed-add 8 (n - 8) (8 * o) r s) ∙ sym (ap (λ m. feed m (8 * o) r s) split) ∙ f) in
        rw (scan_socket_more (suc words) o r s (ground arith), first)
          (scan_socket-feed words (n - 8) (o + 1) r a t (rw place at rest) e (omega arith))
  ]
]
