-- ===== src/Cgi/Parse/Name.antt =====
-- cgi_register_success.dom.c: the two loops read the request byte by byte, and find the name.
use caplifive_buildroot.Base.Memory.{Region}
use caplifive_buildroot.Base.{
  ℕ, suc, ◌+◌, ◌*◌, ◌≤◌, ◌<◌, ◌≡◌, refl, ap, ◌∙◌, ◌≢◌, List, [], ◌∷◌, ◌++◌, done, arith, length,
  length-append,
}
use mathlib.Core.List.{append-nil, append_assoc}
use caplifive_buildroot.Cgi.Parse.{start_scan, max_name, scan_byte, scan_socket}
use caplifive_buildroot.Cgi.Parse.Feed.{feed, feed_more, feed-add, scan_socket-feed, At, Avoids}

scan_byte_before : (c : ℕ) → c ≢ b'=' → scan_byte c start_scan ≡ done start_scan
unfolding scan_byte
scan_byte_before c h = ground arith

scan_byte_inside :
    (c : ℕ) (acc : List ℕ)
    → c ≢ b'&'
    → length acc < max_name
    → scan_byte c (record { find_target = 1; name = acc })
      ≡ done (record { find_target = 1; name = acc ++ c ∷ [] })
unfolding scan_byte
scan_byte_inside c acc h lt = ground arith

-- Before '=' nothing is kept.
feed_before :
    (pre : List ℕ) (k : ℕ) (r : Region)
    → At r k pre
    → Avoids b'=' pre
    → feed (length pre) k r start_scan ≡ done start_scan
feed_before [] k r at free = unfold feed in refl
feed_before (c ∷ pre) k r at free =
    rw
      (
        feed_more (length pre) k r start_scan (λ e. absurd (omega (arith, e))),
        at.0,
        scan_byte_before c free.0,
      )
      (feed_before pre (k + 1) r at.1 free.1)

-- Behind it every byte up to '&' is.
feed_name :
    (name acc : List ℕ) (k : ℕ) (r : Region)
    → At r k name
    → Avoids b'&' name
    → length acc + length name ≤ max_name
    → feed (length name) k r (record { find_target = 1; name = acc })
      ≡ done (record { find_target = 1; name = acc ++ name })
feed_name [] acc k r at free fits = rw append-nil (unfold feed in refl)
feed_name (c ∷ name) acc k r at free fits =
    rw
      (
        feed_more (length name) k r (record { find_target = 1; name = acc })
            (λ e. absurd (omega (arith, e))),
        at.0,
        scan_byte_inside c acc free.0 (omega arith),
      )
      (feed_name name (acc ++ c ∷ []) (k + 1) r at.1 free.1
          (omega (arith, length-append acc (c ∷ [])))
        ∙ ap (λ (n : List ℕ). done (record { find_target = 1; name = n }))
            (append_assoc acc (c ∷ []) name))

At-moved : (r : Region) (k m : ℕ) (xs : List ℕ) → k ≡ m → At r k xs → At r m xs
At-moved r k m xs e at = rw (← e) at

pub At-append :
    (r : Region) (k : ℕ) (xs ys : List ℕ) → At r k (xs ++ ys) → At r k xs × At r (k + length xs) ys
At-append r k [] ys at = (tt, At-moved r k (k + 0) ys (omega arith) at)
At-append r k (x ∷ xs) ys at =
    let (front, back) = At-append r (k + 1) xs ys at.1 in
    ((at.0, front), At-moved r (k + 1 + length xs) (k + suc (length xs)) ys (omega arith) back)

-- A request in which a name of at most 16 bytes stands between the first '=' and the next '&':
-- the loops end, within as many words as the request has and one more, and give that name.
pub scan_socket_name :
    (pre name rest : List ℕ) (r : Region) (words : ℕ)
    → At r 0 (pre ++ b'=' ∷ (name ++ b'&' ∷ rest))
    → Avoids b'=' pre
    → Avoids b'&' name
    → length name ≤ max_name
    → length pre + length name + 2 ≤ 8 * words
    → scan_socket (suc words) 0 r start_scan ≡ done (record { find_target = 2; name = name })
unfolding scan_byte feed
scan_socket_name pre name rest r words at before inside fits enough =
    let (first, tail) = At-append r 0 pre (b'=' ∷ (name ++ b'&' ∷ rest)) at in
    let (equals, more) =
      At-moved r (0 + length pre) (length pre) (b'=' ∷ (name ++ b'&' ∷ rest)) (omega arith) tail in
    let (middle, (ampersand, _)) = At-append r (length pre + 1) name (b'&' ∷ rest) more in
    let count : length pre + length name + 2 ≡ length pre + suc (length name + 1) = omega arith in
    let place : 0 + length pre ≡ length pre = omega arith in
    scan_socket-feed words (length pre + length name + 2) 0 r start_scan
      (record { find_target = 2; name = name })
      (rw
        (
          count,
          feed-add (length pre) (suc (length name + 1)) 0 r start_scan,
          feed_before pre 0 r first before,
          place,
          feed_more (length name + 1) (length pre) r start_scan (λ e. absurd (omega (arith, e))),
          equals,
          feed-add (length name) 1 (length pre + 1) r (record { find_target = 1; name = [] }),
          feed_name name [] (length pre + 1) r middle inside (omega arith),
          feed_more 0 (length pre + 1 + length name) r (record { find_target = 1; name = name })
              (λ e. absurd (omega (arith, e))),
          ampersand,
        )
        refl)
      refl enough
