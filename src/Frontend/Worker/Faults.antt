-- ===== src/Frontend/Worker/Faults.antt =====
-- miniweb_frontend.c with miniweb_backend.smode.c behind it: a page that is too large.
use caplifive_buildroot.Base.{
  ℕ, ◌+◌, ◌≤◌, ◌<◌, ◌≡◌, List, [], ◌∷◌, Bool, false, Option, some, leb, done, fault, Returns-done,
  arith, min, length, length-append,
}
use caplifive_buildroot.Backend.{html, request_reprocessing}
use caplifive_buildroot.Backend.Respond.{
  Memory, dom_call, routed, request_handle_200, with_head, response_head, ulong_to_str, region_size,
  html_fd_200response,
}
use caplifive_buildroot.Backend.Respond.Text.{decimal, ulong_to_str_fit}
use caplifive_buildroot.Frontend.Worker.{
  Content, Entry, readable, unreadable, Heap, string_of, answer_page, received, worker_round,
}
use caplifive_buildroot.Frontend.Worker.Answers.{
  IsRoomy, append-nil, path_fits, ready, taken, paged,
}

length-head-ge : (t : List ℕ) → 76 ≤ length (response_head t)
length-head-ge t = omega (arith, length-append t (b'\n' ∷ b'\n' ∷ []))

head_overflows :
    (c : Content) (m : Memory) (sent b : List ℕ) (run_cgi : Bool → Memory → Memory) (junk : ℕ → ℕ)
    → 76 ≤ length b
    → 4020 < c.size
    → with_head (paged run_cgi junk c m sent).memory (paged run_cgi junk c m sent).shared b ≡ fault
head_overflows c m sent b run_cgi junk h big =
    let past : leb (length b + min c.size 4096) region_size ≡ false = ground arith in rw past

module _ (run_cgi : Bool → Memory → Memory) (junk : ℕ → ℕ) where
  answer_overflows :
      (c : Content) (m : Memory) (sent : List ℕ)
      → 4020 < c.size
      → answer_page run_cgi junk
          (readable c)
          (taken run_cgi junk (record m { status = html_fd_200response }) sent)
        ≡ fault
  unfolding dom_call request_handle_200
  answer_overflows c m sent big =
      let (num_char, e, v) =
        Returns-done (λ t. (decimal t ≡ min c.size 4096) × (length t ≤ 20))
          (ulong_to_str (min c.size 4096)) (ulong_to_str_fit (min c.size 4096) (omega arith)) in
      rw (
        e,
        head_overflows c m sent (response_head num_char) run_cgi junk (length-head-ge num_char) big,
      )

  -- A file of more than 4020 bytes does not fit behind the head: on a heap with a zero behind each
  -- block and room for a byte more than was asked for, the domain writes past the region of the
  -- response.
  pub large_page_overflows :
      (heap : Heap) (www : List ℕ → Option Entry) (error_page : Option Entry) (m : Memory)
      (sent : List ℕ) (request : Entry) (c : Content) (path : List ℕ)
      → IsRoomy heap
      → request_reprocessing junk (received request (ready m sent)).memory.socket ≡ done (html path)
      → www (string_of path) ≡ some (readable c)
      → 4020 < c.size
      → worker_round run_cgi junk heap www error_page request (ready m sent) ≡ fault
  unfolding worker_round dom_call routed
  large_page_overflows heap www error_page m sent (readable request) c path roomy e found big =
      rw (e, roomy.zeroed (length path), append-nil path, path_fits heap path roomy, found)
        (answer_overflows c
          (record (received (readable request) (ready m sent)).memory {
            html_len = length path;
            path = path;
          })
          sent big)
  large_page_overflows heap www error_page m sent unreadable c path roomy e found big =
      rw (e, roomy.zeroed (length path), append-nil path, path_fits heap path roomy, found)
        (answer_overflows c
          (record (received unreadable (ready m sent)).memory {
            html_len = length path;
            path = path;
          })
          sent big)
