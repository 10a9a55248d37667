-- ===== src/Cgi/Register/Response.antt =====
-- cgi_register_success.dom.c, cgi_register_fail.dom.c: what the response region holds, and whether
-- its Content-length is right.
use caplifive_buildroot.Base.Memory.{
  Region, update, Memory, write, update_self, update_ne, write_self, write_ne,
}
use caplifive_buildroot.Base.{
  ℕ, suc, ◌+◌, ◌-◌, ◌*◌, ◌%◌, ◌^◌, ◌≤◌, ◌<◌, ◌≡◌, refl, sym, ap, ◌∙◌, ◌≢◌, List, [], ◌∷◌, ◌++◌,
  Returns, arith, length, length-append, get_or,
}
use caplifive_buildroot.Cgi.Socket.{put_all, start}
use caplifive_buildroot.Cgi.Socket.Bytes.{
  AllBytes, are_bytes-AllBytes, AllBytes-append, Spells, Wrote, put_all-Wrote, start-Wrote,
}
use caplifive_buildroot.Cgi.Parse.{max_name}
use caplifive_buildroot.Cgi.Parse.Name.{At-append, scan_socket_name}
use caplifive_buildroot.Cgi.Parse.Feed.{At, Avoids}
use caplifive_buildroot.Cgi.Register.{
  Page, success_page, fail_page, backwards, response_text, respond, register,
  metadata_socket_len_offset,
}
use caplifive_buildroot.Cgi.Register.Digits.{read_decimal, digits_loop-reads}

-- What follows the empty line of the response.
abbrev pub content : Page → List ℕ → List ℕ
content p name = p.greeting ++ (name ++ p.ending)

-- The response of page `p` for `name` stands in the response region, its Content-length is
-- `announced`, the metadata has its size, and nothing else of the memory is changed.
pub record Answered (p : Page) (regions name : List ℕ) (announced : ℕ) (m m' : Memory)
    : Type 0 where
  pub digits : List ℕ
  pub reads : read_decimal 0 digits ≡ announced
  pub spells :
      Spells (m' (get_or regions 2 0)) (p.status ++ (digits ++ (p.headers ++ content p name)))
  pub size :
      m' (get_or regions 0 0) metadata_socket_len_offset
      ≡ length (p.status ++ (digits ++ (p.headers ++ content p name)))
  pub metadata :
      (i : ℕ)
      → i ≢ metadata_socket_len_offset
      → m' (get_or regions 0 0) i ≡ m (get_or regions 0 0) i
  pub others : (q : ℕ) → q ≢ get_or regions 0 0 → q ≢ get_or regions 2 0 → m' q ≡ m q

pub At-AllBytes : (r : Region) (k : ℕ) (bs : List ℕ) → At r k bs → AllBytes bs
At-AllBytes r k [] at = tt
At-AllBytes r k (b ∷ bs) at = (rw (← at.0) (omega arith), At-AllBytes r (k + 1) bs at.1)

-- The texts of a page are bytes, and not many.
pub record IsPage (p : Page) : Type 0 where
  pub status : AllBytes p.status
  pub headers : AllBytes p.headers
  pub greeting : AllBytes p.greeting
  pub ending : AllBytes p.ending
  pub short : length p.status + length p.headers + length p.greeting + length p.ending < 2 ^ 32
  pub fixed : p.content_fixed_size < 100

module _ (p : Page) (is : IsPage p) (regions name : List ℕ) (m : Memory)
    (apart : get_or regions 0 0 ≢ get_or regions 2 0) (bytes : AllBytes name)
    (fits : length name ≤ max_name) where
  text_bytes :
      (ds : List ℕ) → AllBytes ds → AllBytes (p.status ++ (ds ++ (p.headers ++ content p name)))
  text_bytes ds all = AllBytes-append p.status _ is.status (
      AllBytes-append ds _ all (
        AllBytes-append p.headers _ is.headers (
          AllBytes-append p.greeting _ is.greeting
            (AllBytes-append name p.ending bytes is.ending))))

  text_length :
      (ds : List ℕ)
      → length ds ≤ 3
      → length (p.status ++ (ds ++ (p.headers ++ content p name))) < 2 ^ 64
  text_length ds h = omega (
    arith,
    is.short,
    length-append p.status (ds ++ (p.headers ++ content p name)),
    length-append ds (p.headers ++ content p name),
    length-append p.headers (content p name),
    length-append p.greeting (name ++ p.ending),
    length-append name p.ending,
  )

  respond-Answered :
      (cs : List ℕ) (n : ℕ)
      → read_decimal 0 (backwards cs) ≡ n
      → length (backwards cs) ≤ 3
      → AllBytes (backwards cs)
      → Answered p regions name n m (respond p regions name m cs)
  unfolding respond response_text
  respond-Answered cs n reads short all =
      let text = p.status ++ (backwards cs ++ (p.headers ++ content p name)) in
      let out = put_all text (start (m (get_or regions 2 0))) in
      let w : Wrote text out =
        put_all-Wrote text [] (start (m (get_or regions 2 0))) (text_bytes (backwards cs) all)
          (omega (arith, text_length (backwards cs) short))
          (start-Wrote (m (get_or regions 2 0))) in
      let mid : Memory = write m (get_or regions 2 0) out.region in
      let meta : Region = update (mid (get_or regions 0 0)) 2 out.size in
      record {
        digits = backwards cs;
        reads = reads;
        spells =
            rw
              (
                write_ne mid (get_or regions 0 0) (get_or regions 2 0) meta (λ e. apart (sym e)),
                write_self m (get_or regions 2 0) out.region,
              )
              w.spells;
        size =
            rw (write_self mid (get_or regions 0 0) meta)
              (update_self (mid (get_or regions 0 0)) 2 out.size ∙ w.size);
        metadata = λ i ne.
            ap (λ (r : Region). r i) (write_self mid (get_or regions 0 0) meta)
            ∙ update_ne (mid (get_or regions 0 0)) 2 i out.size ne
            ∙ ap (λ (r : Region). r i)
                (write_ne m (get_or regions 2 0) (get_or regions 0 0) out.region apart);
        others = λ q a b.
            write_ne mid (get_or regions 0 0) q meta a
            ∙ write_ne m (get_or regions 2 0) q out.region b;
      }

-- For a request with a name of at most 16 bytes between its first '=' and the next '&', the
-- program ends, and its Content-length is the name's length and `content_fixed_size`.
pub register-Answered :
    (p : Page) (is : IsPage p) (regions : List ℕ) (m : Memory) (pre name rest : List ℕ) (words : ℕ)
    → get_or regions 0 0 ≢ get_or regions 2 0
    → At (m (get_or regions 1 0)) 0 (pre ++ b'=' ∷ (name ++ b'&' ∷ rest))
    → Avoids b'=' pre
    → Avoids b'&' name
    → length name ≤ max_name
    → length pre + length name + 2 ≤ 8 * words
    → Returns
        (λ m'. Answered p regions name (length name + p.content_fixed_size) m m')
        (register p (suc words) regions m)
unfolding register
register-Answered p is regions m pre name rest words apart at before inside fits enough =
    let r = m (get_or regions 1 0) in
    let (_, (_, more)) = At-append r 0 pre (b'=' ∷ (name ++ b'&' ∷ rest)) at in
    let (middle, _) = At-append r (0 + length pre + 1) name (b'&' ∷ rest) more in
    let small : (length name + p.content_fixed_size) % 2 ^ 64 ≡ length name + p.content_fixed_size =
      omega (arith, is.fixed) in
    let (cs, run, reads, short, all) =
      digits_loop-reads 3 (length name + p.content_fixed_size) (omega arith)
        (omega (arith, is.fixed)) in
    rw (scan_socket_name pre name rest r words at before inside fits enough, small, run)
      (respond-Answered p is regions name m apart (At-AllBytes r (0 + length pre + 1) name middle)
        fits cs (length name + p.content_fixed_size) reads short all)

success_page-IsPage : IsPage success_page
success_page-IsPage = record {
  status = are_bytes-AllBytes success_page.status refl;
  headers = are_bytes-AllBytes success_page.headers refl;
  greeting = are_bytes-AllBytes success_page.greeting refl;
  ending = are_bytes-AllBytes success_page.ending refl;
  short = omega arith;
  fixed = omega arith;
}

fail_page-IsPage : IsPage fail_page
fail_page-IsPage = record {
  status = are_bytes-AllBytes fail_page.status refl;
  headers = are_bytes-AllBytes fail_page.headers refl;
  greeting = are_bytes-AllBytes fail_page.greeting refl;
  ending = are_bytes-AllBytes fail_page.ending refl;
  short = omega arith;
  fixed = omega arith;
}

length-content :
    (p : Page) (name : List ℕ)
    → length (content p name) ≡ length name + (length p.greeting + length p.ending)
length-content p name =
    omega (arith, length-append p.greeting (name ++ p.ending), length-append name p.ending)

module _ (regions : List ℕ) (m : Memory) (pre name rest : List ℕ) (words : ℕ) where
  -- For a request that has a name of at most 16 bytes between its first '=' and the next '&', and
  -- with the metadata in another region than the response, `register_success` ends, within as many
  -- words as the request has: the response region holds the HTTP response for that name, with a
  -- Content-length that is the number of bytes behind the empty line, the metadata holds the
  -- response's size, and no other memory is changed.
  pub register-success :
      get_or regions 0 0 ≢ get_or regions 2 0
      → At (m (get_or regions 1 0)) 0 (pre ++ b'=' ∷ (name ++ b'&' ∷ rest))
      → Avoids b'=' pre
      → Avoids b'&' name
      → length name ≤ max_name
      → length pre + length name + 2 ≤ 8 * words
      → Returns
          (λ m'. Answered success_page regions name (length (content success_page name)) m m')
          (register success_page (suc words) regions m)
  register-success apart at before inside fits enough = rw (length-content success_page name) (
      register-Answered success_page success_page-IsPage regions m pre name rest words apart at
        before inside fits enough)

  -- Under the same conditions `register_fail` ends with its response for that name in the region,
  -- but its Content-length is four bytes less than what stands behind the empty line.
  pub register-fail_short :
      get_or regions 0 0 ≢ get_or regions 2 0
      → At (m (get_or regions 1 0)) 0 (pre ++ b'=' ∷ (name ++ b'&' ∷ rest))
      → Avoids b'=' pre
      → Avoids b'&' name
      → length name ≤ max_name
      → length pre + length name + 2 ≤ 8 * words
      → Returns
          (λ m'. Answered fail_page regions name (length (content fail_page name) - 4) m m')
          (register fail_page (suc words) regions m)
  register-fail_short apart at before inside fits enough =
      let short : length (content fail_page name) - 4 ≡ length name + 72 =
        omega (arith, length-content fail_page name) in
      rw short (
        register-Answered fail_page fail_page-IsPage regions m pre name rest words apart at before
          inside fits enough)
