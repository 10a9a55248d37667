-- ===== src/Backend/Strings.antt =====
-- miniweb_backend.smode.c: the comparisons of strings, and the requests that run a CGI domain.
use caplifive_buildroot.Base.{
  ℕ, ◌≡◌, refl, ap, ◌∙◌, ◌≢◌, ◌↔◌, inl, inr, arith, List, [], ◌∷◌, ◌++◌, Bool, true, false, ◌||◌,
  ◌==◌, if◌then◌else◌, Bool-cases, length,
}
use caplifive_buildroot.Cgi.Register.{codes}
use caplifive_buildroot.Backend.{
  simple_strcmp, simple_strncmp, is_zero, Route, cgi, not_found, html, route,
}

-- A string without a zero inside
abbrev pub ZeroFree : List ℕ → Type 0
ZeroFree [] = Unit {0}
ZeroFree (c ∷ cs) = (c ≢ 0) × ZeroFree cs

no_zero : (c d : ℕ) → c ≢ 0 → d ≢ 0 → (c == 0) || (d == 0) ≡ false
no_zero c d h k = ground arith

strcmp-equal : (a b : List ℕ) → ZeroFree a → ZeroFree b → is_zero (simple_strcmp a b) ≡ true → a ≡ b
unfolding simple_strcmp
strcmp-equal [] [] za zb e = refl
strcmp-equal [] (d ∷ ds) za zb e = absurd (zb.0 (ground arith))
strcmp-equal (c ∷ cs) [] za zb e = absurd (za.0 (ground arith))
strcmp-equal (c ∷ cs) (d ∷ ds) za zb e = elim (Bool-cases (c == d)) [
  | inl same ↦
      let head : c ≡ d = ground arith in
      rw head
        (ap (λ t. d ∷ t) (strcmp-equal cs ds za.1 zb.1 (rw (no_zero c d za.0 zb.0, same) at e)))
  | inr differ ↦ let wrong : false ≡ true = rw (no_zero c d za.0 zb.0, differ, differ) at e in cc
]

strcmp_self : (a : List ℕ) → is_zero (simple_strcmp a a) ≡ true
unfolding simple_strcmp
strcmp_self [] = refl
strcmp_self (c ∷ cs) =
    let same : (c == c) ≡ true = ground arith in
    elim (Bool-cases (c == 0)) [ inl z ↦ rw (z, same) | inr n ↦ rw (n, same) (strcmp_self cs) ]

-- `simple_strcmp` returns 0 on equal strings, and on no others.
pub strcmp_iff :
    (a b : List ℕ) → ZeroFree a → ZeroFree b → (is_zero (simple_strcmp a b) ≡ true) ↔ (a ≡ b)
strcmp_iff a b za zb = (strcmp-equal a b za zb, λ e. rw e (strcmp_self b))

strncmp-prefix :
    (a b : List ℕ)
    → ZeroFree a
    → ZeroFree b
    → is_zero (simple_strncmp a b (length b)) ≡ true
    → (t : List ℕ) × (a ≡ b ++ t)
unfolding simple_strncmp
strncmp-prefix a [] za zb e = (a, refl)
strncmp-prefix [] (d ∷ ds) za zb e = absurd (zb.0 (ground arith))
strncmp-prefix (c ∷ cs) (d ∷ ds) za zb e = elim (Bool-cases (c == d)) [
  | inl same ↦
      let head : c ≡ d = ground arith in
      let (t, rest) = strncmp-prefix cs ds za.1 zb.1 (rw (no_zero c d za.0 zb.0, same) at e) in
      (t, ap (λ (u : List ℕ). c ∷ u) rest ∙ ap (λ (u : ℕ). u ∷ (ds ++ t)) head)
  | inr differ ↦ let wrong : false ≡ true = rw (no_zero c d za.0 zb.0, differ, differ) at e in cc
]

strncmp-starts : (b t : List ℕ) → is_zero (simple_strncmp (b ++ t) b (length b)) ≡ true
unfolding simple_strncmp
strncmp-starts [] t = refl
strncmp-starts (c ∷ cs) t =
    let same : (c == c) ≡ true = ground arith in
    elim (Bool-cases (c == 0)) [ inl z ↦ rw (z, same) | inr n ↦ rw (n, same) (strncmp-starts cs t) ]

-- `simple_strncmp` over the length of its second string returns 0 when the first starts with the
-- second, and only then.
pub strncmp_iff :
    (a b : List ℕ)
    → ZeroFree a
    → ZeroFree b
    → (is_zero (simple_strncmp a b (length b)) ≡ true) ↔ ((t : List ℕ) × (a ≡ b ++ t))
strncmp_iff a b za zb = (strncmp-prefix a b za zb, λ s. rw s.1 (strncmp-starts b s.0))

abbrev are_zero_free : List ℕ → Bool
are_zero_free [] = true
are_zero_free (c ∷ cs) = if c == 0 then false else are_zero_free cs

are_zero_free-ZeroFree : (cs : List ℕ) → are_zero_free cs ≡ true → ZeroFree cs
are_zero_free-ZeroFree [] e = tt
are_zero_free-ZeroFree (c ∷ cs) e = elim (Bool-cases (c == 0)) [
  | inl z ↦ let wrong : false ≡ true = rw z at e in cc
  | inr n ↦ (ground arith, are_zero_free-ZeroFree cs (rw n at e))
]

abbrev chosen : Bool → Bool → Bool → Bool → List ℕ → Route
chosen post under success fail url =
    if post
    then if under
      then if success then cgi true else if fail then cgi false else not_found
      else not_found
    else html url

chosen-success :
    (post under success fail : Bool) (url : List ℕ)
    → chosen post under success fail url ≡ cgi true
    → (post ≡ true) × (success ≡ true)
chosen-success false under success fail url e = cc
chosen-success true false success fail url e = cc
chosen-success true true true fail url e = (refl, refl)
chosen-success true true false true url e = cc
chosen-success true true false false url e = cc

route-starts :
    (t : List ℕ) → route (codes "POST") (codes "/cgi/cgi_register_success.dom" ++ t) ≡ cgi true
unfolding route simple_strcmp simple_strncmp
route-starts t = refl

route-only_if :
    (method url : List ℕ)
    → ZeroFree method
    → ZeroFree url
    → route method url ≡ cgi true
    → (method ≡ codes "POST") × ((t : List ℕ) × (url ≡ codes "/cgi/cgi_register_success.dom" ++ t))
unfolding route
route-only_if method url zm zu e =
    let (post, success) = chosen-success _ _ _ _ url e in
    (
      strcmp-equal method (codes "POST") zm (are_zero_free-ZeroFree (codes "POST") refl) post,
      strncmp-prefix url (codes "/cgi/cgi_register_success.dom") zu
          (are_zero_free-ZeroFree (codes "/cgi/cgi_register_success.dom") refl) success,
    )

-- A request runs the CGI domain for success when its method is POST and its path starts with
-- /cgi/cgi_register_success.dom, and no other request does.
pub route-cgi_success :
    (method url : List ℕ)
    → ZeroFree method
    → ZeroFree url
    → (route method url ≡ cgi true) ↔ (
        (method ≡ codes "POST")
        × ((t : List ℕ) × (url ≡ codes "/cgi/cgi_register_success.dom" ++ t)))
route-cgi_success method url zm zu =
    (route-only_if method url zm zu, λ h. rw (h.0, h.1.1) (route-starts h.1.0))
