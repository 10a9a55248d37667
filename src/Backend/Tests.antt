-- ===== src/Backend/Tests.antt =====
-- miniweb_backend.smode.c: a request for the CGI domain, as it comes from the socket.
use caplifive_buildroot.Base.{
  zero, suc, replicate, fault, ◌<◌, ◌≢◌, ℕ, ◌+◌, ◌≡◌, refl, List, [], ◌∷◌, done, arith, get_or,
}
use caplifive_buildroot.Cgi.Register.{codes}
use caplifive_buildroot.Backend.{route, request_reprocessing}
use caplifive_buildroot.Backend.Dispatch.{Plain, Stands, request-routes, request_overflows}
use caplifive_buildroot.Backend.Strings.{ZeroFree}

abbrev pub socket : ℕ → ℕ
socket i = get_or (codes "GO / HTTP/1.1\n") i 0

is_plain : (c : ℕ) → 32 < c → (c ≢ b' ') × (c ≢ b'\n') × (c ≢ 0)
is_plain c h = (λ e. absurd (omega arith), λ e. absurd (omega arith), λ e. absurd (omega arith))

pub Plain-cons : (c : ℕ) (cs : List ℕ) → 32 < c → Plain cs → Plain (c ∷ cs)
Plain-cons c cs h p = let q = is_plain c h in (q.0, q.1, q.2, p)

request-routes_example :
    request_reprocessing (λ i. 32) socket ≡ done (route (codes "GO") (codes "/"))
request-routes_example =
    request-routes (λ i. 32) socket (codes "GO") (codes "/")
      (refl, (refl, (refl, (refl, (refl, tt)))))
      (Plain-cons b'G' (codes "O") (omega arith) (Plain-cons b'O' [] (omega arith) tt))
      (Plain-cons b'/' [] (omega arith) tt) (omega arith) (omega arith)

-- A word of n letters
abbrev letters : ℕ → List ℕ
letters n = replicate n b'A'

letters-Plain : (n : ℕ) → Plain (letters n)
letters-Plain zero = tt
letters-Plain (suc n) = Plain-cons b'A' (letters n) (omega arith) (letters-Plain n)

letters-Stands : (n i : ℕ) → Stands (λ j. b'A') i (letters n)
letters-Stands zero i = tt
letters-Stands (suc n) i = (refl, letters-Stands n (i + 1))

request_overflows_example : request_reprocessing (λ i. 0) (λ i. b'A') ≡ fault
request_overflows_example =
    request_overflows (λ i. 0) (λ i. b'A') (letters 16) (letters-Stands 16 0) (letters-Plain 16)
      refl

go-ZeroFree : ZeroFree (codes "GO")
go-ZeroFree = (λ e. absurd (omega (arith, e)), (λ e. absurd (omega (arith, e)), tt))
