-- ===== src/Cgi/Tests.antt =====
-- cgi_register_success.dom.c, cgi_register_fail.dom.c: a request for the name "Bo", answered.
use caplifive_buildroot.Base.Memory.{Region, Memory}
use caplifive_buildroot.Base.{
  ℕ, ◌-◌, ◌≡◌, refl, List, [], ◌∷◌, ◌++◌, Returns, arith, length, ◌==◌, if◌then◌else◌,
}
use caplifive_buildroot.Cgi.Parse.Name.{scan_socket_name}
use caplifive_buildroot.Cgi.Parse.Feed.{At, Avoids}
use caplifive_buildroot.Cgi.Parse.{start_scan, scan_socket}
use caplifive_buildroot.Cgi.Register.{codes, success_page, fail_page, register}
use caplifive_buildroot.Cgi.Register.Response.{
  Answered, content, register-success, register-fail_short,
}
use caplifive_buildroot.Cgi.Dpi.{Domain, Ready, serve, serve-Ready}
use caplifive_buildroot.Base.{done}
use caplifive_buildroot.Cgi.Socket.Bytes.{are_bytes-AllBytes, Wrote, put_all-Wrote, start-Wrote}
use caplifive_buildroot.Cgi.Socket.{start, put_all}

-- "n=Bo&" in one little-endian word.
abbrev socket_region : Region
socket_region i = if i == 0 then 0x266f423d6e else 0

abbrev example_memory : Memory
example_memory q = if q == 7 then socket_region else λ i. 0

abbrev example_regions : List ℕ
example_regions = 5 ∷ 7 ∷ 9 ∷ 0 ∷ []

abbrev request : List ℕ
request = b'n' ∷ b'=' ∷ (codes "Bo" ++ b'&' ∷ [])

request_there : At socket_region 0 request
request_there = (refl, (refl, (refl, (refl, (refl, tt)))))

no_equals : Avoids b'=' (b'n' ∷ [])
no_equals = (λ e. absurd (omega (arith, e)), tt)

no_ampersand : Avoids b'&' (codes "Bo")
no_ampersand = (λ e. absurd (omega (arith, e)), (λ e. absurd (omega (arith, e)), tt))

scan_socket_name_example :
    scan_socket 2 0 socket_region start_scan ≡ done (record { find_target = 2; name = codes "Bo" })
scan_socket_name_example =
    scan_socket_name (b'n' ∷ []) (codes "Bo") [] socket_region 1 request_there no_equals
      no_ampersand (omega arith) (omega arith)

put_all-Wrote_example :
    Wrote (codes "Hello, Bo.") (put_all (codes "Hello, Bo.") (start socket_region))
put_all-Wrote_example =
    put_all-Wrote (codes "Hello, Bo.") [] (start socket_region)
      (are_bytes-AllBytes (codes "Hello, Bo.") refl) (omega arith) (start-Wrote socket_region)

register-success_example :
    Returns
      (Answered success_page example_regions
        (codes "Bo")
        (length (content success_page (codes "Bo")))
        example_memory)
      (register success_page 2 example_regions example_memory)
register-success_example =
    register-success example_regions example_memory (b'n' ∷ []) (codes "Bo") [] 1
      (λ e. absurd (omega (arith, e))) request_there no_equals no_ampersand (omega arith)
      (omega arith)

register-fail_short_example :
    Returns
      (Answered fail_page example_regions
        (codes "Bo")
        (length (content fail_page (codes "Bo")) - 4)
        example_memory)
      (register fail_page 2 example_regions example_memory)
register-fail_short_example =
    register-fail_short example_regions example_memory (b'n' ∷ []) (codes "Bo") [] 1
      (λ e. absurd (omega (arith, e))) request_there no_equals no_ampersand (omega arith)
      (omega arith)

-- The domain once the metadata, region 5, has been shared.
abbrev example_domain : Domain
example_domain = record { regions = 5 ∷ 0 ∷ 0 ∷ 0 ∷ []; region_n = 1; memory = example_memory }

serve-Ready_example :
    Returns
      (λ d'.
        Ready 5 d'
        × Answered success_page
            (5 ∷ 7 ∷ 9 ∷ [])
            (codes "Bo")
            (length (content success_page (codes "Bo")))
            example_memory
            d'.memory)
      (serve success_page 2 7 9 example_domain)
serve-Ready_example =
    serve-Ready 5 7 9 example_domain (b'n' ∷ []) (codes "Bo") [] 1
      (record { slots = refl; one_shared = refl; first = refl }) (λ e. absurd (omega (arith, e)))
      request_there no_equals no_ampersand (omega arith) (omega arith)
