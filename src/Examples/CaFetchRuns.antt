-- ===== src/Examples/CaFetchRuns.antt =====
-- The redirects of c/ca.c, and a whole run, at concrete inputs.
use tracep.Base.{
  Bool, List, Option, [], arith, false, if◌then◌else◌, inl, none, refl, some, suc, true, zero, ℕ,
  ◌++◌, ◌==◌, ◌∷◌, ◌≡◌,
}
use tracep.Ca.Chain.{X509, gathered}
use tracep.Ca.Fetch.{fetch_der_cert, http_get_once, read_cert, redirect_target}
use tracep.Ca.Fetch.Hops.{Hop, IsFinal, Leads, fetch_der_cert-Leads, fetch_der_cert-tenth}
use tracep.Ca.Flags.{Flags, ca_options}
use tracep.Ca.Main.{ca_main, connecting, out_path, report_table, root_of, saved_lines}
use tracep.Ca.Main.Saved.{ca_main-saved}
use tracep.Ca.Response.{Response, scan_int}
use tracep.Memory.{Bytes, Outcome, ok}
use tracep.Text.{codes, decimal, same_text}

-- The host `a` redirects to the path `/`, or to `b` where it is asked with TLS; `b` has the certificate.
abbrev server : Bool → Bytes → ℕ → Bytes → Option Bytes
server tls host p request =
    if same_text host (codes "b")
    then some (codes "HTTP/1.1 200 OK\r\n\r\nder")
    else if tls
    then some (codes "HTTP/1.1 301 Moved\r\nLocation: http://b/\r\n\r\n")
    else some (codes "HTTP/1.1 302 Found\r\nLocation: /\r\n\r\nloop")

abbrev der : Bytes → Option Bytes
der body = some body

abbrev no_pem : Bytes → Option Bytes
no_pem body = none

abbrev circle : Bytes
circle = codes "http://a:80/"

abbrev found : Response
found = record { status = 302; location = codes "/"; body = codes "loop" }

circle_Hop : Hop server circle circle found
unfolding http_get_once redirect_target scan_int same_text
circle_Hop = record {
  got = refl;
  from_300 = omega arith;
  below_400 = omega arith;
  has_location = omega arith;
  goes = refl;
}

circle-Leads : (n : ℕ) → Leads server n circle circle
circle-Leads zero = refl
circle-Leads (suc n) = (circle, found, circle_Hop, circle-Leads n)

fetch_der_cert-tenth_example : fetch_der_cert server der no_pem circle ≡ ok (some (codes "loop"))
unfolding read_cert
fetch_der_cert-tenth_example =
    fetch_der_cert-tenth server der no_pem circle circle circle found (omega arith) (circle-Leads 9)
      circle_Hop

abbrev onward : Response
onward = record { status = 301; location = codes "http://b/"; body = [] }

abbrev final : Response
final = record { status = 200; location = []; body = codes "der" }

move_Hop : Hop server (codes "https://a") (codes "http://b/") onward
unfolding http_get_once redirect_target scan_int same_text
move_Hop = record {
  got = refl;
  from_300 = omega arith;
  below_400 = omega arith;
  has_location = omega arith;
  goes = refl;
}

final-IsFinal : IsFinal server (codes "http://b/") final
unfolding http_get_once scan_int same_text
final-IsFinal = record { got = refl; other = inl (omega arith) }

fetch_der_cert-Leads_example :
    fetch_der_cert server der no_pem (codes "https://a") ≡ ok (some (codes "der"))
unfolding read_cert
fetch_der_cert-Leads_example =
    fetch_der_cert-Leads server der no_pem 1 (codes "https://a") (codes "http://b/") final
      (omega arith) (codes "http://b/", onward, move_Hop, refl) final-IsFinal (omega arith)

-- A certificate is a number: 0 is the leaf, the others are authorities.
abbrev numbers : X509 ℕ
numbers = record {
  check_ca = λ c. if c == 0 then 0 else 1;
  issued_itself = λ c. c == 2;
  subject = λ c. some (decimal c);
  issuer = λ c. some (decimal c);
  expires = λ c. none;
  aia_ca_issuer = λ c. none;
  same = λ a b. a == b;
  pem = λ c. some (decimal c ++ codes "\n");
}

abbrev fetch_none : Bytes → Outcome (Option ℕ)
fetch_none url = ok none

abbrev can_open : Bytes → Bool
can_open path = true

abbrev shake : Bytes → ℕ → ℕ → Bool → Option (Option ℕ × List ℕ)
shake host p timeout insecure = some (some 0, 0 ∷ 1 ∷ 2 ∷ [])

abbrev flags : Flags
flags = record {
  port = 443;
  output = [];
  fetch_root = false;
  insecure = false;
  all = false;
  timeout = 10;
  show_ver = false;
  pos = codes "a.b" ∷ [];
}

abbrev pem_text : ℕ → Bytes
pem_text c = decimal c ++ codes "\n"

ca_main-saved_example :
    ca_main numbers fetch_none can_open shake (codes "a.b" ∷ [])
    ≡ ok (record {
      exit_code = 0;
      stdout =
          report_table numbers fetch_none can_open
            (0 ∷ 1 ∷ 2 ∷ [])
            (connecting numbers fetch_none can_open shake (codes "a.b") 443)
            []
          ++ saved_lines 2 (codes "a.b-ca.pem");
      file = some (codes "a.b-ca.pem", codes "1\n2\n");
    })
unfolding ca_options gathered root_of out_path decimal
ca_main-saved_example =
    ca_main-saved numbers fetch_none can_open pem_text (λ c. refl) shake (codes "a.b" ∷ [])
      (codes "a.b") flags 0 (0 ∷ 1 ∷ 2 ∷ []) (1 ∷ 2 ∷ []) none [] refl refl refl (inl (refl, refl))
      (omega arith) refl (omega arith) (λ e. cc) refl
