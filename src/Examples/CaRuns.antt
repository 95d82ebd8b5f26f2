-- ===== src/Examples/CaRuns.antt =====
-- c/ca.c at concrete inputs.
use tracep.Base.{
  List, [], arith, false, inr, refl, replicate, some, suc, true, zero, ℕ, ◌++◌, ◌↔◌, ◌∷◌, ◌≡◌, ◌≢◌,
}
use tracep.Ca.Fetch.{redirect_target}
use tracep.Ca.Fetch.Redirect.{redirect_target-url_split}
use tracep.Ca.Flags.{ca_options, connect, is_flag}
use tracep.Ca.Flags.Gathered.{ca_options-gathered}
use tracep.Ca.Flags.Items.{Item, all_flag, alone, apart, output_flag, rendered, word}
use tracep.Ca.Response.{behind_any_case, parse_response, scan_int}
use tracep.Ca.Response.Answer.{location_line, parse_response-location, status_line}
use tracep.Ca.Response.Lines.{header_text}
use tracep.Ca.Url.{Url, path_room, url_split}
use tracep.Ca.Url.Overflow.{IsHost, TooLong, url_split-TooLong}
use tracep.Memory.{Bytes, fault, ok}
use tracep.Text.{codes}

abbrev answer : Bytes
answer = codes "HTTP/1.1 302 Found\r\nServer: x\r\nLOCATION:  /ca.crt\r\nAge: 1\r\n\r\nmoved"

answer_run :
    parse_response answer
    ≡ some (record { status = 302; location = codes "/ca.crt"; body = codes "moved" })
unfolding parse_response scan_int
answer_run = refl

split_run :
    url_split path_room (codes "http://a.b:8080/x/y")
    ≡ ok (
        some
          (record { scheme = codes "http"; host = codes "a.b"; port = 8080; path = codes "/x/y" }))
unfolding url_split
split_run = refl

abbrev some_items : List Item
some_items =
    word (codes "a.b")
    ∷ alone false all_flag
    ∷ apart true output_flag (codes "-")
    ∷ word (codes "8443")
    ∷ []

ca_options-gathered_example :
    ca_options (codes "a.b" ∷ codes "-all" ∷ codes "--o" ∷ codes "-" ∷ codes "8443" ∷ [])
    ≡ ca_options (codes "-all" ∷ codes "--o" ∷ codes "-" ∷ codes "a.b" ∷ codes "8443" ∷ [])
unfolding is_flag
ca_options-gathered_example = ca_options-gathered some_items (refl, (tt, (tt, (refl, tt))))

options_run :
    ca_options (rendered some_items)
    ≡ some (
        connect (codes "a.b") (record {
          port = 8443;
          output = codes "-";
          fetch_root = false;
          insecure = false;
          all = true;
          timeout = 10;
          show_ver = false;
          pos = codes "a.b" ∷ codes "8443" ∷ [];
        }))
unfolding ca_options
options_run = refl

abbrev long_host : Bytes
long_host = replicate 256 b'h'

all_of : (n c : ℕ) → (c ≢ b':') × (c ≢ b'/') → IsHost (replicate n c)
all_of zero c h = tt
all_of (suc n) c h = (h, all_of n c h)

url_split-TooLong_example :
    (url_split path_room (codes "http" ++ (codes "://" ++ (long_host ++ codes "/x"))) ≡ fault)
    ↔ TooLong (codes "http") long_host
url_split-TooLong_example =
    url_split-TooLong (codes "http") long_host (codes "/x") (omega arith)
      (all_of 256 b'h' (omega arith)) (inr refl)

abbrev first_url : Url
first_url = record { scheme = codes "http"; host = codes "a.b"; port = 8080; path = codes "/x/y" }

redirect_target-url_split_example :
    (next : Bytes) × (redirect_target (codes "http://a.b:8080/x/y") (codes "/ca.crt")
      ≡ ok (some next))
    × (url_split path_room next ≡ ok (some (record first_url { path = codes "/ca.crt" })))
unfolding url_split
redirect_target-url_split_example =
    redirect_target-url_split (codes "http://a.b:8080/x/y") first_url (codes "ca.crt") refl
      (omega arith) (omega arith) refl

parse_response-location_example :
    parse_response (
      header_text
        (status_line 302 (codes "Found") ∷ (codes "Age: 1" ∷ [])
          ++ location_line (codes "/ca.crt") ∷ codes "X: y" ∷ [])
        (0 ∷ codes "moved"))
    ≡ some (record { status = 302; location = codes "/ca.crt"; body = 0 ∷ codes "moved" })
unfolding behind_any_case
parse_response-location_example =
    parse_response-location 302 (omega arith) (codes "Found") (omega arith) (codes "Age: 1" ∷ [])
      (codes "X: y" ∷ []) (codes "/ca.crt") (0 ∷ codes "moved")
      (
        record { line = record { some_text = omega arith; one_line = omega arith }; other = refl },
        tt,
      )
      (
        record { line = record { some_text = omega arith; one_line = omega arith }; other = refl },
        tt,
      )
      (record { some_text = omega arith; printing = omega arith }) (omega arith)
