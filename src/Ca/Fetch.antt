-- ===== src/Ca/Fetch.antt =====
-- http_get_once and fetch_der_cert of c/ca.c. What the network answers, and what OpenSSL makes of the
-- bytes of a certificate, are parameters.
pub mod Redirect
pub mod Hops
use tracep.Base.{
  Bool, Option, [], false, if◌then◌else◌, leb, length, ltb, none, some, suc, take, true, zero, ℕ,
  ◌&&◌, ◌++◌, ◌==◌, ◌∷◌,
}
use tracep.Ca.Response.{Response, parse_response}
use tracep.Ca.Url.{Url, path_room, url_split}
use tracep.Exec.Line.{pid_text}
use tracep.Memory.{Bytes, Outcome, ok, ◌>>=◌}
use tracep.Net.Lsof.{cut_text}
use tracep.Text.{codes, same_text}

unfoldable pub request_text : Url → Bytes
request_text u =
    codes "GET "
    ++ (u.path
        ++ (codes " HTTP/1.1\r\nHost: "
            ++ (u.host
                ++ codes "\r\nUser-Agent: tracep\r\nAccept: */*\r\nConnection: close\r\n\r\n")))

abbrev pub begins_with_slash : Bytes → Bool
begins_with_slash [] = false
begins_with_slash (c ∷ s) = c == b'/'

-- a target without a host, against the URL that it was got from
unfoldable pub relative_target : Url → Bytes → Bytes
unfolding pid_text
relative_target u loc =
    u.scheme
    ++ (codes "://"
        ++ (u.host
            ++ (b':' ∷ pid_text u.port ++ (if begins_with_slash loc then loc else b'/' ∷ loc))))

-- the next URL after a redirect from `cur`
unfoldable pub redirect_target : Bytes → Bytes → Outcome (Option Bytes)
unfolding cut_text url_split relative_target
redirect_target cur loc = elim (cut_text (codes "://") loc) [
  | some r ↦ ok (some (take 2047 loc))
  | none ↦ url_split path_room cur >>= λ split. elim split [
    | none ↦ ok none
    | some u ↦ ok (some (take 2047 (relative_target u loc)))
  ]
]

unfoldable pub is_redirect : Response → Bool
is_redirect r = leb 300 r.status && ltb r.status 400 && ltb 0 (length r.location)

abbrev pub max_hops : ℕ
max_hops = 10

module _ {Cert : Type 0} (d2i_x509 pem_read : Bytes → Option Cert) where
  -- DER first, then PEM
  unfoldable pub read_cert : Bytes → Option Cert
  read_cert body =
      if length body == 0
      then none
      else elim (d2i_x509 body) [ some c ↦ some c | none ↦ pem_read body ]

-- `exchange` is the answer of a host, at a port, with TLS or without, to a request; `none` is a failure
-- in front of the answer.
module _ (exchange : Bool → Bytes → ℕ → Bytes → Option Bytes) where
  unfoldable pub http_get_once : Bytes → Outcome (Option Response)
  unfolding url_split request_text parse_response same_text
  http_get_once url = url_split path_room url >>= λ split. elim split [
    | none ↦ ok none
    | some u ↦ elim (exchange (same_text u.scheme (codes "https")) u.host u.port (request_text u)) [
      | none ↦ ok none
      | some raw ↦ ok (parse_response raw)
    ]
  ]

  -- the loop over the hops: the body that it leaves, or `none` for a failed request
  unfoldable pub follow : ℕ → Bytes → Bytes → Outcome (Option Bytes)
  unfolding http_get_once is_redirect redirect_target
  follow zero cur body = ok (some body)
  follow (suc hops) cur body = http_get_once cur >>= λ got. elim got [
    | none ↦ ok none
    | some r ↦ elim (is_redirect r) [
      | false ↦ ok (some r.body)
      | true ↦ redirect_target cur r.location >>= λ next. elim next [
        | none ↦ ok (some r.body)
        | some url ↦ follow hops url r.body
      ]
    ]
  ]

  module _ {Cert : Type 0} (d2i_x509 pem_read : Bytes → Option Cert) where
    unfoldable pub fetch_der_cert : Bytes → Outcome (Option Cert)
    fetch_der_cert url = follow max_hops (take 2047 url) [] >>= λ got. elim got [
      | none ↦ ok none
      | some body ↦ ok (read_cert d2i_x509 pem_read body)
    ]
