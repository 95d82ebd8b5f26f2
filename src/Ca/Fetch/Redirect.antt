-- ===== src/Ca/Fetch/Redirect.antt =====
-- The URL that c/ca.c makes of a Location header without a host.

use mathlib.Core.List.{append-nil}
use mathlib.Core.Path.{subst}
use tracep.Base.{
  All, All-map, Bool-cases, ap, arith, false, inl, inr, length, length-append, ltb, lt→ltb, none,
  refl, some, take, take_all, true, ℕ, ◌++◌, ◌<◌, ◌==◌, ◌^◌, ◌∙◌, ◌∷◌, ◌≡◌, ◌≢◌, ◌≤◌,
}
use tracep.Ca.Fetch.{redirect_target, relative_target}
use tracep.Ca.Url.{
  Url, copy_text, default_port, host_and_path, host_and_port, host_room, is_http, path_room,
  scheme_room, split_rest, url_split,
}
use tracep.Ca.Url.Overflow.{
  IsHost-colon, IsHost-slash, cut_at-append, is_http-length, url_split-parts,
}
use tracep.Ca.Url.Parts.{IsUrl, Yields, url_split-IsUrl}
use tracep.Exec.Line.{pid_text}
use tracep.Memory.{Bytes, ok}
use tracep.Net.Lsof.{cut_text}
use tracep.Net.Lsof.Ends.{atoi-decimal}
use tracep.Text.{codes, decimal, same_text, same_text_iff}
use tracep.Text.Decimal.{IsDigit, decimal_digits, length-decimal}
use tracep.Text.Hex.{cut_at}

is_http-no_colon : (s : Bytes) → is_http s ≡ true → All (λ c. c ≢ b':') s
is_http-no_colon s h = elim (Bool-cases (same_text s (codes "https"))) [
  | inl e ↦ rw ((same_text_iff s (codes "https")).0 e) (omega arith)
  | inr e ↦
      let e' : same_text s (codes "http") ≡ true = cc in
      rw ((same_text_iff s (codes "http")).0 e') (omega arith)
]

port_no_slash : (n : ℕ) → All (λ c. c ≢ b'/') (b':' ∷ decimal n)
port_no_slash n = (
  (λ e. omega (arith, e)),
  All-map IsDigit (λ c. c ≢ b'/') (decimal n) (λ c h e. omega (arith, e)) (decimal_digits n),
)

module _ (u : Url) (is_url : IsUrl u) (lt : u.port < 2 ^ 31) (p : Bytes) where
  abbrev loc : Bytes
  loc = b'/' ∷ p

  abbrev digits : Bytes
  digits = decimal u.port

  path_of_target : host_and_path (u.host ++ (b':' ∷ digits ++ loc)) ≡ (u.host ++ b':' ∷ digits, loc)
  unfolding host_and_path cut_at
  path_of_target =
      rw
        (
          cut_at-append b'/' u.host (b':' ∷ digits ++ loc) (IsHost-slash u.host is_url.host_plain),
          cut_at-append b'/' (b':' ∷ digits) loc (port_no_slash u.port),
          host_and_path,
        )
        (ap (λ h. (u.host ++ b':' ∷ h, loc)) (append-nil digits))

  port_of_target : (d : ℕ) → host_and_port (u.host ++ b':' ∷ digits) loc d ≡ (u.host, u.port)
  unfolding host_and_port cut_at
  port_of_target d =
      rw
        (
          cut_at-append b':' u.host (b':' ∷ digits) (IsHost-colon u.host is_url.host_plain),
          host_and_port,
          atoi-decimal u.port loc refl lt,
        )
        (ap (λ h. (h, u.port)) (append-nil u.host))

  module _ (short : length loc ≤ 1023) where
    abbrev target : Bytes
    target = u.scheme ++ (codes "://" ++ (u.host ++ (b':' ∷ digits ++ loc)))

    split_rest-target :
        split_rest path_room u.scheme (u.host ++ (b':' ∷ digits ++ loc))
        ≡ ok (some (record u { path = loc }))
    unfolding split_rest copy_text
    split_rest-target =
        let fits : ltb (length u.host) path_room ≡ true = ground (arith, is_url.host_short) in
        let kept : ltb (length u.host) host_room ≡ true = ground (arith, is_url.host_short) in
        let some_path : (length loc == 0) ≡ false = ground arith in
        rw
          (
            path_of_target,
            split_rest,
            port_of_target (default_port u.scheme),
            fits,
            copy_text,
            kept,
            some_path,
          )
          (ap (λ q. ok (some (record u { path = q }))) (take_all 1023 loc short))

    target-url_split : url_split path_room target ≡ ok (some (record u { path = loc }))
    unfolding copy_text
    target-url_split =
        let five = is_http-length u.scheme is_url.http in
        let fits : ltb (length u.scheme) path_room ≡ true = ground (arith, five) in
        let kept : ltb (length u.scheme) scheme_room ≡ true = ground (arith, five) in
        url_split-parts path_room u.scheme (u.host ++ (b':' ∷ digits ++ loc))
          (is_http-no_colon u.scheme is_url.http)
        ∙ rw (fits, copy_text, kept, is_url.http) split_rest-target

    target_short : take 2047 target ≡ target
    target_short = take_all 2047 target (
        omega (
          arith,
          short,
          is_http-length u.scheme is_url.http,
          is_url.host_short,
          length-decimal u.port 9 (omega arith),
          length-append u.scheme (codes "://" ++ (u.host ++ (b':' ∷ digits ++ loc))),
          length-append u.host (b':' ∷ digits ++ loc),
          length-append (b':' ∷ digits) loc,
        ))

relative_lem :
    (u : Url) (p : Bytes)
    → u.port < 2 ^ 31
    → relative_target u (b'/' ∷ p)
      ≡ u.scheme ++ (codes "://" ++ (u.host ++ (b':' ∷ decimal u.port ++ b'/' ∷ p)))
unfolding relative_target pid_text
relative_lem u p lt = rw (lt→ltb u.port (2 ^ 31) lt, relative_target, pid_text) refl

redirect_target_relative :
    (cur loc : Bytes) (u : Url)
    → url_split path_room cur ≡ ok (some u)
    → cut_text (codes "://") loc ≡ none
    → redirect_target cur loc ≡ ok (some (take 2047 (relative_target u loc)))
unfolding redirect_target
redirect_target_relative cur loc u split relative = rw (relative, redirect_target, split) refl

-- Where url_split reads the current URL, with a port below 2 ^ 31, a redirect to a path of at most
-- 1023 characters that holds no "://" gives a URL that url_split reads as the same scheme, host and
-- port with that path.
pub redirect_target-url_split :
    (cur : Bytes) (u : Url) (p : Bytes)
    → url_split path_room cur ≡ ok (some u)
    → u.port < 2 ^ 31
    → length p < 1023
    → cut_text (codes "://") (b'/' ∷ p) ≡ none
    → (next : Bytes) × (redirect_target cur (b'/' ∷ p) ≡ ok (some next))
      × (url_split path_room next ≡ ok (some (record u { path = b'/' ∷ p })))
unfolding relative_target
redirect_target-url_split cur u p split lt short relative =
    let is_url : IsUrl u = subst (Yields IsUrl) split (url_split-IsUrl path_room cur) in
    (
      target u is_url lt p (omega arith),
      redirect_target_relative cur (b'/' ∷ p) u split relative
          ∙ (ap (λ t. ok (some (take 2047 t))) (relative_lem u p lt)
              ∙ ap (λ t. ok (some t)) (target_short u is_url lt p (omega arith))),
      target-url_split u is_url lt p (omega arith),
    )
