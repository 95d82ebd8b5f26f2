-- ===== src/Ca/Url/Overflow.antt =====
-- Where url_split of c/ca.c writes past its buffers.
use mathlib.Core.Option
use mathlib.Core.List.{append-nil}
use tracep.Base.{
  All, All-map, Bool-cases, Option-cases, [], ap, arith, false, if◌then◌else◌, inl, inr, length,
  ltb, ltb→ge, ltb→lt, none, refl, some, tests, true, ℕ, ◌++◌, ◌<◌, ◌==◌, ◌↔◌, ◌∙◌, ◌∷◌, ◌≡◌, ◌≢◌,
  ◌≤◌, ◌⊎◌,
}
use tracep.Ca.Cuts.{map_nothing, map_twice, onto}
use tracep.Ca.Url.{
  copy_text, default_port, host_and_path, host_and_port, host_room, is_http, path_room, scheme_room,
  split_rest, url_split,
}
use tracep.Memory.{Bytes, fault, ok, ◌>>=◌}
use tracep.Net.Lsof.{cut_text}
use tracep.Text.{codes, same_text, same_text_iff}
use tracep.Text.Hex.{cut_at}
use tracep.Tls.Events.{behind}

pub cut_text-scheme :
    (s h : Bytes)
    → All (λ c. c ≢ b':') s
    → cut_text (codes "://") (s ++ (codes "://" ++ h)) ≡ some (s, h)
unfolding cut_text
cut_text-scheme [] h k = refl
cut_text-scheme (x ∷ s) h k =
    let other : (b':' == x) ≡ false = ground (arith, k.0) in
    rw (cut_text, behind, other, cut_text-scheme s h k.1) refl

cut_at_step :
    (c x : ℕ) (s : Bytes) → x ≢ c → cut_at c (x ∷ s) ≡ Option.map (onto (x ∷ [])) (cut_at c s)
unfolding cut_at
cut_at_step c x s h = let other : (x == c) ≡ false = ground (arith, h) in rw (other, cut_at) refl

pub cut_at-append :
    (c : ℕ) (a s : Bytes)
    → All (λ x. x ≢ c) a
    → cut_at c (a ++ s) ≡ Option.map (onto a) (cut_at c s)
cut_at-append c [] s h = map_nothing (cut_at c s)
cut_at-append c (x ∷ a) s h =
    cut_at_step c x (a ++ s) h.0
    ∙ (ap (Option.map (onto (x ∷ []))) (cut_at-append c a s h.1) ∙ map_twice x a (cut_at c s))

-- The text of a host, and what may follow it: nothing, a port, or a path.
abbrev pub IsHost : Bytes → Type 0
IsHost host = All (λ c. (c ≢ b':') × (c ≢ b'/')) host

abbrev pub EndsHost : Bytes → Type 0
EndsHost [] = Unit
EndsHost (c ∷ s) = (c ≡ b':') ⊎ (c ≡ b'/')

pub IsHost-colon : (s : Bytes) → IsHost s → All (λ c. c ≢ b':') s
IsHost-colon s h = All-map _ (λ c. c ≢ b':') s (λ c h. h.0) h

pub IsHost-slash : (s : Bytes) → IsHost s → All (λ c. c ≢ b'/') s
IsHost-slash s h = All-map _ (λ c. c ≢ b'/') s (λ c h. h.1) h

module _ (host : Bytes) (plain : IsHost host) where
  host_of_port : (s slash : Bytes) (d : ℕ) → (host_and_port (host ++ b':' ∷ s) slash d).0 ≡ host
  unfolding host_and_port cut_at
  host_of_port s slash d =
      rw (cut_at-append b':' host (b':' ∷ s) (IsHost-colon host plain), host_and_port)
        (append-nil host)

  host_of_nothing : (slash : Bytes) (d : ℕ) → (host_and_port (host ++ []) slash d).0 ≡ host
  unfolding host_and_port cut_at
  host_of_nothing slash d =
      rw (cut_at-append b':' host [] (IsHost-colon host plain), host_and_port) (append-nil host)

  host_of_colon :
      (s : Bytes) (d : ℕ)
      → (let r = host_and_path (host ++ b':' ∷ s) in host_and_port r.0 r.1 d).0 ≡ host
  unfolding host_and_path cut_at
  host_of_colon s d = elim (Option-cases (cut_at b'/' s)) [
    | inl k ↦
        rw (cut_at-append b'/' host (b':' ∷ s) (IsHost-slash host plain), host_and_path, k)
          (host_of_port s [] d)
    | inr (r, k) ↦
        rw (cut_at-append b'/' host (b':' ∷ s) (IsHost-slash host plain), host_and_path, k)
          (host_of_port r.0 (b'/' ∷ r.1) d)
  ]

  host_of_rest :
      (rest : Bytes) (d : ℕ)
      → EndsHost rest
      → (let r = host_and_path (host ++ rest) in host_and_port r.0 r.1 d).0 ≡ host
  unfolding host_and_path cut_at
  host_of_rest [] d e =
      rw (cut_at-append b'/' host [] (IsHost-slash host plain), host_and_path)
        (host_of_nothing [] d)
  host_of_rest (c ∷ s) d (inr e) =
      rw (e, cut_at-append b'/' host (b'/' ∷ s) (IsHost-slash host plain), host_and_path)
        (host_of_nothing (b'/' ∷ s) d)
  host_of_rest (c ∷ s) d (inl e) = rw e (host_of_colon s d)

split_rest-TooLong :
    (scheme host rest : Bytes)
    → IsHost host
    → EndsHost rest
    → (split_rest path_room scheme (host ++ rest) ≡ fault)
      ↔ ((host_room ≤ length host) × (length host < path_room))
unfolding split_rest copy_text
split_rest-TooLong scheme host rest plain ends =
    rw (host_of_rest host plain rest (default_port scheme) ends, split_rest, copy_text)
      (ground arith)

-- The two texts that must fit.
abbrev pub TooLong : Bytes → Bytes → Type 0
TooLong scheme host =
    ((scheme_room ≤ length scheme) × (length scheme < path_room))
    ⊎ ((is_http scheme ≡ true) × (host_room ≤ length host) × (length host < path_room))

-- url_split on a text that has the separator.
pub url_split-parts :
    (cap : ℕ) (scheme h : Bytes)
    → All (λ c. c ≢ b':') scheme
    → url_split cap (scheme ++ (codes "://" ++ h)) ≡ (
        if ltb (length scheme) cap
        then (copy_text scheme_room scheme >>= λ s.
            if is_http s then split_rest cap s h else ok none)
        else ok none)
unfolding url_split
url_split-parts cap scheme h separated = rw (cut_text-scheme scheme h separated, url_split) refl

pub is_http-length : (s : Bytes) → is_http s ≡ true → length s ≤ 5
is_http-length s h = elim (Bool-cases (same_text s (codes "https"))) [
  | inl e ↦ omega (arith, ap length ((same_text_iff s (codes "https")).0 e))
  | inr e ↦
      let e' : same_text s (codes "http") ≡ true = cc in
      omega (arith, ap length ((same_text_iff s (codes "http")).0 e'))
]

-- On a URL with a scheme without a colon, a host without a colon or slash, and behind it nothing, a
-- port or a path, url_split writes past a buffer of its caller exactly if the scheme has 16 up to
-- 1023 characters, or it is http or https and the host has 256 up to 1023.
pub url_split-TooLong :
    (scheme host rest : Bytes)
    → All (λ c. c ≢ b':') scheme
    → IsHost host
    → EndsHost rest
    → (url_split path_room (scheme ++ (codes "://" ++ (host ++ rest))) ≡ fault)
      ↔ TooLong scheme host
unfolding copy_text
url_split-TooLong scheme host rest separated plain ends =
    let lem = split_rest-TooLong scheme host rest plain ends in
    rw (url_split-parts path_room scheme (host ++ rest) separated)
      (elim (Bool-cases (ltb (length scheme) path_room)) [
        | inr long ↦ rw long (
          λ e. cc,
          λ t. elim t [
            | inl s ↦ absurd (omega (tests, s))
            | inr s ↦ absurd (omega (tests, is_http-length scheme s.0))
          ],
        )
        | inl fits ↦ elim (Bool-cases (ltb (length scheme) scheme_room)) [
          | inr wide ↦
              rw (fits, copy_text, wide) (λ e. inl (ltb→ge _ _ wide, ltb→lt _ _ fits), λ t. refl)
          | inl short ↦ elim (Bool-cases (is_http scheme)) [
            | inl http ↦
                rw (fits, copy_text, short, http)
                  (
                    λ e. (let k = lem.0 e in inr (refl, k.0, k.1)),
                    λ t. elim t [ inl s ↦ absurd (omega (tests, s)) | inr s ↦ lem.1 (s.1, s.2) ],
                  )
            | inr other ↦
                rw (fits, copy_text, short, other)
                  (λ e. cc, λ t. elim t [ inl s ↦ absurd (omega (tests, s)) | inr s ↦ cc ])
          ]
        ]
      ])
