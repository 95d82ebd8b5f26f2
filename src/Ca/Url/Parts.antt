-- ===== src/Ca/Url/Parts.antt =====
-- What the parts are like that url_split of c/ca.c gives.
use mathlib.Core.Path.{subst}
use tracep.Base.{
  All, All-map, Bool-cases, Option, Option-cases, [], arith, false, inl, inr, length, ltb, none,
  refl, some, sym, true, ℕ, ◌<◌, ◌==◌, ◌∷◌, ◌≡◌, ◌≢◌,
}
use tracep.Ca.Url.{
  Url, copy_text, default_port, host_and_path, host_and_port, host_room, is_http, scheme_room,
  split_rest, url_split,
}
use tracep.Ca.Url.Overflow.{IsHost}
use tracep.Memory.{Bytes, Outcome, ok}
use tracep.Net.Lsof.{cut_text}
use tracep.Text.{codes}
use tracep.Text.Hex.{cut_at}

-- A run that gives something gives what satisfies `P`.
abbrev pub Yields : (Url → Type 0) → Outcome (Option Url) → Type 0
Yields P (ok (some u)) = P u
Yields P _ = Unit

pub record IsUrl (u : Url) : Type 0 where
  pub http : is_http u.scheme ≡ true
  pub host_plain : IsHost u.host
  pub host_short : length u.host < host_room

-- What stands in front of the first `c`, or the whole text.
abbrev front : ℕ → Bytes → Bytes
front c s = elim (cut_at c s) [ none ↦ s | some r ↦ r.0 ]

front_step : (c x : ℕ) (s : Bytes) → (x == c) ≡ false → front c (x ∷ s) ≡ x ∷ front c s
unfolding cut_at
front_step c x s other = elim (Option-cases (cut_at c s)) [
  | inl k ↦ rw (other, front, cut_at, k) refl
  | inr (r, k) ↦ rw (other, front, cut_at, k) refl
]

front_here : (c x : ℕ) (s : Bytes) → (x == c) ≡ true → front c (x ∷ s) ≡ []
unfolding cut_at
front_here c x s same = rw (same, front, cut_at) refl

front-All : (P : ℕ → Type 0) (c : ℕ) (s : Bytes) → All P s → All (λ x. (x ≢ c) × P x) (front c s)
unfolding cut_at
front-All P c [] h = tt
front-All P c (x ∷ s) h = elim (Bool-cases (x == c)) [
  | inl same ↦ subst (All (λ x. (x ≢ c) × P x)) (sym (front_here c x s same)) tt
  | inr other ↦
      subst (All (λ x. (x ≢ c) × P x)) (sym (front_step c x s other))
        (((λ p. ground (arith, other, p)), h.0), front-All P c s h.1)
]

all_any : (s : Bytes) → All (λ x. Unit {0}) s
all_any [] = tt
all_any (x ∷ s) = (tt, all_any s)

path_front : (h : Bytes) → (host_and_path h).0 ≡ front b'/' h
unfolding host_and_path
path_front h = elim (Option-cases (cut_at b'/' h)) [
  | inl k ↦ rw (host_and_path, front, k) refl
  | inr (r, k) ↦ rw (host_and_path, front, k) refl
]

port_front : (h slash : Bytes) (d : ℕ) → (host_and_port h slash d).0 ≡ front b':' h
unfolding host_and_port
port_front h slash d = elim (Option-cases (cut_at b':' h)) [
  | inl k ↦ rw (host_and_port, front, k) refl
  | inr (r, k) ↦ rw (host_and_port, front, k) refl
]

split-IsHost : (h slash : Bytes) (d : ℕ) → IsHost (host_and_port (host_and_path h).0 slash d).0
split-IsHost h slash d =
    let bare = front-All (λ x. Unit) b'/' h (all_any h) in
    rw (port_front (host_and_path h).0 slash d, path_front h)
      (All-map _ (λ c. (c ≢ b':') × (c ≢ b'/')) (front b':' (front b'/' h)) (λ c k. (k.0, k.1.0))
        (front-All _ b':' (front b'/' h) bare))

split_rest-IsUrl :
    (cap : ℕ) (scheme h : Bytes) → is_http scheme ≡ true → Yields IsUrl (split_rest cap scheme h)
unfolding split_rest copy_text
split_rest-IsUrl cap scheme h http =
    let plain' = split-IsHost h (host_and_path h).1 (default_port scheme) in
    ground (arith, plain', http)

pub url_split-IsUrl : (cap : ℕ) (url : Bytes) → Yields IsUrl (url_split cap url)
unfolding url_split copy_text
url_split-IsUrl cap url = elim (Option-cases (cut_text (codes "://") url)) [
  | inl e ↦ rw (e, url_split) tt
  | inr (r, e) ↦ elim (Bool-cases (ltb (length r.0) cap)) [
    | inr long ↦ rw (e, url_split, long) tt
    | inl fits ↦ elim (Bool-cases (ltb (length r.0) scheme_room)) [
      | inr wide ↦ rw (e, url_split, fits, copy_text, wide) tt
      | inl short ↦ elim (Bool-cases (is_http r.0)) [
        | inr other ↦ rw (e, url_split, fits, copy_text, short, other) tt
        | inl http ↦
            rw (e, url_split, fits, copy_text, short, http) (split_rest-IsUrl cap r.0 r.1 http)
      ]
    ]
  ]
]
