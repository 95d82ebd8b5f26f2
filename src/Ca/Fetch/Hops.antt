-- ===== src/Ca/Fetch/Hops.antt =====
-- The redirects that c/ca.c follows.
use mathlib.Core.Path.{subst}
use tracep.Base.{
  Bool, Option, [], arith, false, length, refl, some, suc, sym, take_all, true, zero, ℕ, ◌<◌, ◌∙◌,
  ◌≡◌, ◌≤◌, ◌⊎◌,
}
use tracep.Ca.Fetch.{
  fetch_der_cert, follow, http_get_once, is_redirect, max_hops, read_cert, redirect_target,
}
use tracep.Ca.Response.{Response}
use tracep.Memory.{Bytes, ok, ◌>>=◌}

is_redirect-true :
    (r : Response) → 300 ≤ r.status → r.status < 400 → 0 < length r.location → is_redirect r ≡ true
unfolding is_redirect
is_redirect-true r a b c = ground arith

is_redirect-false :
    (r : Response)
    → ((r.status < 300) ⊎ (400 ≤ r.status) ⊎ (length r.location ≡ 0))
    → is_redirect r ≡ false
unfolding is_redirect
is_redirect-false r h = ground arith

module _ (exchange : Bool → Bytes → ℕ → Bytes → Option Bytes) where
  -- The answer to `cur` is a redirect to `next`.
  pub record Hop (cur next : Bytes) (r : Response) : Type 0 where
    pub got : http_get_once exchange cur ≡ ok (some r)
    pub from_300 : 300 ≤ r.status
    pub below_400 : r.status < 400
    pub has_location : 0 < length r.location
    pub goes : redirect_target cur r.location ≡ ok (some next)

  -- `n` redirects lead from one URL to the other.
  abbrev pub Leads : ℕ → Bytes → Bytes → Type 0
  Leads zero a b = a ≡ b
  Leads (suc n) a b = (m : Bytes) × (r : Response) × Hop a m r × Leads n m b

  -- The answer to `url` is no redirect.
  pub record IsFinal (url : Bytes) (r : Response) : Type 0 where
    pub got : http_get_once exchange url ≡ ok (some r)
    pub other : (r.status < 300) ⊎ (400 ≤ r.status) ⊎ (length r.location ≡ 0)

  follow-Hop :
      (a m : Bytes) (r : Response) (k : ℕ) (body : Bytes)
      → Hop a m r
      → follow exchange (suc k) a body ≡ follow exchange k m r.body
  unfolding follow
  follow-Hop a m r k body h =
      let redirect : is_redirect r ≡ true =
        is_redirect-true r h.from_300 h.below_400 h.has_location in
      rw (h.got, follow, ◌>>=◌, redirect, h.goes) refl

  follow-IsFinal :
      (a : Bytes) (r : Response) (k : ℕ) (body : Bytes)
      → IsFinal a r
      → follow exchange (suc k) a body ≡ ok (some r.body)
  unfolding follow
  follow-IsFinal a r k body h =
      let redirect : is_redirect r ≡ false = is_redirect-false r h.other in
      rw (h.got, follow, ◌>>=◌, redirect) refl

  follow-Leads :
      (n : ℕ) (a b : Bytes) (r : Response) (k : ℕ) (body : Bytes)
      → Leads n a b
      → IsFinal b r
      → n < k
      → follow exchange k a body ≡ ok (some r.body)
  follow-Leads n a b r zero body l f lt = absurd (omega arith)
  follow-Leads zero a b r (suc k) body l f lt = rw l (follow-IsFinal b r k body f)
  follow-Leads (suc n) a b r (suc k) body (m, q, h, l) f lt =
      follow-Hop a m q k body h ∙ follow-Leads n m b r k q.body l f (omega arith)

  follow-Leads_Hop :
      (n : ℕ) (a b c : Bytes) (r : Response) (body : Bytes)
      → Leads n a b
      → Hop b c r
      → follow exchange (suc n) a body ≡ ok (some r.body)
  unfolding follow
  follow-Leads_Hop zero a b c r body l h =
      subst (λ z. follow exchange 1 z body ≡ ok (some r.body)) (sym l) (follow-Hop b c r 0 body h)
  follow-Leads_Hop (suc n) a b c r body (m, q, k, l) h =
      follow-Hop a m q (suc n) body k ∙ follow-Leads_Hop n m b c r q.body l h

  module _ {Cert : Type 0} (d2i_x509 pem_read : Bytes → Option Cert) where
    -- If up to 9 redirects lead from a URL of at most 2047 characters to one whose answer is no
    -- redirect, fetch_der_cert ends and reads the certificate from the body of that answer.
    pub fetch_der_cert-Leads :
        (n : ℕ) (url last : Bytes) (r : Response)
        → length url ≤ 2047
        → Leads n url last
        → IsFinal last r
        → n < 10
        → fetch_der_cert exchange d2i_x509 pem_read url ≡ ok (read_cert d2i_x509 pem_read r.body)
    unfolding fetch_der_cert
    fetch_der_cert-Leads n url last r short leads final lt =
        rw
          (
            take_all 2047 url short,
            fetch_der_cert,
            follow-Leads n url last r max_hops [] leads final lt,
          )
          refl

    -- If 9 redirects lead from a URL of at most 2047 characters to one whose answer is a redirect
    -- again, fetch_der_cert reads the certificate from the body of that tenth redirect, whatever
    -- its target answers.
    pub fetch_der_cert-tenth :
        (url a b : Bytes) (r : Response)
        → length url ≤ 2047
        → Leads 9 url a
        → Hop a b r
        → fetch_der_cert exchange d2i_x509 pem_read url ≡ ok (read_cert d2i_x509 pem_read r.body)
    unfolding fetch_der_cert
    fetch_der_cert-tenth url a b r short leads last_hop =
        rw (take_all 2047 url short, fetch_der_cert, follow-Leads_Hop 9 url a b r [] leads last_hop)
          refl
