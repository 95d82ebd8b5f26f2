-- ===== src/Dns/Name/Rounds.antt =====
-- The rounds of the loop of read_name in c/dns.c. A round ends the loop or moves to an offset that
-- depends on the last offset alone.
use tracep.Base.{
  Option, ap, arith, inl, inr, length, none, pigeonhole, refl, some, suc, sym, zero, ℕ, ◌+◌, ◌-◌,
  ◌<◌, ◌∙◌, ◌≡◌, ◌≢◌, ◌≤◌, ◌⊎◌,
}
use tracep.Dns.Name.{Hop, bad, finish, first_jump, hop, jump, label, put_label, read_loop}
use tracep.Dns.Name.Safety.{Fits, hop_within, put_label_within}
use tracep.Memory.{Bytes, Outcome, bind-congr, bind-ne-spin, fault, ok, spin}

-- The offset that follows, or none where the loop ends.
target : ℕ → Outcome Hop → Option ℕ
target off (ok (jump t)) = some t
target off (ok (label l)) = some (off + 1 + l)
target off _ = none

module _ (d : Bytes) (len : ℕ) where
  next_offset : ℕ → Option ℕ
  unfolding target
  next_offset off = target off (hop d len off)

  -- The loop that starts at `off` ends in round `n`, counted from 0.
  abbrev EndsIn : ℕ → ℕ → Type 0
  EndsIn zero off = next_offset off ≡ none
  EndsIn (suc n) off = (o : ℕ) × (next_offset off ≡ some o) × EndsIn n o

  next_offset-lt : (off o : ℕ) → next_offset off ≡ some o → off < len
  unfolding next_offset hop
  next_offset-lt off o e = ground arith

  EndsIn-unique : (n m off : ℕ) → EndsIn n off → EndsIn m off → n ≡ m
  EndsIn-unique zero zero off a b = refl
  EndsIn-unique zero (suc m) off a (o, e, b) = cc
  EndsIn-unique (suc n) zero off (o, e, a) b = cc
  EndsIn-unique (suc n) (suc m) off (o, e, a) (o', e', b) =
      let same : o ≡ o' = cc in ap suc (EndsIn-unique n m o a (rw same b))

  -- the offset at which round `k` starts
  visit : ℕ → ℕ → ℕ
  visit zero off = off
  visit (suc k) off = elim (next_offset off) [ none ↦ off | some o ↦ visit k o ]

  visit-EndsIn : (k n r off : ℕ) → n ≡ k + r → EndsIn n off → EndsIn r (visit k off)
  unfolding visit
  visit-EndsIn zero n r off e h = let e' : n ≡ r = omega arith in rw e' at h
  visit-EndsIn (suc k) zero r off e h = absurd (omega arith)
  visit-EndsIn (suc k) (suc n) r off e (o, next, h) =
      rw (next, visit) (visit-EndsIn k n r o (omega arith) h)

  visit-lt : (k n off : ℕ) → EndsIn n off → k < n → visit k off < len
  visit-lt k n off h lt =
      let (o, next, _) = visit-EndsIn k n (suc (n - k - 1)) off (omega arith) h in
      next_offset-lt (visit k off) o next

  visit_inj : (j k n off : ℕ) → EndsIn n off → j < n → k < n → visit j off ≡ visit k off → j ≡ k
  visit_inj j k n off h hj hk e =
      let at_j = visit-EndsIn j n (n - j) off (omega arith) h in
      let at_k = visit-EndsIn k n (n - k) off (omega arith) h in
      omega (arith, EndsIn-unique (n - j) (n - k) (visit j off) at_j (rw e at_k))

  -- A loop that ends has gone through each offset once at most.
  EndsIn-le : (n off : ℕ) → EndsIn n off → n ≤ len
  EndsIn-le n off h =
      pigeonhole n len (λ k. visit k off) (λ k lt. visit-lt k n off h lt)
        (λ j k hj hk e. visit_inj j k n off h hj hk e)

Outcome-cases {ℓ} : {A : Type ℓ} (o : Outcome A) → (o ≡ spin) ⊎ (o ≢ spin)
Outcome-cases (ok a) = inr (λ e. cc)
Outcome-cases fault = inr (λ e. cc)
Outcome-cases spin = inl refl

module _ (d : Bytes) (len size : ℕ) where
  EndsIn-next :
      (n off t : ℕ)
      → EndsIn d len n off
      → next_offset d len off ≡ some t
      → (m : ℕ) × (n ≡ suc m) × EndsIn d len m t
  EndsIn-next zero off t h e = cc
  EndsIn-next (suc n) off t (o, e', h) e = let same : o ≡ t = cc in (n, refl, rw same at h)

  -- Rounds behind the last one change nothing.
  read_loop-EndsIn :
      (n f g off : ℕ) (orig : Option ℕ) (dst : Option Bytes)
      → EndsIn d len n off
      → n < f
      → n < g
      → read_loop f d len size off orig dst ≡ read_loop g d len size off orig dst
  unfolding read_loop next_offset
  read_loop-EndsIn n (suc f) (suc g) off orig dst h hf hg = bind-congr (hop d len off) _ _ (elim [
    | bad ↦ λ e. refl
    | finish ↦ λ e. refl
    | jump t ↦ λ e.
        let (m, eq, h') = EndsIn-next n off t h (ap (target off) e) in
        read_loop-EndsIn m f g t (first_jump orig (off + 2)) dst h' (omega arith) (omega arith)
    | label l ↦ λ e.
        let (m, eq, h') = EndsIn-next n off (off + 1 + l) h (ap (target off) e) in
        bind-congr (put_label d size (off + 1) l dst) _ _
          (λ dst' _. read_loop-EndsIn m f g (off + 1 + l) orig dst' h' (omega arith) (omega arith))
  ])
  read_loop-EndsIn n zero g off orig dst h hf hg = elim hf [ ]
  read_loop-EndsIn n (suc f) zero off orig dst h hf hg = elim hg [ ]

  -- A loop that is not left spinning ends in one of its rounds.
  EndsIn-of_ne_spin :
      (f off : ℕ) (orig : Option ℕ) (dst : Option Bytes)
      → len ≤ length d
      → Fits size dst
      → read_loop f d len size off orig dst ≢ spin
      → (n : ℕ) × EndsIn d len n off × (n < f)
  unfolding read_loop next_offset
  EndsIn-of_ne_spin zero off orig dst inside fits ne = absurd (ne refl)
  EndsIn-of_ne_spin (suc f) off orig dst inside fits ne =
      bind-ne-spin (hop d len off) _ (λ e. (0, ap (target off) e, omega arith))
        (elim [
          | bad ↦ λ e ne'. (0, ap (target off) e, omega arith)
          | finish ↦ λ e ne'. (0, ap (target off) e, omega arith)
          | jump t ↦ λ e ne'.
              let (n, h, lt) =
                EndsIn-of_ne_spin f t (first_jump orig (off + 2)) dst inside fits ne' in
              (suc n, (t, ap (target off) e, h), omega arith)
          | label l ↦ λ e ne'.
              let inside' : off + 1 + l ≤ len = rw e at (hop_within d len off inside) in
              let put = put_label_within d size (off + 1) l dst (omega arith) fits in
              bind-ne-spin (put_label d size (off + 1) l dst) _ (λ e'. elim (rw e' at put) [ ])
                (λ dst' e' ne''.
                  let (n, h, lt) =
                    EndsIn-of_ne_spin f (off + 1 + l) orig dst' inside (rw e' at put) ne'' in
                  (suc n, (off + 1 + l, ap (target off) e, h), omega arith))
                ne'
        ])
        ne

  -- Where the buffer has at least `len` bytes and what is in `dst` leaves room for its NUL, `len +
  -- 1` rounds decide how the loop of read_name ends, and whether it ends at all: any larger number
  -- of rounds has the same outcome.
  pub read_loop-rounds :
      (f off : ℕ) (orig : Option ℕ) (dst : Option Bytes)
      → len ≤ length d
      → Fits size dst
      → len + 1 ≤ f
      → read_loop f d len size off orig dst ≡ read_loop (len + 1) d len size off orig dst
  read_loop-rounds f off orig dst inside fits le =
      elim (Outcome-cases (read_loop f d len size off orig dst)) [
        | inr ends ↦ settle (EndsIn-of_ne_spin f off orig dst inside fits ends)
        | inl spins ↦ elim (Outcome-cases (read_loop (len + 1) d len size off orig dst)) [
          | inl spins' ↦ spins ∙ sym spins'
          | inr ends ↦ settle (EndsIn-of_ne_spin (len + 1) off orig dst inside fits ends)
        ]
      ]
    where
      settle :
          {g : ℕ}
          → (n : ℕ) × EndsIn d len n off × (n < g)
          → read_loop f d len size off orig dst ≡ read_loop (len + 1) d len size off orig dst
      settle (n, h, _) =
          let le' = EndsIn-le d len n off h in
          read_loop-EndsIn n f (len + 1) off orig dst h (omega arith) (omega arith)
