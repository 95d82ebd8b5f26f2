-- ===== src/Net/Line/Keys.antt =====
-- The keys under which c/net.c keeps its connections: tuple_key.
use mathlib.Core.Path.{ap₂, subst}
use tracep.Base.{
  All, All-append, All-map, [], arith, inl, inr, length, length-append, refl, sym, take_all, ℕ,
  ◌++◌, ◌<◌, ◌^◌, ◌∙◌, ◌∷◌, ◌≡◌, ◌≢◌, ◌≤◌,
}
use tracep.Memory.{Bytes}
use tracep.Net.Attrs.{ConnTuple}
use tracep.Net.Attrs.Tuple.{IsAddress}
use tracep.Net.Line.{end_text, ip_str, tuple_key}
use tracep.Text.{decimal}
use tracep.Text.Decimal.{IsDigit, decimal_digits, decimal_injective, length-decimal}

-- what is relied on of inet_ntop: texts of at most 45 characters with no bar, another one for another
-- address
pub record Prints (inet_ntop : Bytes → Bytes) : Type 0 where
  pub plain : (ip : Bytes) → All (λ c. c ≢ b'|') (inet_ntop ip)
  pub short : (ip : Bytes) → length (inet_ntop ip) ≤ 45
  pub injective : (a b : Bytes) → IsAddress a → IsAddress b → inet_ntop a ≡ inet_ntop b → a ≡ b

-- what the fields of a tuple can hold
pub record IsTuple (t : ConnTuple) : Type 0 where
  pub src : IsAddress t.src_ip
  pub dst : IsAddress t.dst_ip
  pub src_port : t.src_port < 2 ^ 16
  pub dst_port : t.dst_port < 2 ^ 16
  pub proto : t.proto < 2 ^ 8

-- The texts are cut at the first separator, and at the last.
cut_first :
    (sep : ℕ) (a b x y : Bytes)
    → All (λ c. c ≢ sep) a
    → All (λ c. c ≢ sep) b
    → a ++ sep ∷ x ≡ b ++ sep ∷ y
    → (a ≡ b) × (x ≡ y)
cut_first sep [] [] x y h k e = (refl, cc)
cut_first sep [] (q ∷ b) x y h k e = absurd (k.0 (cc))
cut_first sep (p ∷ a) [] x y h k e = absurd (h.0 (cc))
cut_first sep (p ∷ a) (q ∷ b) x y h k e =
    let rest : a ++ sep ∷ x ≡ b ++ sep ∷ y = cc in
    let (e', e'') = cut_first sep a b x y h.1 k.1 rest in
    let head : p ≡ q = cc in (ap₂ ◌∷◌ head e', e'')

not_within : (sep : ℕ) (b y : Bytes) → ¬ All (λ c. c ≢ sep) (b ++ sep ∷ y)
not_within sep [] y h = h.0 refl
not_within sep (q ∷ b) y h = not_within sep b y h.1

pub cut_last :
    (sep : ℕ) (a b x y : Bytes)
    → All (λ c. c ≢ sep) x
    → All (λ c. c ≢ sep) y
    → a ++ sep ∷ x ≡ b ++ sep ∷ y
    → (a ≡ b) × (x ≡ y)
cut_last sep [] [] x y h k e = (refl, cc)
cut_last sep [] (q ∷ b) x y h k e =
    let rest : x ≡ b ++ sep ∷ y = cc in
    absurd (not_within sep b y (subst (All (λ c. c ≢ sep)) rest h))
cut_last sep (p ∷ a) [] x y h k e =
    let rest : a ++ sep ∷ x ≡ y = cc in
    absurd (not_within sep a x (subst (All (λ c. c ≢ sep)) (sym rest) k))
cut_last sep (p ∷ a) (q ∷ b) x y h k e =
    let rest : a ++ sep ∷ x ≡ b ++ sep ∷ y = cc in
    let (e', e'') = cut_last sep a b x y h k rest in let head : p ≡ q = cc in (ap₂ ◌∷◌ head e', e'')

pub no_colon : (n : ℕ) → All (λ c. c ≢ b':') (decimal n)
no_colon n =
    All-map IsDigit (λ c. c ≢ b':') (decimal n) (λ c h e. omega (arith, e)) (decimal_digits n)

no_bar : (n : ℕ) → All (λ c. c ≢ b'|') (decimal n)
no_bar n =
    All-map IsDigit (λ c. c ≢ b'|') (decimal n) (λ c h e. omega (arith, e)) (decimal_digits n)

module _ (inet_ntop : Bytes → Bytes) (prints : Prints inet_ntop) where
  ip_str_address : (a : Bytes) → IsAddress a → ip_str inet_ntop a ≡ inet_ntop a
  unfolding ip_str
  ip_str_address a (inl e) = rw e refl
  ip_str_address a (inr e) = rw e refl

  -- the text of an end, with its address
  whole_end :
      (ip : Bytes) (port : ℕ)
      → IsAddress ip
      → end_text inet_ntop ip port ≡ inet_ntop ip ++ b':' ∷ decimal port
  unfolding end_text
  whole_end ip port h = rw (ip_str_address ip h) refl

  end_text_plain :
      (ip : Bytes) (port : ℕ) → IsAddress ip → All (λ c. c ≢ b'|') (end_text inet_ntop ip port)
  end_text_plain ip port h = rw (whole_end ip port h) (
      All-append (λ c. c ≢ b'|') (inet_ntop ip) (b':' ∷ decimal port) (prints.plain ip)
        (omega arith, no_bar port))

  end_text_short :
      (ip : Bytes) (port : ℕ)
      → IsAddress ip
      → port < 2 ^ 16
      → length (end_text inet_ntop ip port) ≤ 51
  end_text_short ip port h lt = rw (whole_end ip port h) (
      omega (
        arith,
        length-append (inet_ntop ip) (b':' ∷ decimal port),
        length-decimal port 4 (omega arith),
        prints.short ip,
      ))

  end_text_injective :
      (a b : Bytes) (p q : ℕ)
      → IsAddress a
      → IsAddress b
      → end_text inet_ntop a p ≡ end_text inet_ntop b q
      → (a ≡ b) × (p ≡ q)
  end_text_injective a b p q ha hb e =
      let e' = sym (whole_end a p ha) ∙ (e ∙ whole_end b q hb) in
      let (ips, ports) =
        cut_last b':' (inet_ntop a) (inet_ntop b) (decimal p) (decimal q) (no_colon p) (no_colon q)
          e' in
      (prints.injective a b ha hb ips, decimal_injective p q ports)

  -- the key before snprintf cuts it, which it does not
  abbrev whole_key : ConnTuple → Bytes
  whole_key t =
      end_text inet_ntop t.src_ip t.src_port
      ++ (b'|' ∷ end_text inet_ntop t.dst_ip t.dst_port ++ (b'|' ∷ decimal t.proto))

  tuple_key_whole : (t : ConnTuple) → IsTuple t → tuple_key inet_ntop t ≡ whole_key t
  unfolding tuple_key
  tuple_key_whole t h = take_all 159 (whole_key t) (
      omega (
        arith,
        length-append (end_text inet_ntop t.src_ip t.src_port)
            (b'|' ∷ end_text inet_ntop t.dst_ip t.dst_port ++ (b'|' ∷ decimal t.proto)),
        length-append (b'|' ∷ end_text inet_ntop t.dst_ip t.dst_port) (b'|' ∷ decimal t.proto),
        end_text_short t.src_ip t.src_port h.src h.src_port,
        end_text_short t.dst_ip t.dst_port h.dst h.dst_port,
        length-decimal t.proto 2 (omega (arith, h.proto)),
      ))

  tuple_key_injective :
      (t u : ConnTuple)
      → IsTuple t
      → IsTuple u
      → tuple_key inet_ntop t ≡ tuple_key inet_ntop u
      → t ≡ u
  tuple_key_injective t u ht hu e =
      let e' = sym (tuple_key_whole t ht) ∙ (e ∙ tuple_key_whole u hu) in
      let (srcs, rest) =
        cut_first b'|' (end_text inet_ntop t.src_ip t.src_port)
          (end_text inet_ntop u.src_ip u.src_port) _ _ (end_text_plain t.src_ip t.src_port ht.src)
          (end_text_plain u.src_ip u.src_port hu.src) e' in
      let (dsts, protos) =
        cut_first b'|' (end_text inet_ntop t.dst_ip t.dst_port)
          (end_text inet_ntop u.dst_ip u.dst_port) _ _ (end_text_plain t.dst_ip t.dst_port ht.dst)
          (end_text_plain u.dst_ip u.dst_port hu.dst) rest in
      let src = end_text_injective t.src_ip u.src_ip t.src_port u.src_port ht.src hu.src srcs in
      let dst = end_text_injective t.dst_ip u.dst_ip t.dst_port u.dst_port ht.dst hu.dst dsts in
      let proto = decimal_injective t.proto u.proto protos in ground (arith, src, dst, proto)

  -- Where inet_ntop gives different addresses different texts, with no bar and at most 45
  -- characters, tuple_key gives two different connections different keys, if their addresses have 4
  -- or 16 bytes, their ports 16 bits and their protocols 8.
  pub tuple_key-ne :
      (t u : ConnTuple)
      → IsTuple t
      → IsTuple u
      → t ≢ u
      → tuple_key inet_ntop t ≢ tuple_key inet_ntop u
  tuple_key-ne t u ht hu ne e = ne (tuple_key_injective t u ht hu e)
