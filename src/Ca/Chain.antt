-- ===== src/Ca/Chain.antt =====
-- The certificates of c/ca.c: cert_role, short_cn, and ca_main from the handshake to its end. What
-- OpenSSL tells of a certificate is a parameter. The lines for stderr are left out.

use tracep.Base.{
  Bool, List, Option, [], false, if◌then◌else◌, length, ltb, none, not, some, suc, take, true, zero,
  ℕ, ◌&&◌, ◌++◌, ◌+◌, ◌==◌, ◌||◌, ◌∷◌,
}
use tracep.Exec.Line.{pid_text}
use tracep.Memory.{Bytes, cstr}
use tracep.Net.Line.{pad_right}
use tracep.Text.{codes}

-- what is asked of OpenSSL
pub record X509 (X : Type 0) : Type 0 where
  pub check_ca : X → ℕ
  pub issued_itself : X → Bool
  -- the first common name of the subject and of the issuer, in UTF-8
  pub subject : X → Option Bytes
  pub issuer : X → Option Bytes
  -- notAfter, as a date
  pub expires : X → Option Bytes
  pub aia_ca_issuer : X → Option Bytes
  -- X509_cmp(a, b) == 0
  pub same : X → X → Bool
  -- PEM_write_X509, which may fail
  pub pem : X → Option Bytes

unfoldable pub short_cn : Bytes → Bytes
short_cn cn = if ltb 38 (length cn) then take 35 cn ++ codes "..." else take 63 cn

-- into 512 bytes
unfoldable pub name_cn : Option Bytes → Bytes
unfolding cstr
name_cn none = []
name_cn (some utf8) = cstr (take 511 utf8)

unfoldable pub not_after : Option Bytes → Bytes
not_after none = codes "?"
not_after (some date) = date

unfoldable pub aia_line : Option Bytes → Bytes
aia_line none = []
aia_line (some url) = codes "       AIA    : " ++ (url ++ codes "\n")

-- a line of 70 dashes
unfoldable pub ruler : ℕ → Bytes
ruler zero = codes "\n"
ruler (suc n) = 0xe2 ∷ 0x94 ∷ 0x80 ∷ ruler n

module _ {X : Type 0} (api : X509 X) where
  unfoldable pub cert_role : X → ℕ → Bytes
  cert_role c idx =
      let is_ca = api.check_ca c == 1 in
      if idx == 0 && not is_ca
      then codes "leaf"
      else if is_ca && api.issued_itself c
      then codes "root CA"
      else if is_ca
      then codes "intermediate CA"
      else codes "unknown"

  -- the leaf, and the chain without a copy of it in front
  unfoldable pub gathered : Option X → List X → List X
  gathered none chain = chain
  gathered (some leaf) [] = leaf ∷ []
  gathered (some leaf) (c ∷ chain) = leaf ∷ (if api.same c leaf then chain else c ∷ chain)

  -- what is printed of the certificate with index `i`
  unfoldable pub cert_lines : ℕ → X → Bytes
  unfolding cert_role short_cn name_cn not_after pad_right pid_text aia_line
  cert_lines i c =
      codes "  ["
      ++ (pid_text i
          ++ (codes "] "
              ++ (pad_right 16 (cert_role c i)
                  ++ (codes " CN="
                      ++ (pad_right 40 (short_cn (name_cn (api.subject c)))
                          ++ (codes " IsCA="
                              ++ ((if api.check_ca c == 1 then codes "true" else codes "false")
                                  ++ (codes "\n       Issuer : "
                                      ++ (short_cn (name_cn (api.issuer c))
                                          ++ (codes "\n       Expires: "
                                              ++ (not_after (api.expires c)
                                                  ++ (codes "\n"
                                                      ++ (aia_line (api.aia_ca_issuer c)
                                                          ++ codes "\n")))))))))))))

  unfoldable pub all_lines : ℕ → List X → Bytes
  unfolding cert_lines
  all_lines i [] = []
  all_lines i (c ∷ certs) = cert_lines i c ++ all_lines (i + 1) certs

  -- the certificates to save, from the index `i` on
  unfoldable pub saved_from : Bool → ℕ → List X → List X
  saved_from all i [] = []
  saved_from all i (c ∷ certs) =
      let rest = saved_from all (i + 1) certs in
      if all || (ltb 0 i || api.check_ca c == 1) then c ∷ rest else rest

  -- the loop over PEM_write_X509: what is written, how many, and whether it came to its end
  unfoldable pub write_pems : List X → Bytes × ℕ × Bool
  write_pems [] = ([], 0, true)
  write_pems (c ∷ certs) = elim (api.pem c) [
    | none ↦ ([], 0, false)
    | some text ↦ (let (out, n, done) = write_pems certs in (text ++ out, n + 1, done))
  ]
