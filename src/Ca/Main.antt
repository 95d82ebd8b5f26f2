-- ===== src/Ca/Main.antt =====
-- ca_main of c/ca.c. The handshake, fetch_der_cert's network and whether a file can be opened are
-- parameters; the lines for stderr are left out.
pub mod Saved
use Prim.Native.Char.{code}
use tracep.Base.{
  Bool, List, Option, [], false, if◌then◌else◌, length, none, not, some, take, true, ℕ, ◌++◌, ◌==◌,
  ◌∷◌,
}
use tracep.Ca.Chain.{
  X509, all_lines, gathered, name_cn, not_after, ruler, saved_from, short_cn, write_pems,
}
use tracep.Ca.Flags.{Flags, ca_options, connect, version}
use tracep.Exec.Line.{pid_text}
use tracep.Memory.{Bytes, Outcome, ok, ◌>>=◌}
use tracep.Text.{codes, decimal, same_text}

-- how a run ends: its exit code, its standard output, and the file that it has written
pub record Ending : Type 0 where
  pub exit_code : ℕ
  pub stdout : Bytes
  pub file : Option (Bytes × Bytes)

abbrev pub last_of {ℓ} : {A : Type ℓ} → A → List A → A
last_of a [] = a
last_of a (b ∷ rest) = last_of b rest

abbrev pub list_of {ℓ} : {A : Type ℓ} → Option A → List A
list_of none = []
list_of (some a) = a ∷ []

-- `-o`, or a file named after the host, in 512 bytes
unfoldable pub out_path : Bytes → Bytes → Bytes
out_path output host = if length output == 0 then take 511 (host ++ codes "-ca.pem") else output

unfoldable pub saved_lines : ℕ → Bytes → Bytes
unfolding decimal
saved_lines n path =
    b'\n' ∷ 0xe2 ∷ 0x9c ∷ 0x93 ∷ codes " Saved "
    ++ (decimal n
        ++ (codes " CA certificate(s) "
            ++ (0xe2 ∷ 0x86 ∷ 0x92 ∷ b' ' ∷ path
                ++ (codes "\n  Verified: "
                    ++ (decimal n ++ codes " PEM block(s) readable in output file\n")))))

module _ {X : Type 0} (api : X509 X) (fetch : Bytes → Outcome (Option X))
    (opens : Bytes → Bool) where
  unfoldable pub root_line : Option X → Bytes
  unfolding short_cn name_cn not_after
  root_line none = []
  root_line (some anchor) =
      codes "  Root: CN="
      ++ (short_cn (name_cn (api.subject anchor))
          ++ (codes "  Expires: " ++ (not_after (api.expires anchor) ++ codes "\n")))

  -- the root that -fetch-root adds, and what is printed of it
  unfoldable pub root_of : Bool → X → Outcome (Option X × Bytes)
  unfolding root_line
  root_of false top = ok (none, [])
  root_of true top = elim (api.aia_ca_issuer top) [
    | none ↦ ok (none, [])
    | some url ↦ fetch url >>= λ got.
        ok (got, codes "\nFetching root CA via AIA: " ++ (url ++ (codes "\n" ++ root_line got)))
  ]

  -- from the output destination on
  unfoldable pub write_out : Bytes → List X → Bytes → Ending
  unfolding write_pems same_text saved_lines
  write_out path saved printed =
      let (text, n, done) = write_pems api saved in
      let code : ℕ = if done then 0 else 1 in
      if same_text path (codes "-")
      then record { exit_code = code; stdout = printed ++ text; file = none }
      else if not (opens path)
      then record { exit_code = 1; stdout = printed; file = none }
      else record {
        exit_code = code;
        stdout = if done then printed ++ saved_lines n path else printed;
        file = some (path, text);
      }

  -- what is printed of the chain, and behind it of the root
  unfoldable pub report_table : List X → Bytes → Bytes → Bytes
  unfolding all_lines ruler
  report_table certs printed lines =
      printed
      ++ (codes "Chain received: "
          ++ (decimal (length certs)
              ++ (codes " certificate(s)\n"
                  ++ (ruler 70 ++ (all_lines api 0 certs ++ (ruler 70 ++ lines))))))

  unfoldable pub report : Flags → Bytes → List X → Bytes → Outcome Ending
  report f host [] printed = ok (record { exit_code = 1; stdout = printed; file = none })
  report f host (c ∷ certs) printed = root_of f.fetch_root (last_of c certs) >>= λ r.
      (let saved = saved_from api f.all 0 (c ∷ certs) ++ list_of r.0 in
        let table = report_table (c ∷ certs) printed r.1 in
        if length saved == 0
        then ok (record { exit_code = 1; stdout = table; file = none })
        else ok (write_out (out_path f.output host) saved table))

  -- the host, the port, the timeout and -insecure; the peer's certificate and its chain, or a failure
  module _ (handshake : Bytes → ℕ → ℕ → Bool → Option (Option X × List X)) where
    unfoldable pub connecting : Bytes → ℕ → Bytes
    unfolding pid_text
    connecting host p =
        0xe2 ∷ 0x86 ∷ 0x92 ∷ codes " Connecting to "
        ++ (host ++ b':' ∷ pid_text p ++ b' ' ∷ 0xe2 ∷ 0x80 ∷ 0xa6 ∷ codes "\n\n")

    unfoldable pub ca_main : List Bytes → Outcome Ending
    ca_main args = elim (ca_options args) [
      | none ↦ ok (record { exit_code = 1; stdout = []; file = none })
      | some version ↦
          ok (record { exit_code = 0; stdout = codes "tls-ca-fetch v1.0.0\n"; file = none })
      | some (connect host f) ↦ elim (handshake host f.port f.timeout f.insecure) [
        | none ↦ ok (record { exit_code = 1; stdout = connecting host f.port; file = none })
        | some (peer, chain) ↦ report f host (gathered api peer chain) (connecting host f.port)
      ]
    ]
