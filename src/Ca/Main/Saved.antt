-- ===== src/Ca/Main/Saved.antt =====
-- What c/ca.c saves of the certificates that a server presents.
use tracep.Base.{
  Bool, Bool-cases, List, Option, [], ap, arith, false, inl, inr, length, ltb, refl, some, suc,
  true, ℕ, ◌++◌, ◌+◌, ◌<◌, ◌==◌, ◌∷◌, ◌≡◌, ◌≢◌, ◌⊎◌,
}
use tracep.Ca.Chain.{X509, gathered, saved_from, write_pems}
use tracep.Ca.Flags.{Flags, ca_options, connect}
use tracep.Ca.Main.{
  ca_main, connecting, last_of, list_of, out_path, report, report_table, root_of, saved_lines,
  write_out,
}
use tracep.Memory.{Bytes, Outcome, ok, ◌>>=◌}
use tracep.Text.{codes, same_text, same_text_iff}

-- The leaf, and the chain behind it: a server may repeat the leaf in front of the chain.
abbrev pub Differs {ℓ} : {A : Type ℓ} → (A → A → Bool) → A → List A → Type 0
Differs same a [] = Unit
Differs same a (b ∷ rest) = same b a ≡ false

module _ {X : Type 0} (api : X509 X) where
  abbrev pub Presents : X → List X → List X → Type 0
  Presents leaf chain rest =
      ((chain ≡ leaf ∷ rest) × (api.same leaf leaf ≡ true))
      ⊎ ((chain ≡ rest) × Differs api.same leaf rest)

  gathered-Presents :
      (leaf : X) (chain rest : List X)
      → Presents leaf chain rest
      → gathered api (some leaf) chain ≡ leaf ∷ rest
  unfolding gathered
  gathered-Presents leaf chain rest (inl (e, same)) = rw (e, same) refl
  gathered-Presents leaf chain [] (inr (e, other)) = rw e refl
  gathered-Presents leaf chain (c ∷ rest) (inr (e, other)) = rw (e, other) refl

  saved_from-behind : (i : ℕ) (certs : List X) → saved_from api false (suc i) certs ≡ certs
  unfolding saved_from
  saved_from-behind i [] = refl
  saved_from-behind i (c ∷ certs) =
      let more : ltb 0 (suc i) ≡ true = ground arith in
      let next : suc i + 1 ≡ suc (suc i) = omega arith in
      rw (more, next, saved_from-behind (suc i) certs) refl

  saved_from-leaf :
      (leaf : X) (rest : List X)
      → api.check_ca leaf ≢ 1
      → saved_from api false 0 (leaf ∷ rest) ≡ rest
  unfolding saved_from
  saved_from-leaf leaf rest no_ca =
      let other : (api.check_ca leaf == 1) ≡ false = ground (arith, no_ca) in
      rw other (saved_from-behind 0 rest)

  -- The certificates as they are written.
  abbrev pub texts_of : (X → Bytes) → List X → Bytes
  texts_of text [] = []
  texts_of text (c ∷ certs) = text c ++ texts_of text certs

  write_pems-texts :
      (text : X → Bytes) (certs : List X)
      → ((c : X) → api.pem c ≡ some (text c))
      → write_pems api certs ≡ (texts_of text certs, length certs, true)
  unfolding write_pems
  write_pems-texts text [] h = refl
  write_pems-texts text (c ∷ certs) h =
      rw (h c, write_pems, write_pems-texts text certs h)
        (ap (λ n. (texts_of text (c ∷ certs), n, true)) (omega arith))

  module _ (fetch : Bytes → Outcome (Option X)) (opens : Bytes → Bool) (text : X → Bytes)
      (writes : (c : X) → api.pem c ≡ some (text c)) where
    write_out-file :
        (path : Bytes) (saved : List X) (printed : Bytes)
        → path ≢ codes "-"
        → opens path ≡ true
        → write_out api fetch opens path saved printed ≡ record {
          exit_code = 0;
          stdout = printed ++ saved_lines (length saved) path;
          file = some (path, texts_of text saved);
        }
    unfolding write_out
    write_out-file path saved printed named can =
        let other : same_text path (codes "-") ≡ false =
          elim (Bool-cases (same_text path (codes "-"))) [
            | inl e ↦ absurd (named ((same_text_iff path (codes "-")).0 e))
            | inr e ↦ e
          ] in
        rw (other, write_out, can, write_pems-texts text saved writes) refl

    report-file :
        (f : Flags) (host : Bytes) (leaf : X) (rest : List X) (anchor : Option X)
        (lines printed : Bytes)
        → f.all ≡ false
        → api.check_ca leaf ≢ 1
        → root_of api fetch opens f.fetch_root (last_of leaf rest) ≡ ok (anchor, lines)
        → 0 < length (rest ++ list_of anchor)
        → out_path f.output host ≢ codes "-"
        → opens (out_path f.output host) ≡ true
        → report api fetch opens f host (leaf ∷ rest) printed
          ≡ ok (record {
            exit_code = 0;
            stdout =
                report_table api fetch opens (leaf ∷ rest) printed lines
                ++ saved_lines (length (rest ++ list_of anchor)) (out_path f.output host);
            file = some (out_path f.output host, texts_of text (rest ++ list_of anchor));
          })
    unfolding report
    report-file f host leaf rest anchor lines printed some_only no_ca got filled named can =
        let some_saved : (length (rest ++ list_of anchor) == 0) ≡ false = ground (arith, filled) in
        rw (got, report, ◌>>=◌, some_only, saved_from-leaf leaf rest no_ca, some_saved)
          (ap ok (
            write_out-file (out_path f.output host) (rest ++ list_of anchor)
              (report_table api fetch opens (leaf ∷ rest) printed lines) named can))

    module _ (handshake : Bytes → ℕ → ℕ → Bool → Option (Option X × List X)) where
      -- Where every certificate can be written, and a run without -all connects and is shown a leaf
      -- that is no CA, with the rest of the chain behind it, whether the chain repeats the leaf or
      -- not, and the file can be opened: if there is something to save, ca_main ends with the code
      -- 0, its file holds the rest of the chain and the root that -fetch-root has got, in this
      -- order, and its last lines tell how many they are.
      pub ca_main-saved :
          (args : List Bytes) (host : Bytes) (f : Flags) (leaf : X) (chain rest : List X)
          (anchor : Option X) (lines : Bytes)
          → ca_options args ≡ some (connect host f)
          → f.all ≡ false
          → handshake host f.port f.timeout f.insecure ≡ some (some leaf, chain)
          → Presents leaf chain rest
          → api.check_ca leaf ≢ 1
          → root_of api fetch opens f.fetch_root (last_of leaf rest) ≡ ok (anchor, lines)
          → 0 < length (rest ++ list_of anchor)
          → out_path f.output host ≢ codes "-"
          → opens (out_path f.output host) ≡ true
          → ca_main api fetch opens handshake args
            ≡ ok (record {
              exit_code = 0;
              stdout =
                  report_table api fetch opens
                    (leaf ∷ rest)
                    (connecting api fetch opens handshake host f.port)
                    lines
                  ++ saved_lines (length (rest ++ list_of anchor)) (out_path f.output host);
              file = some (out_path f.output host, texts_of text (rest ++ list_of anchor));
            })
      unfolding ca_main
      ca_main-saved args host f leaf chain rest anchor lines parsed some_only shaken presents no_ca
            got filled named can =
          rw (parsed, ca_main, shaken, gathered-Presents leaf chain rest presents)
            (report-file f host leaf rest anchor lines
              (connecting api fetch opens handshake host f.port) some_only no_ca got filled named
              can)
