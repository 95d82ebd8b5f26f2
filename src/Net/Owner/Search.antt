-- ===== src/Net/Owner/Search.antt =====
-- find_inode_with_dir of c/net.c against the entries of the files.
use tracep.Base.{
  ==_iff, All, All-append, All-map, Bool-cases, List, Option, Option-cases, [], arith,
  if◌then◌else◌, inl, inr, none, refl, some, true, ℕ, ◌++◌, ◌==◌, ◌↔◌, ◌∷◌, ◌≡◌, ◌≢◌, ◌⊎◌,
}
use tracep.Dns.Packet.{udp}
use tracep.Memory.{Bytes}
use tracep.Net.Attrs.{ConnTuple}
use tracep.Net.Owner.{
  Direction, ProcEntry, SocketFiles, find_inode_with_dir, first_match, inbound, is_between,
  is_local_end, match_file, match_files, matched, matched_local, outbound, read_proc_net_file,
  unknown,
}
use tracep.Text.{same_text_iff}

-- The entry is of the end `ip`, `port`, and of its peer.
abbrev pub Local : ProcEntry → Bytes → ℕ → Type 0
Local e ip port = (e.local_ip ≡ ip) × (e.local_port ≡ port)

abbrev pub Remote : ProcEntry → Bytes → ℕ → Type 0
Remote e ip port = (e.remote_ip ≡ ip) × (e.remote_port ≡ port)

-- The entry is the socket at the source of the connection, or at its destination.
abbrev pub IsSource : ConnTuple → ProcEntry → Type 0
IsSource o e = Local e o.src_ip o.src_port × Remote e o.dst_ip o.dst_port

abbrev pub IsDestination : ConnTuple → ProcEntry → Type 0
IsDestination o e = Local e o.dst_ip o.dst_port × Remote e o.src_ip o.src_port

-- The entry tells the direction.
abbrev pub Tells : ConnTuple → ProcEntry → Direction → Type 0
Tells o e outbound = IsSource o e ⊎ ((o.proto ≡ 17) × Local e o.src_ip o.src_port)
Tells o e inbound = IsDestination o e
Tells o e unknown = ⊥

-- Some entry of the list satisfies `P`.
abbrev pub Has : (ProcEntry → Type 0) → List ProcEntry → Type 0
Has P [] = ⊥
Has P (e ∷ es) = P e ⊎ Has P es

Has-append_left : (P : ProcEntry → Type 0) (xs ys : List ProcEntry) → Has P xs → Has P (xs ++ ys)
Has-append_left P [] ys h = elim h [ ]
Has-append_left P (x ∷ xs) ys (inl p) = inl p
Has-append_left P (x ∷ xs) ys (inr r) = inr (Has-append_left P xs ys r)

Has-append_right : (P : ProcEntry → Type 0) (xs ys : List ProcEntry) → Has P ys → Has P (xs ++ ys)
Has-append_right P [] ys h = h
Has-append_right P (x ∷ xs) ys h = inr (Has-append_right P xs ys h)

Has-map :
    (P Q : ProcEntry → Type 0) (es : List ProcEntry)
    → ((e : ProcEntry) → P e → Q e)
    → Has P es
    → Has Q es
Has-map P Q [] f h = elim h [ ]
Has-map P Q (e ∷ es) f (inl p) = inl (f e p)
Has-map P Q (e ∷ es) f (inr r) = inr (Has-map P Q es f r)

-- The inode is that of an entry of the list which tells the direction.
abbrev pub FoundIn : ConnTuple → List ProcEntry → ℕ → Direction → Type 0
FoundIn o es i dir = Has (λ e. (e.inode ≢ 0) × (e.inode ≡ i) × Tells o e dir) es

-- No entry with an inode tells a direction.
abbrev pub NoneIn : ConnTuple → List ProcEntry → Type 0
NoneIn o es = All (λ e. e.inode ≢ 0 → ¬ Tells o e outbound × ¬ Tells o e inbound) es

is_local_end_iff :
    (e : ProcEntry) (ip : Bytes) (port : ℕ) → (is_local_end e ip port ≡ true) ↔ Local e ip port
unfolding is_local_end
is_local_end_iff e ip port = ground (arith, same_text_iff e.local_ip ip)

is_between_iff :
    (e : ProcEntry) (ip : Bytes) (port : ℕ) (peer : Bytes) (peer_port : ℕ)
    → (is_between e ip port peer peer_port ≡ true) ↔ (Local e ip port × Remote e peer peer_port)
unfolding is_between
is_between_iff e ip port peer peer_port =
    ground (arith, is_local_end_iff e ip port, same_text_iff e.remote_ip peer)

module _ (o : ConnTuple) (e : ProcEntry) where
  IsSource-iff : (is_between e o.src_ip o.src_port o.dst_ip o.dst_port ≡ true) ↔ IsSource o e
  IsSource-iff = is_between_iff e o.src_ip o.src_port o.dst_ip o.dst_port

  IsDestination-iff :
      (is_between e o.dst_ip o.dst_port o.src_ip o.src_port ≡ true) ↔ IsDestination o e
  IsDestination-iff = is_between_iff e o.dst_ip o.dst_port o.src_ip o.src_port

  matched-Tells : (dir : Direction) → matched o e ≡ some dir → (e.inode ≢ 0) × Tells o e dir
  unfolding matched
  matched-Tells unknown h = ground arith
  matched-Tells outbound h = (ground arith, inl (IsSource-iff.0 (ground arith)))
  matched-Tells inbound h = (ground arith, IsDestination-iff.0 (ground arith))

  matched-none : matched o e ≡ none → e.inode ≢ 0 → ¬ IsSource o e × ¬ IsDestination o e
  unfolding matched
  matched-none h used = (
    λ s. let t = IsSource-iff.1 s in ground arith,
    λ s. let t = IsDestination-iff.1 s in ground arith,
  )

  matched_local-Tells :
      (dir : Direction)
      → o.proto ≡ 17
      → matched_local o e ≡ some dir
      → (e.inode ≢ 0) × Tells o e dir
  unfolding matched_local
  matched_local-Tells unknown udp h = ground arith
  matched_local-Tells inbound udp h = ground arith
  matched_local-Tells outbound udp h =
      (ground arith, inr (udp, (is_local_end_iff e o.src_ip o.src_port).0 (ground arith)))

  matched_local-none : matched_local o e ≡ none → e.inode ≢ 0 → ¬ Local e o.src_ip o.src_port
  unfolding matched_local
  matched_local-none h used s = let t = (is_local_end_iff e o.src_ip o.src_port).1 s in ground arith

first_match_cases :
    (test : ProcEntry → Option Direction) (es : List ProcEntry)
    → ((r : ℕ × Direction) × (first_match test es ≡ some r)
        × Has (λ e. (e.inode ≡ r.0) × (test e ≡ some r.1)) es)
      ⊎ ((first_match test es ≡ none) × All (λ e. test e ≡ none) es)
unfolding first_match
first_match_cases test [] = inr (refl, tt)
first_match_cases test (e ∷ es) = elim (Option-cases (test e)) [
  | inr (dir, hit) ↦ inl ((e.inode, dir), rw (hit, first_match) refl, inl (refl, hit))
  | inl miss ↦ elim (first_match_cases test es) [
    | inl (r, found, has) ↦ inl (r, rw (miss, first_match) found, inr has)
    | inr (over, all) ↦ inr (rw (miss, first_match) over, (miss, all))
  ]
]

module _ (o : ConnTuple) where
  -- A list of entries is searched through.
  abbrev Searched : List ProcEntry → Option (ℕ × Direction) → Type 0
  Searched es r =
      ((f : ℕ × Direction) × (r ≡ some f) × FoundIn o es f.0 f.1) ⊎ ((r ≡ none) × NoneIn o es)

  exact_none :
      (e : ProcEntry)
      → matched o e ≡ none
      → ¬ (o.proto ≡ 17)
      → e.inode ≢ 0
      → ¬ Tells o e outbound × ¬ Tells o e inbound
  exact_none e h tcp used =
      let m = matched-none o e h used in (elim [ inl s ↦ m.0 s | inr (udp, l) ↦ tcp udp ], m.1)

  none_both :
      (es : List ProcEntry)
      → All (λ e. matched o e ≡ none) es
      → All (λ e. matched_local o e ≡ none) es
      → NoneIn o es
  none_both [] h k = tt
  none_both (e ∷ es) (h, hs) (k, ks) = (
    λ used.
        let m = matched-none o e h used in
        (elim [ inl s ↦ m.0 s | inr (_, l) ↦ matched_local-none o e k used l ], m.1),
    none_both es hs ks,
  )

  match_file-Searched : (es : List ProcEntry) → Searched es (match_file o es)
  unfolding match_file
  match_file-Searched es = elim (first_match_cases (matched o) es) [
    | inl (f, found, has) ↦ inl (
      f,
      rw (found, match_file) refl,
      Has-map _ _ es (λ e h. let t = matched-Tells o e f.1 h.1 in (t.0, h.0, t.1)) has,
    )
    | inr (over, all) ↦ elim (Bool-cases (o.proto == 17)) [
      | inr tcp ↦ inr (
        rw (over, match_file, tcp) refl,
        All-map _ _ es (λ e h. exact_none e h (λ u. ground (arith, u, tcp))) all,
      )
      | inl datagram ↦ elim (first_match_cases (matched_local o) es) [
        | inl (f, found, has) ↦ inl (
          f,
          rw (over, match_file, datagram) found,
          Has-map _ _ es
              (λ e h.
                let t = matched_local-Tells o e f.1 ((==_iff _ _).0 datagram) h.1 in
                (t.0, h.0, t.1))
              has,
        )
        | inr (over', all') ↦ inr (rw (over, match_file, datagram) over', none_both es all all')
      ]
    ]
  ]

  -- The result of a search: an inode of an entry, with the direction that the entry tells, or 0.
  abbrev pub Locates : List ProcEntry → ℕ × Direction → Type 0
  Locates es r = FoundIn o es r.0 r.1 ⊎ ((r ≡ (0, unknown)) × NoneIn o es)

  match_files-Locates :
      (a b : Option Bytes)
      → Locates (read_proc_net_file a ++ read_proc_net_file b) (match_files o a b)
  unfolding match_files
  match_files-Locates a b = elim (match_file-Searched (read_proc_net_file a)) [
    | inl (f, e, found) ↦ rw (e, match_files) (inl (Has-append_left _ _ _ found))
    | inr (e, over) ↦ elim (match_file-Searched (read_proc_net_file b)) [
      | inl (f, e', found) ↦ rw (e, match_files, e') (inl (Has-append_right _ _ _ found))
      | inr (e', over') ↦ rw (e, match_files, e') (inr (refl, All-append _ _ _ over over'))
    ]
  ]

-- The entries of the files that the protocol has.
abbrev pub entries_for : SocketFiles → ℕ → List ProcEntry
entries_for files proto =
    if proto == 6
    then read_proc_net_file files.tcp ++ read_proc_net_file files.tcp6
    else if proto == 17
    then read_proc_net_file files.udp ++ read_proc_net_file files.udp6
    else []

-- find_inode_with_dir gives the inode of an entry of the files of the protocol which tells the
-- direction that it gives, and that inode is not 0; or it gives 0 and no direction, and no entry
-- with an inode tells one. An entry tells outbound if it is between source and destination, or if
-- the protocol is UDP and it is at the source; it tells inbound if it is between destination and
-- source.
pub find_inode_with_dir-Locates :
    (files : SocketFiles) (o : ConnTuple)
    → Locates o (entries_for files o.proto) (find_inode_with_dir files o)
unfolding find_inode_with_dir
find_inode_with_dir-Locates files o = elim (Bool-cases (o.proto == 6)) [
  | inl stream ↦ rw stream (match_files-Locates o files.tcp files.tcp6)
  | inr other ↦ elim (Bool-cases (o.proto == 17)) [
    | inl datagram ↦ rw (other, datagram) (match_files-Locates o files.udp files.udp6)
    | inr raw ↦ rw (other, raw) (inr (refl, tt))
  ]
]
