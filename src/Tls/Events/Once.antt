-- ===== src/Tls/Events/Once.antt =====
-- conn_mark of c/tls.c, and the lines that it keeps from being printed twice.
use tracep.Base.{
  ==_iff, Bool, Bool-cases, List, Option, Option-cases, [], ap, arith, false, if◌then◌else◌, inl,
  inr, length, length-take, none, refl, some, suc, take, take_all, true, zero, ℕ, ◌%◌, ◌++◌, ◌+◌,
  ◌==◌, ◌||◌, ◌∙◌, ◌∷◌, ◌≡◌, ◌≤◌,
}
use tracep.Memory.{Bytes}
use tracep.Text.{decimal, same_text, same_text_iff}
use tracep.Tls.Events.{
  Dir, Sockets, TlsEvent, TlsState, conn_key, conn_mark, is_watched, key_hash, mark_from, max_conn,
  other_dir, print_event, read_dir, remote_host, run_events, show_tls, sni_dir, tls_event,
  write_dir,
}

-- A slot that is free comes before the key among the probes, or the key does.
unfoldable pub has_room : ℕ → ℕ → Bytes → (ℕ → Option Bytes) → Bool
has_room zero i key t = false
has_room (suc n) i key t = elim (t (i % max_conn)) [
  | none ↦ true
  | some k ↦ same_text k key || has_room n (i + 1) key t
]

-- a free slot filled
abbrev filled : (ℕ → Option Bytes) → ℕ → Bytes → ℕ → Option Bytes
filled t k key j = if j == k then some key else t j

filled_other :
    (t : ℕ → Option Bytes) (k i : ℕ) (key x : Bytes)
    → t k ≡ none
    → t i ≡ some x
    → filled t k key i ≡ some x
filled_other t k i key x free_one taken = elim (Bool-cases (i == k)) [
  | inl here ↦ let e = (==_iff i k).0 here in absurd (ground (arith, ap t e, taken, free_one))
  | inr on ↦ rw on taken
]

module _ (n i : ℕ) (key : Bytes) (t : ℕ → Option Bytes) where
  mark_free :
      t (i % max_conn) ≡ none
      → mark_from (suc n) i key t ≡ (false, filled t (i % max_conn) (take 319 key))
  unfolding mark_from
  mark_free e = rw (e, mark_from) refl

  mark_same :
      (k : Bytes)
      → t (i % max_conn) ≡ some k
      → same_text k key ≡ true
      → mark_from (suc n) i key t ≡ (true, t)
  unfolding mark_from
  mark_same k e s = rw (e, mark_from, s) refl

  mark_on :
      (k : Bytes)
      → t (i % max_conn) ≡ some k
      → same_text k key ≡ false
      → mark_from (suc n) i key t ≡ mark_from n (i + 1) key t
  unfolding mark_from
  mark_on k e s = rw (e, mark_from, s) refl

  room_on :
      (k : Bytes)
      → t (i % max_conn) ≡ some k
      → same_text k key ≡ false
      → has_room (suc n) i key t ≡ true
      → has_room n (i + 1) key t ≡ true
  unfolding has_room
  room_on k e s room = rw (e, has_room, s) at room

-- A slot that is taken stays as it is.
mark_keeps :
    (n i : ℕ) (key : Bytes) (t : ℕ → Option Bytes) (j : ℕ) (x : Bytes)
    → t j ≡ some x
    → (mark_from n i key t).1 j ≡ some x
unfolding mark_from
mark_keeps zero i key t j x e = e
mark_keeps (suc n) i key t j x e = elim (Option-cases (t (i % max_conn))) [
  | inl free_one ↦
      rw (mark_free n i key t free_one)
        (filled_other t (i % max_conn) j (take 319 key) x free_one e)
  | inr (k, taken) ↦ elim (Bool-cases (same_text k key)) [
    | inl same ↦ rw (mark_same n i key t k taken same) e
    | inr other ↦ rw (mark_on n i key t k taken other) (mark_keeps n (i + 1) key t j x e)
  ]
]

-- A second run over the probes finds the key, wherever the first has put it.
module _ (key : Bytes) (fits : length key ≤ 319) where
  mark_from-mark_from :
      (n i : ℕ) (t : ℕ → Option Bytes)
      → has_room n i key t ≡ true
      → (mark_from n i key (mark_from n i key t).1).0 ≡ true
  unfolding has_room
  mark_from-mark_from zero i t room = cc
  mark_from-mark_from (suc n) i t room = elim (Option-cases (t (i % max_conn))) [
    | inl free_one ↦
        let full = filled t (i % max_conn) (take 319 key) in
        let there : full (i % max_conn) ≡ some key =
          rw ((==_iff (i % max_conn) (i % max_conn)).1 refl) (ap some (take_all 319 key fits)) in
        rw (mark_free n i key t free_one)
          (ap (λ r. r.0) (mark_same n i key full key there ((same_text_iff key key).1 refl)))
    | inr (k, taken) ↦ elim (Bool-cases (same_text k key)) [
      | inl same ↦
          rw (mark_same n i key t k taken same) (ap (λ r. r.0) (mark_same n i key t k taken same))
      | inr other ↦
          let next = (mark_from n (i + 1) key t).1 in
          let kept = mark_keeps n (i + 1) key t (i % max_conn) k taken in
          rw (mark_on n i key t k taken other) (
            ap (λ r. r.0) (mark_on n i key next k kept other)
            ∙ mark_from-mark_from n (i + 1) t (room_on n i key t k taken other room))
    ]
  ]

-- There is room for the key in the table.
abbrev pub HasPlace : Bytes → (ℕ → Option Bytes) → Type 0
HasPlace key t = has_room max_conn (key_hash 5381 key % max_conn) key t ≡ true

conn_mark-conn_mark :
    (key : Bytes) (t : ℕ → Option Bytes)
    → length key ≤ 319
    → HasPlace key t
    → (conn_mark key (conn_mark key t).1).0 ≡ true
unfolding conn_mark
conn_mark-conn_mark key t fits room =
    mark_from-mark_from key fits 4096 (key_hash 5381 key % 4096) t room

-- A table that keeps what another holds finds what that finds.
mark_from_kept :
    (n i : ℕ) (key : Bytes) (t t' : ℕ → Option Bytes)
    → ((j : ℕ) (x : Bytes) → t j ≡ some x → t' j ≡ some x)
    → (mark_from n i key t).0 ≡ true
    → (mark_from n i key t').0 ≡ true
mark_from_kept zero i key t t' kept h = unfold mark_from in cc
mark_from_kept (suc n) i key t t' kept h = elim (Option-cases (t (i % max_conn))) [
  | inl free_one ↦ absurd (ground (arith, rw (mark_free n i key t free_one) at h))
  | inr (k, taken) ↦
      let taken' = kept (i % max_conn) k taken in
      elim (Bool-cases (same_text k key)) [
        | inl same ↦ ap (λ r. r.0) (mark_same n i key t' k taken' same)
        | inr other ↦
            rw (mark_on n i key t' k taken' other)
              (mark_from_kept n (i + 1) key t t' kept (rw (mark_on n i key t k taken other) at h))
      ]
]

-- What a table holds, another holds too.
abbrev Kept : (ℕ → Option Bytes) → (ℕ → Option Bytes) → Type 0
Kept t t' = (j : ℕ) (x : Bytes) → t j ≡ some x → t' j ≡ some x

conn_mark-Kept : (key : Bytes) (t : ℕ → Option Bytes) → Kept t (conn_mark key t).1
unfolding conn_mark
conn_mark-Kept key t = mark_keeps 4096 (key_hash 5381 key % 4096) key t

conn_mark-Kept_seen :
    (key : Bytes) (t t' : ℕ → Option Bytes)
    → Kept t t'
    → (conn_mark key t).0 ≡ true
    → (conn_mark key t').0 ≡ true
unfolding conn_mark
conn_mark-Kept_seen key t t' kept h = mark_from_kept 4096 (key_hash 5381 key % 4096) key t t' kept h

module _ (inet_ntop : Bytes → Bytes) (name_of : Bytes → Option Bytes) (color : Bool)
    (watch : List ℕ) where
  module _ (net : Sockets) (ev : TlsEvent) (s : TlsState) where
    abbrev key_of : Bytes
    key_of =
        conn_key inet_ntop name_of color watch ev.pid
          (remote_host inet_ntop name_of color watch net s.names ev.pid)

    abbrev shown_state : TlsState
    shown_state = show_tls inet_ntop name_of color watch net ev s

    show_tls_seen : shown_state.seen ≡ (conn_mark key_of s.seen).1
    unfolding show_tls
    show_tls_seen = elim (Bool-cases (conn_mark key_of s.seen).0) [
      | inl again ↦ rw (again, show_tls) refl
      | inr new ↦ rw (new, show_tls) refl
    ]

    show_tls_again : (conn_mark key_of s.seen).0 ≡ true → shown_state.printed ≡ s.printed
    unfolding show_tls
    show_tls_again again = rw (again, show_tls) refl

    tls_event-Kept :
        (dir : Dir) → Kept s.seen (tls_event inet_ntop name_of color watch dir net ev s).seen
    unfolding tls_event
    tls_event-Kept sni_dir = elim (Bool-cases (length ev.sni == 0)) [
      | inl empty ↦ rw (empty, tls_event) (λ j x e. e)
      | inr full ↦ rw (full, tls_event) (λ j x e. e)
    ]
    tls_event-Kept read_dir = rw show_tls_seen (conn_mark-Kept key_of s.seen)
    tls_event-Kept write_dir = rw show_tls_seen (conn_mark-Kept key_of s.seen)
    tls_event-Kept other_dir = rw show_tls_seen (conn_mark-Kept key_of s.seen)

  run_events-Kept :
      (more : List (Sockets × TlsEvent)) (s : TlsState)
      → Kept s.seen (run_events inet_ntop name_of color watch more s).seen
  unfolding run_events print_event
  run_events-Kept [] s = λ j x e. e
  run_events-Kept ((net, ev) ∷ more) s = elim (Bool-cases (is_watched watch ev.pid)) [
    | inl yes_watched ↦
        rw (yes_watched, run_events)
          (λ j x e.
            run_events-Kept more (tls_event inet_ntop name_of color watch ev.dir net ev s) j x
              (tls_event-Kept net ev s ev.dir j x e))
    | inr not_watched ↦ rw (not_watched, run_events) (run_events-Kept more s)
  ]

  conn_key_fits :
      (pid : ℕ) (host : Bytes) → length (conn_key inet_ntop name_of color watch pid host) ≤ 319
  unfolding conn_key
  conn_key_fits pid host = omega (arith, length-take 319 (decimal pid ++ b'|' ∷ host))

  -- If the table of seen connections has place for the key of an event that was shown, a later
  -- event with the same pid and host prints nothing, after any run of events in between.
  pub show_tls-run_events :
      (net net' : Sockets) (ev ev' : TlsEvent) (more : List (Sockets × TlsEvent)) (s : TlsState)
      → let s' = run_events inet_ntop name_of color watch more (shown_state net ev s) in
        HasPlace (key_of net ev s) s.seen
        → key_of net' ev' s' ≡ key_of net ev s
        → (shown_state net' ev' s').printed ≡ s'.printed
  show_tls-run_events net net' ev ev' more s room same =
      let s' = run_events inet_ntop name_of color watch more (shown_state net ev s) in
      let key = key_of net ev s in
      let first : (conn_mark key (shown_state net ev s).seen).0 ≡ true =
        rw (show_tls_seen net ev s) (
          conn_mark-conn_mark key s.seen
            (conn_key_fits ev.pid (remote_host inet_ntop name_of color watch net s.names ev.pid))
            room) in
      show_tls_again net' ev' s' (
        rw same
          (conn_mark-Kept_seen key _ s'.seen (run_events-Kept more (shown_state net ev s)) first))
