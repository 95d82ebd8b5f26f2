-- ===== src/Dns/Attribution/Flight.antt =====
-- c/dns.c, the loop of dns_main: the queries in flight by id, and the responses to them.
use tracep.Base.{
  All, Bool-cases, List, Option, Option-cases, [], ap, arith, false, inl, inr, none, not, refl,
  some, sym, true, ℕ, ◌&&◌, ◌==◌, ◌∙◌, ◌∷◌, ◌≡◌, ◌≢◌,
}
use tracep.Dns.Attribution.{
  Arrival, Filters, Pending, Tracker, emit, handle_packet, handle_packets, is_query, note_query,
  note_response, pending_of, proc_lookup, put_at, report_of,
}

-- The packet neither asks nor answers with the id.
abbrev pub Elsewhere : ℕ → Arrival → Type 0
Elsewhere i a = a.packet.msg.id ≢ i

-- a packet that dns_main takes for a query
abbrev pub Asks : Arrival → Type 0
Asks a = (is_query a.packet.msg ≡ true) × (a.packet.dst ≡ 53)

-- a packet that dns_main takes for a response
abbrev pub Answers : Arrival → Type 0
Answers a = (is_query a.packet.msg ≡ false) × (a.packet.src ≡ 53)

handle_packet-Asks :
    (f : Filters) (s : Tracker) (a : Arrival) → Asks a → handle_packet f s a ≡ note_query s a
unfolding handle_packet
handle_packet-Asks f s a (query, port) =
    let to_port : (a.packet.dst == 53) ≡ true = ground arith in
    rw (query, to_port, handle_packet) refl

handle_packet-Answers :
    (f : Filters) (s : Tracker) (a : Arrival)
    → Answers a
    → handle_packet f s a ≡ note_response f s a
unfolding handle_packet
handle_packet-Answers f s a (response, port) =
    let from_port : (a.packet.src == 53) ≡ true = ground arith in
    rw (response, from_port, handle_packet) refl

put_at_other :
    {A : Type 0} (m : ℕ → Option A) (k i : ℕ) (e : Option A) → k ≢ i → put_at m k e i ≡ m i
put_at_other m k i e ne = let other : (i == k) ≡ false = ground arith in rw other refl

note_query-pending :
    (s : Tracker) (a : Arrival) (i : ℕ) → Elsewhere i a → (note_query s a).pending i ≡ s.pending i
unfolding note_query
note_query-pending s a i ne = put_at_other s.pending a.packet.msg.id i _ ne

note_response-pending :
    (f : Filters) (s : Tracker) (a : Arrival) (i : ℕ)
    → Elsewhere i a
    → (note_response f s a).pending i ≡ s.pending i
unfolding note_response
note_response-pending f s a i ne = elim (Option-cases (s.pending a.packet.msg.id)) [
  | inl idle ↦ rw (idle, note_response) refl
  | inr (p, flying) ↦ rw (flying, note_response) (put_at_other s.pending a.packet.msg.id i none ne)
]

handle_packet-pending :
    (f : Filters) (s : Tracker) (a : Arrival) (i : ℕ)
    → Elsewhere i a
    → (handle_packet f s a).pending i ≡ s.pending i
unfolding handle_packet
handle_packet-pending f s a i ne = elim (Bool-cases (is_query a.packet.msg && a.packet.dst == 53)) [
  | inl query ↦ rw (query, handle_packet) (note_query-pending s a i ne)
  | inr other ↦ elim (Bool-cases (not (is_query a.packet.msg) && a.packet.src == 53)) [
    | inl response ↦ rw (other, response, handle_packet) (note_response-pending f s a i ne)
    | inr neither ↦ rw (other, neither, handle_packet) refl
  ]
]

handle_packets-pending :
    (f : Filters) (between : List Arrival) (s : Tracker) (i : ℕ)
    → All (Elsewhere i) between
    → (handle_packets f s between).pending i ≡ s.pending i
unfolding handle_packets
handle_packets-pending f [] s i h = refl
handle_packets-pending f (a ∷ between) s i h =
    handle_packets-pending f between (handle_packet f s a) i h.1 ∙ handle_packet-pending f s a i h.0

response_of :
    (f : Filters) (s : Tracker) (r : Arrival) (p : Pending)
    → Answers r
    → s.pending r.packet.msg.id ≡ some p
    → ((handle_packet f s r).reports ≡ emit f s.reports (report_of p r))
      × ((handle_packet f s r).pending r.packet.msg.id ≡ none)
response_of f s r p h flying =
    let same : (r.packet.msg.id == r.packet.msg.id) ≡ true = ground arith in
    let e : note_response f s r ≡ record s {
      pending = put_at s.pending r.packet.msg.id none;
      reports = emit f s.reports (report_of p r);
    } =
      unfold note_response in rw (flying, note_response) refl in
    let e' = handle_packet-Answers f s r h ∙ e in
    (
      ap (λ (s : Tracker). s.reports) e',
      ap (λ (s : Tracker). s.pending r.packet.msg.id) e' ∙ rw same refl,
    )

late_response :
    (f : Filters) (s : Tracker) (r : Arrival)
    → Answers r
    → s.pending r.packet.msg.id ≡ none
    → handle_packet f s r ≡ s
late_response f s r h idle =
    handle_packet-Answers f s r h ∙ (unfold note_response in rw (idle, note_response) refl)

-- A response that follows a query, with any number of packets of other ids between them, is given
-- to emit with the query that was kept and the owner that proc_lookup found for its port; and a
-- second response with the id, again after packets of other ids, changes nothing.
pub handle_packets-response :
    (f : Filters) (s : Tracker) (q r r' : Arrival) (between after : List Arrival)
    → Asks q
    → Answers r
    → Answers r'
    → r.packet.msg.id ≡ q.packet.msg.id
    → r'.packet.msg.id ≡ q.packet.msg.id
    → All (Elsewhere q.packet.msg.id) between
    → All (Elsewhere q.packet.msg.id) after
    → ((handle_packet f (handle_packets f (handle_packet f s q) between) r).reports
        ≡ emit f (handle_packets f (handle_packet f s q) between).reports (
            report_of
              (pending_of q
                (proc_lookup q.owner s.cache q.packet.src q.looked).1
                (proc_lookup q.owner s.cache q.packet.src q.looked).2)
              r))
      × (handle_packet f
            (handle_packets f
              (handle_packet f (handle_packets f (handle_packet f s q) between) r)
              after)
            r'
          ≡ handle_packets f
              (handle_packet f (handle_packets f (handle_packet f s q) between) r)
              after)
handle_packets-response f s q r r' between after asks answers answers' id id' calm calm' =
    let found = proc_lookup q.owner s.cache q.packet.src q.looked in
    let s1 = handle_packet f s q in
    let s2 = handle_packets f s1 between in
    let s3 = handle_packet f s2 r in
    let s4 = handle_packets f s3 after in
    let p = pending_of q found.1 found.2 in
    let same : (q.packet.msg.id == q.packet.msg.id) ≡ true = ground arith in
    let asked : s1.pending q.packet.msg.id ≡ some p =
      ap (λ (s : Tracker). s.pending q.packet.msg.id) (handle_packet-Asks f s q asks)
      ∙ (unfold note_query in rw same refl) in
    let flying : s2.pending r.packet.msg.id ≡ some p =
      ap s2.pending id ∙ (handle_packets-pending f between s1 q.packet.msg.id calm ∙ asked) in
    let (reported, cleared) = response_of f s2 r p answers flying in
    let idle : s4.pending r'.packet.msg.id ≡ none =
      ap s4.pending id'
      ∙ (handle_packets-pending f after s3 q.packet.msg.id calm'
          ∙ (ap s3.pending (sym id) ∙ cleared)) in
    (reported, late_response f s4 r' answers' idle)
