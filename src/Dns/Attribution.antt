-- ===== src/Dns/Attribution.antt =====
-- c/dns.c behind the parser: the filters, proc_lookup with its cache, the queries in flight and one
-- round of the loop of dns_main. Times are nanoseconds of the monotonic clock, which never runs back;
-- the source keeps them as milliseconds in a double. pid_for_udp_port is a walk through /proc: its
-- result for a port is the function `owner`. A report is what emit is given, once its filters let it
-- pass; how it is printed is left out.
pub mod Search
pub mod Cache
pub mod Flight
use tracep.Base.{
  Bool, List, Option, [], false, if◌then◌else◌, length, ltb, none, not, set, some, true, ℕ, ◌%◌,
  ◌&&◌, ◌*◌, ◌++◌, ◌-◌, ◌/◌, ◌==◌, ◌^◌, ◌∷◌,
}
use tracep.Dns.Message.{DnsMsg, Family, qtype_str}
use tracep.Dns.Packet.{Packet, parse_packet}
use tracep.Memory.{Bytes, Outcome, ok, print_s, ◌>>=◌}
use tracep.Text.{same_text}

-- the lists of the flags -n, -p, -T, and the text of -d
pub record Filters : Type 0 where
  pub names : List Bytes
  pub pids : List ℕ
  pub types : List Bytes
  pub domain_text : Bytes

unfoldable pub in_str_set : List Bytes → Bytes → Bool
unfolding same_text
in_str_set [] v = false
in_str_set (s ∷ set) v = if same_text s v then true else in_str_set set v

unfoldable pub in_pid_set : List ℕ → ℕ → Bool
in_pid_set [] v = false
in_pid_set (p ∷ set) v = if p == v then true else in_pid_set set v

-- `d` begins the text
unfoldable pub begins : Bytes → Bytes → Bool
begins s [] = true
begins [] (c ∷ d) = false
begins (x ∷ s) (c ∷ d) = x == c && begins s d

-- strstr(s, d) is not NULL
unfoldable pub contains : Bytes → Bytes → Bool
unfolding begins
contains [] d = begins [] d
contains (x ∷ s) d = if begins (x ∷ s) d then true else contains s d

pub record Report : Type 0 where
  pub query : Bytes
  pub qtype : Bytes
  pub pid : ℕ
  pub name : Bytes
  pub response : DnsMsg
  pub latency : ℕ

-- the four tests at the head of emit
unfoldable pub shown : Filters → Report → Bool
unfolding in_str_set in_pid_set contains
shown f r =
    if not (length f.names == 0) && not (in_str_set f.names r.name)
    then false
    else if not (length f.pids == 0) && not (in_pid_set f.pids r.pid)
    then false
    else if not (length f.types == 0) && not (in_str_set f.types r.qtype)
    then false
    else if not (length f.domain_text == 0) && not (contains r.query f.domain_text)
    then false
    else true

-- cache_ent; an entry that is not set is none
pub record CacheEnt : Type 0 where
  pub pid : ℕ
  pub name : Bytes
  pub born : ℕ

-- pending_t
pub record Pending : Type 0 where
  pub query : Bytes
  pub qtype : Bytes
  pub pid : ℕ
  pub name : Bytes
  pub sent : ℕ

-- pcache, pending, and the reports so far
pub record Tracker : Type 0 where
  pub cache : ℕ → Option CacheEnt
  pub pending : ℕ → Option Pending
  pub reports : List Report

-- CACHE_TTL_MS in nanoseconds
abbrev pub cache_ttl : ℕ
cache_ttl = 2000 * 10 ^ 6

abbrev pub put_at {ℓ} : {A : Type ℓ} → (ℕ → Option A) → ℕ → Option A → ℕ → Option A
put_at m k e i = if i == k then e else m i

-- the part of proc_lookup behind the test of the cache
unfoldable pub look_up :
    (ℕ → ℕ × Bytes) → (ℕ → Option CacheEnt) → ℕ → ℕ → (ℕ → Option CacheEnt) × ℕ × Bytes
look_up owner cache port now =
    let (pid, nm) = owner port in
    (
      put_at cache port (some (record { pid = pid; name = print_s 64 nm; born = now })),
      pid,
      print_s 64 nm,
    )

-- proc_lookup: the cache, the pid and the name
unfoldable pub proc_lookup :
    (ℕ → ℕ × Bytes) → (ℕ → Option CacheEnt) → ℕ → ℕ → (ℕ → Option CacheEnt) × ℕ × Bytes
proc_lookup owner cache port now = elim (cache port) [
  | none ↦ look_up owner cache port now
  | some e ↦ elim (ltb (now - e.born) cache_ttl) [
    | true ↦ (cache, e.pid, print_s 64 e.name)
    | false ↦ look_up owner cache port now
  ]
]

-- a packet with what the loop asks the system while it handles it: the owners of the ports, and the
-- time at proc_lookup and at the end
pub record Arrival : Type 0 where
  pub packet : Packet
  pub owner : ℕ → ℕ × Bytes
  pub looked : ℕ
  pub now : ℕ

-- `(m.flags & 0x8000) == 0`
abbrev pub is_query : DnsMsg → Bool
is_query m = m.flags / 2 ^ 15 % 2 == 0

-- the query that dns_main keeps
unfoldable pub pending_of : Arrival → ℕ → Bytes → Pending
pending_of a pid name = record {
  query = print_s 256 a.packet.msg.question;
  qtype = print_s 16 (qtype_str a.packet.msg.qtype);
  pid = pid;
  name = name;
  sent = a.now;
}

-- what emit is given
unfoldable pub report_of : Pending → Arrival → Report
report_of p a = record {
  query = p.query;
  qtype = p.qtype;
  pid = p.pid;
  name = p.name;
  response = a.packet.msg;
  latency = a.now - p.sent;
}

-- emit
abbrev pub emit : Filters → List Report → Report → List Report
emit f reports r = if shown f r then reports ++ r ∷ [] else reports

-- the branch for a query
unfoldable pub note_query : Tracker → Arrival → Tracker
note_query s a =
    let (cache, pid, name) = proc_lookup a.owner s.cache a.packet.src a.looked in
    record s {
      cache = cache;
      pending = put_at s.pending a.packet.msg.id (some (pending_of a pid name));
    }

-- the branch for a response
unfoldable pub note_response : Filters → Tracker → Arrival → Tracker
note_response f s a = elim (s.pending a.packet.msg.id) [
  | none ↦ s
  | some p ↦ record s {
    pending = put_at s.pending a.packet.msg.id none;
    reports = emit f s.reports (report_of p a);
  }
]

-- the body of the loop of dns_main for a packet that has been parsed
unfoldable pub handle_packet : Filters → Tracker → Arrival → Tracker
handle_packet f s a =
    let m = a.packet.msg in
    if is_query m && a.packet.dst == 53
    then note_query s a
    else if not (is_query m) && a.packet.src == 53
    then note_response f s a
    else s

unfoldable pub handle_packets : Filters → Tracker → List Arrival → Tracker
handle_packets f s [] = s
handle_packets f s (a ∷ more) = handle_packets f (handle_packet f s a) more

-- one round of the loop: the frame that cap_next gives, and what the system says while it is handled
pub handle_frame :
    (Family → Bytes → Option Bytes)
    → Filters
    → (ℕ → ℕ × Bytes)
    → ℕ
    → ℕ
    → Bytes
    → ℕ
    → Tracker
    → Outcome Tracker
handle_frame inet_ntop f owner looked now frame n s = parse_packet inet_ntop frame n >>= λ o.
    elim o [
      | none ↦ ok s
      | some p ↦
          ok (handle_packet f s (record { packet = p; owner = owner; looked = looked; now = now }))
    ]
