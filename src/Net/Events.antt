-- ===== src/Net/Events.antt =====
-- What c/net.c does with a conntrack event on Linux: find_pid_and_dir, handle_new, handle_update and
-- handle_destroy. A `World` is what the system shows at the time of an event; inode_to_pid, a scan of
-- /proc by system calls, is its `owner`. Times are nanoseconds of a clock that does not go back, and
-- `time_text` prints a difference as `%.3fs` does the doubles of the source. Locks are left out: one
-- thread handles the events, and the workers of dns_worker write nothing but the cache of names.
pub mod Timeline
use tracep.Base.{
  Bool, List, Option, [], false, if◌then◌else◌, length, none, not, refl, some, take, ℕ, ◌&&◌, ◌++◌,
  ◌-◌, ◌==◌, ◌||◌, ◌∷◌,
}
use tracep.Memory.{Bytes, Outcome, ok, ◌>>=◌}
use tracep.Net.Attrs.{ConnTuple, parse_tcp_state}
use tracep.Net.Chains.{Buckets, Keyed, db_delete, db_get, db_put, db_write}
use tracep.Net.Line.{
  EventKind, NetOptions, closed, fresh_conn, ip_str, peer_text, print_event, tcp_state_name,
  updated,
}
use tracep.Net.Owner.{Direction, SocketFiles, find_inode_with_dir, inbound, outbound, unknown}
use tracep.Net.Reverse.{Names, async_reverse_lookup}
use tracep.Net.Watch.{is_watched}
use tracep.Text.{same_text}

-- conn_entry
pub record ConnEntry : Type 0 where
  pub key : Bytes
  pub tuple : Option ConnTuple
  pub pid : ℕ
  pub comm : Bytes
  pub dir : Direction
  pub start_at : ℕ
  pub tcp_state : ℕ

-- CONNDB_BUCKETS and the size of `key`; calloc leaves no tuple
abbrev pub conn_keyed : Keyed ConnEntry
conn_keyed = record {
  key = λ e. e.key;
  fresh = λ k. record {
    key = take 159 k;
    tuple = none;
    pid = 0;
    comm = [];
    dir = unknown;
    start_at = 0;
    tcp_state = 0;
  };
  room = 160;
  buckets = 1024;
  key-fresh = λ k. refl;
}

pub record World : Type 0 where
  pub files : SocketFiles
  pub owner : ℕ → ℕ × Bytes
  pub local_ips : List Bytes
  pub stat : ℕ → Option Bytes
  pub user : ℕ → Bytes
  pub now : ℕ

-- conndb, dns_cache, the addresses whose worker was started, and what was printed
pub record NetState : Type 0 where
  pub conns : Buckets ConnEntry
  pub names : Names
  pub started : List Bytes
  pub printed : Bytes

-- a loop over local_ips
unfoldable pub text_in : List Bytes → Bytes → Bool
unfolding same_text
text_in [] s = false
text_in (t ∷ ts) s = same_text t s || text_in ts s

-- what find_pid_and_dir finds
pub record Owner : Type 0 where
  pub pid : ℕ
  pub comm : Bytes
  pub dir : Direction

-- `watch_n > 0 && !is_watched(pid)`
unfoldable pub is_skipped : List ℕ → World → ℕ → Bool
is_skipped watch w pid = not (length watch == 0) && not (is_watched watch w.stat pid)

-- `outbound_only && dir == DIR_INBOUND`
unfoldable pub is_left_out : NetOptions → Direction → Bool
is_left_out o inbound = o.outbound_only
is_left_out o outbound = false
is_left_out o unknown = false

abbrev pub is_tcp : ConnTuple → Bool
is_tcp t = t.proto == 6

-- parse_tcp_state of a TCP connection, and 0 of another
unfoldable pub state_of : Bytes → ℕ → ℕ → ConnTuple → Outcome ℕ
state_of d at plen t = if is_tcp t then parse_tcp_state d at plen else ok 0

-- the writes behind db_put
abbrev pub begun : World → ConnTuple → Owner → ℕ → ConnEntry → ConnEntry
begun w t owner state e = record e {
  tuple = some t;
  pid = owner.pid;
  comm = owner.comm;
  dir = owner.dir;
  start_at = w.now;
  tcp_state = state;
}

-- what the table says of a connection
unfoldable pub owner_of : Option ConnEntry → Owner
owner_of none = record { pid = 0; comm = []; dir = unknown }
owner_of (some e) = record { pid = e.pid; comm = e.comm; dir = e.dir }

abbrev pub in_state : ℕ → ConnEntry → ConnEntry
in_state state e = record e { tcp_state = state }

module _ (inet_ntop : Bytes → Bytes) (time_text : ℕ → Bytes) (watch : List ℕ) (o : NetOptions) where
  unfoldable pub is_local_ip : World → Bytes → Bool
  is_local_ip w ip = text_in w.local_ips (ip_str inet_ntop ip)

  unfoldable pub find_pid_and_dir : World → ConnTuple → Owner
  find_pid_and_dir w t =
      let (inode, dir) = find_inode_with_dir w.files t in
      if inode == 0
      then record {
        pid = 0;
        comm = [];
        dir =
            if is_local_ip w t.dst_ip
            then inbound
            else if is_local_ip w t.src_ip
            then outbound
            else dir;
      }
      else record { pid = (w.owner inode).0; comm = take 63 (w.owner inode).1; dir = dir }

  -- print_event, with its lookup
  unfoldable pub show_event : World → ConnTuple → Owner → EventKind → Bytes → NetState → NetState
  show_event w t owner event extra s =
      let ip = peer_text inet_ntop t owner.dir in
      let r = async_reverse_lookup s.names ip in
      let line =
        print_event inet_ntop o t owner.pid owner.comm (w.user owner.pid) owner.dir event extra in
      if o.show_reverse
      then record s {
        names = r.names;
        started = if r.starts then s.started ++ ip ∷ [] else s.started;
        printed = s.printed ++ line r.host;
      }
      else record s { printed = s.printed ++ line [] }

  unfoldable pub handle_new :
      World → Bytes → ConnTuple → Bytes → ℕ → ℕ → NetState → Outcome NetState
  handle_new w key t d at plen s =
      let owner = find_pid_and_dir w t in
      if is_skipped watch w owner.pid || is_left_out o owner.dir
      then ok s
      else (state_of d at plen t >>= λ state. ok (
          show_event w t owner fresh_conn []
            (record s { conns = db_put conn_keyed s.conns key (begun w t owner state) })))

  unfoldable pub handle_update :
      World → Bytes → ConnTuple → Bytes → ℕ → ℕ → NetState → Outcome NetState
  handle_update w key t d at plen s =
      let owner = owner_of (db_get conn_keyed s.conns key) in
      if is_skipped watch w owner.pid || is_left_out o owner.dir
      then ok s
      else if is_tcp t
      then (parse_tcp_state d at plen >>= λ state. ok (
          show_event w t owner updated (take 15 (tcp_state_name state))
            (record s { conns = db_write conn_keyed s.conns key (in_state state) })))
      else ok (show_event w t owner updated [] s)

  unfoldable pub handle_destroy : World → Bytes → ConnTuple → NetState → NetState
  handle_destroy w key t s =
      let s' = record s { conns = db_delete conn_keyed s.conns key } in
      elim (db_get conn_keyed s.conns key) [
        | none ↦ s'
        | some e ↦
            if is_skipped watch w e.pid
            then s'
            else show_event w t (owner_of (some e)) closed
                (take 31 (time_text (w.now - e.start_at))) s'
      ]
