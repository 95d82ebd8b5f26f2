-- ===== src/Tls/Events.antt =====
-- What c/tls.c does with a trace event: remote_host, conn_mark, is_watched and print_event. The event
-- is what parse_line makes of a line by two regular expressions. The time of day is text, which the
-- source takes from localtime_r. A pid is not negative.
pub mod Once
use tracep.Base.{
  Bool, List, Option, [], drop, false, if◌then◌else◌, leb, length, none, some, suc, take, true,
  zero, ℕ, ◌%◌, ◌&&◌, ◌*◌, ◌++◌, ◌+◌, ◌-◌, ◌==◌, ◌^◌, ◌||◌, ◌∷◌,
}
use tracep.Common.{clr_text}
use tracep.Memory.{Bytes}
use tracep.Net.Watch.{pid_in}
use tracep.Text.{codes, decimal, same_text}
use tracep.Tls.Address.{remote_from_proc_net}
use tracep.Tls.Names.{SniSlots, get_sni, set_sni}

pub data Dir : Type 0 where
  sni_dir : Dir
  read_dir : Dir
  write_dir : Dir
  other_dir : Dir

-- tls_event, with the text of its time
pub record TlsEvent : Type 0 where
  pub comm : Bytes
  pub pid : ℕ
  pub time : Bytes
  pub probe_name : Bytes
  pub dir : Dir
  pub sni : Bytes

-- `conn_seen`, a table of keys; `counter` and what was printed
pub record TlsState : Type 0 where
  pub names : SniSlots
  pub seen : ℕ → Option Bytes
  pub counter : ℕ
  pub printed : Bytes

abbrev pub max_conn : ℕ
max_conn = 4096

-- the hash of conn_mark, from 5381 on
unfoldable pub key_hash : ℕ → Bytes → ℕ
key_hash h [] = h
key_hash h (c ∷ s) = key_hash ((h * 33 + c) % 2 ^ 32) s

-- the loop over the probes that are left: the answer, and the table; `sizeof key - 1` is 319
unfoldable pub mark_from : ℕ → ℕ → Bytes → (ℕ → Option Bytes) → Bool × (ℕ → Option Bytes)
unfolding same_text
mark_from zero i key t = (false, t)
mark_from (suc n) i key t = elim (t (i % max_conn)) [
  | none ↦ (false, λ j. if j == i % max_conn then some (take 319 key) else t j)
  | some k ↦ elim (same_text k key) [ true ↦ (true, t) | false ↦ mark_from n (i + 1) key t ]
]

unfoldable pub conn_mark : Bytes → (ℕ → Option Bytes) → Bool × (ℕ → Option Bytes)
unfolding mark_from key_hash
conn_mark key t = mark_from max_conn (key_hash 5381 key % max_conn) key t

-- what stands behind a prefix, if it is there
unfoldable pub behind : Bytes → Bytes → Option Bytes
behind [] s = some s
behind (c ∷ p) [] = none
behind (c ∷ p) (x ∷ s) = if c == x then behind p s else none

-- str_trim_prefix
unfoldable pub trim_prefix : Bytes → Bytes → Bytes
unfolding behind
trim_prefix p s = elim (behind p s) [ none ↦ s | some rest ↦ rest ]

-- the text without "_ret" at its end
unfoldable pub without_ret : Bytes → Bytes
unfolding same_text
without_ret s =
    if leb 4 (length s) && same_text (drop (length s - 4) s) (codes "_ret")
    then take (length s - 4) s
    else s

-- `sym`, of at most 63 characters
unfoldable pub symbol_of : Bytes → Bytes
unfolding trim_prefix without_ret
symbol_of probe =
    without_ret (take 63 (trim_prefix (codes "tls_write_") (trim_prefix (codes "tls_read_") probe)))

unfoldable pub is_watched : List ℕ → ℕ → Bool
unfolding pid_in
is_watched watch pid = length watch == 0 || pid_in watch pid

-- the contents of /proc/<pid>/net/tcp6 and tcp
pub record Sockets : Type 0 where
  pub tcp6 : Option Bytes
  pub tcp : Option Bytes

module _ (inet_ntop : Bytes → Bytes) (name_of : Bytes → Option Bytes) (color : Bool)
    (watch : List ℕ) where
  -- remote_host, into 300 bytes
  unfoldable pub remote_host : Sockets → SniSlots → ℕ → Bytes
  unfolding get_sni
  remote_host net names pid = elim (get_sni pid names) [
    | c ∷ sni ↦ take 299 (c ∷ sni)
    | [] ↦ elim (remote_from_proc_net inet_ntop name_of net.tcp6 net.tcp 300) [
      | none ↦ []
      | some dst ↦ dst
    ]
  ]

  unfoldable pub conn_key : ℕ → Bytes → Bytes
  unfolding decimal
  conn_key pid host = take 319 (decimal pid ++ b'|' ∷ host)

  unfoldable pub dir_text : Dir → Bytes
  unfolding clr_text
  dir_text write_dir = clr_text color (codes "33") (codes "TX")
  dir_text sni_dir = clr_text color (codes "36") (codes "RX")
  dir_text read_dir = clr_text color (codes "36") (codes "RX")
  dir_text other_dir = clr_text color (codes "36") (codes "RX")

  -- the line of print_event
  unfoldable pub tls_line : TlsEvent → Bytes → Bytes
  unfolding clr_text dir_text symbol_of decimal
  tls_line ev host =
      clr_text color (codes "2") ev.time
      ++ (b' ' ∷ clr_text color (codes "33") (decimal ev.pid)
          ++ (b' ' ∷ clr_text color (codes "96") ev.comm
              ++ (b' ' ∷ dir_text ev.dir
                  ++ (b' ' ∷ clr_text color (codes "2") (symbol_of ev.probe_name)
                      ++ ((if length host == 0
                            then []
                            else codes "  " ++ clr_text color (codes "35") host)
                          ++ codes "\n")))))

  -- print_event of an event that is no server name
  unfoldable pub show_tls : Sockets → TlsEvent → TlsState → TlsState
  show_tls net ev s =
      let host = remote_host net s.names ev.pid in
      let (again, seen) = conn_mark (conn_key ev.pid host) s.seen in
      if again then record s { seen = seen } else record s {
        seen = seen;
        counter = s.counter + 1;
        printed = s.printed ++ tls_line ev host;
      }

  unfoldable pub tls_event : Dir → Sockets → TlsEvent → TlsState → TlsState
  tls_event sni_dir net ev s =
      if length ev.sni == 0 then s else record s { names = set_sni ev.pid ev.sni s.names }
  tls_event read_dir net ev s = show_tls net ev s
  tls_event write_dir net ev s = show_tls net ev s
  tls_event other_dir net ev s = show_tls net ev s

  unfoldable pub print_event : Sockets → TlsEvent → TlsState → TlsState
  unfolding tls_event
  print_event net ev s = tls_event ev.dir net ev s

  -- the loop of tls_main over the lines that parse_line takes
  unfoldable pub run_events : List (Sockets × TlsEvent) → TlsState → TlsState
  run_events [] s = s
  run_events ((net, ev) ∷ more) s =
      run_events more (if is_watched watch ev.pid then print_event net ev s else s)
