-- ===== src/Net/Reverse.antt =====
-- The names of addresses in c/net.c: the cache that dns_find and dns_get_or_create keep,
-- async_reverse_lookup, and what dns_worker writes when it is done. A worker is a thread, so its end is
-- a step of its own, at any time. calloc, strdup and pthread_create are taken to succeed.
pub mod Once
use tracep.Base.{
  Bool, List, [], false, if◌then◌else◌, none, refl, some, take, true, ℕ, ◌&&◌, ◌+◌, ◌-◌, ◌∷◌,
}
use tracep.Exec.Files.{trim_right}
use tracep.Memory.{Bytes}
use tracep.Net.Chains.{Buckets, Keyed, db_get, db_put}
use tracep.Text.{same_text}

-- dns_ent
pub record DnsEnt : Type 0 where
  pub ip : Bytes
  pub name : Bytes
  pub launched : Bool

-- INET6_ADDRSTRLEN and DNS_BUCKETS
abbrev pub addr_room : ℕ
addr_room = 46

abbrev pub dns_keyed : Keyed DnsEnt
dns_keyed = record {
  key = λ e. e.ip;
  fresh = λ k. record { ip = take (addr_room - 1) k; name = []; launched = false };
  room = addr_room;
  buckets = 256;
  key-fresh = λ k. refl;
}

abbrev pub Names : Type 0
Names = Buckets DnsEnt

-- what async_reverse_lookup gives: `out`, if it starts a worker, and the cache
pub record LookedUp : Type 0 where
  pub host : Bytes
  pub starts : Bool
  pub names : Names

abbrev pub launch : DnsEnt → DnsEnt
launch e = record e { launched = true }

unfoldable pub async_reverse_lookup : Names → Bytes → LookedUp
async_reverse_lookup names ip = elim (db_get dns_keyed names ip) [
  | none ↦ record { host = []; starts = true; names = db_put dns_keyed names ip launch }
  | some e ↦
      if e.launched
      then record { host = e.name; starts = false; names = names }
      else record { host = e.name; starts = true; names = db_put dns_keyed names ip launch }
]

-- `while (L && nb[L - 1] == '.') nb[--L] = 0`, and the snprintf into `host`; the text of getnameinfo
-- is empty if it failed
unfoldable pub host_of : Bytes → Bytes
host_of found = take 255 (trim_right b'.' found)

abbrev pub name_entry : Bytes → DnsEnt → DnsEnt
name_entry host e = record e { name = host }

-- the end of dns_worker
unfoldable pub dns_worker : Names → Bytes → Bytes → Names
dns_worker names ip found = db_put dns_keyed names ip (name_entry (host_of found))

-- what happens to the cache over time
pub data NameStep : Type 0 where
  sought : Bytes → NameStep
  answered : Bytes → Bytes → NameStep

-- how often a worker is started for `ip`
unfoldable pub starts_for : Bytes → Names → List NameStep → ℕ
starts_for ip names [] = 0
starts_for ip names (sought j ∷ steps) =
    let r = async_reverse_lookup names j in
    (if r.starts && same_text j ip then 1 else 0) + starts_for ip r.names steps
starts_for ip names (answered j found ∷ steps) = starts_for ip (dns_worker names j found) steps
