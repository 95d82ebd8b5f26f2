-- ===== src/Tls/Names.antt =====
-- The server names of c/tls.c, one for each pid: set_sni and get_sni. The array is a list of its slots,
-- each with a pid and a host, or not set. The loop of set_sni looks for the slot of the pid and for the
-- first one that is free, which are two functions here.
pub mod Kept
use mathlib.Core.Option
use tracep.Base.{
  Bool, List, Option, [], false, if◌then◌else◌, none, set, some, suc, take, true, ℕ, ◌%◌, ◌==◌, ◌∷◌,
}
use tracep.Memory.{Bytes}

abbrev pub SniSlots : Type 0
SniSlots = List (Option (ℕ × Bytes))

-- MAX_SNI
abbrev pub max_sni : ℕ
max_sni = 1024

-- `sni_cache[i].set && sni_cache[i].pid == pid`
unfoldable pub is_of : ℕ → Option (ℕ × Bytes) → Bool
is_of pid none = false
is_of pid (some (q, host)) = q == pid

unfoldable pub own_slot : ℕ → SniSlots → Option ℕ
own_slot pid [] = none
own_slot pid (x ∷ c) = elim (is_of pid x) [
  | true ↦ some 0
  | false ↦ Option.map suc (own_slot pid c)
]

unfoldable pub free_slot : SniSlots → Option ℕ
free_slot [] = none
free_slot (none ∷ c) = some 0
free_slot (some e ∷ c) = Option.map suc (free_slot c)

-- the slot that is written; `sizeof host - 1` is 255
unfoldable pub slot_for : ℕ → SniSlots → ℕ
slot_for pid c = elim (own_slot pid c) [
  | some i ↦ i
  | none ↦ elim (free_slot c) [ some i ↦ i | none ↦ pid % max_sni ]
]

unfoldable pub set_sni : ℕ → Bytes → SniSlots → SniSlots
set_sni pid host c = set c (slot_for pid c) (some (pid, take 255 host))

unfoldable pub get_sni : ℕ → SniSlots → Bytes
get_sni pid [] = []
get_sni pid (none ∷ c) = get_sni pid c
get_sni pid (some (q, host) ∷ c) = if q == pid then host else get_sni pid c
