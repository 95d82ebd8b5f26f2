-- ===== src/Net/Watch.antt =====
-- Which processes c/net.c watches: stat_ppid, is_descendant and is_watched. A pid is the bit pattern of
-- its int32_t. `stat` gives the content of /proc/<pid>/stat at the time of the event, none if it cannot
-- be read. The array `seen` is a list; its free places bound the loop.
pub mod Climbs
pub mod Ancestors
use tracep.Base.{
  Bool, List, Option, [], false, if◌then◌else◌, ltb, none, not, some, suc, take, true, zero, ℕ,
  ◌&&◌, ◌++◌, ◌-◌, ◌==◌, ◌^◌, ◌∷◌,
}
use tracep.Exec.Files.{after_last}
use tracep.Int.{int32}
use tracep.Memory.{Bytes, cstr}
use tracep.Text.{strtol}
use tracep.Text.Hex.{fields_of}

-- `p > 0`, and `p > 1`
abbrev pub is_above : ℕ → ℕ → Bool
is_above n p = ltb n p && ltb p (2 ^ 31)

-- a loop over an array of pids
unfoldable pub pid_in : List ℕ → ℕ → Bool
pid_in [] p = false
pid_in (q ∷ qs) p = if q == p then true else pid_in qs p

-- -1
abbrev pub no_pid : ℕ
no_pid = 2 ^ 32 - 1

-- the number in the second field, as strtol reads it, cut to 32 bits
unfoldable pub ppid_of_fields : List Bytes → ℕ
unfolding strtol int32
ppid_of_fields (state ∷ f ∷ more) = (let r = strtol f in if r.any then int32 r.value else no_pid)
ppid_of_fields fields = no_pid

-- stat_ppid; `sizeof data - 1` is 8191
unfoldable pub stat_ppid : Option Bytes → ℕ
unfolding after_last cstr fields_of ppid_of_fields
stat_ppid none = no_pid
stat_ppid (some content) = elim (after_last b')' (take 8191 content)) [
  | none ↦ no_pid
  | some rest ↦ ppid_of_fields (fields_of (cstr rest))
]

-- one round of the loop of is_descendant behind the tests of `seen`: it ends without a result, with
-- one, or it goes on from the parent
pub data Climb : Type 0 where
  give_up : Climb
  reached : Climb
  climb_on : ℕ → Climb

abbrev pub seen_max : ℕ
seen_max = 256

module _ (watch : List ℕ) (stat : ℕ → Option Bytes) where
  unfoldable pub climb : ℕ → Climb
  unfolding pid_in stat_ppid
  climb p =
      let ppid = stat_ppid (stat p) in
      if not (is_above 0 ppid)
      then give_up
      else if pid_in watch ppid
      then reached
      else climb_on ppid

  -- the loop, with the places of `seen` that are free
  unfoldable pub descends : ℕ → List ℕ → ℕ → Bool
  descends zero seen p = false
  descends (suc left) seen p = elim (is_above 1 p && not (pid_in seen p)) [
    | false ↦ false
    | true ↦ elim (climb p) [
      | give_up ↦ false
      | reached ↦ true
      | climb_on q ↦ descends left (seen ++ p ∷ []) q
    ]
  ]

  unfoldable pub is_descendant : ℕ → Bool
  unfolding descends
  is_descendant pid = descends seen_max [] pid

  unfoldable pub is_watched : ℕ → Bool
  unfolding is_descendant pid_in
  is_watched pid =
      if not (is_above 0 pid) then false else if pid_in watch pid then true else is_descendant pid
