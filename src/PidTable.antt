-- ===== src/PidTable.antt =====
-- The open-addressing map from pids to entries that c/exec.c holds twice: piddb_find, piddb_get and
-- piddb_delete on Linux, macdb_find, macdb_get and macdb_delete on macOS. The two differ in the
-- fields of an entry, which are the type `V` here, and in what a new entry holds, which is `fresh`.
-- A pid is the bit pattern of its int32_t. An unused slot is none: its other fields are never read.
-- `len` is the counter of used slots, which the code keeps and never tests.
pub mod Probe
pub mod Free
pub mod Insert
pub mod Cluster
pub mod Round
pub mod Delete
pub mod Update
use mathlib.Core.Option
use tracep.Base.{
  Bool, Option, false, if◌then◌else◌, none, some, suc, true, zero, ℕ, ◌%◌, ◌*◌, ◌+◌, ◌-◌, ◌==◌, ◌^◌,
}
use tracep.Memory.{Outcome, fault, ok, spin}

-- PIDDB_CAP and MACDB_CAP
abbrev pub table_cap : ℕ
table_cap = 16384

-- `((unsigned)pid * 2654435761u) & (PIDDB_CAP - 1)`, the mask of a power of two
unfoldable pub pid_hash : ℕ → ℕ
pid_hash pid = pid * 2654435761 % 2 ^ 32 % table_cap

module _ (V : Type 0) where
  abbrev pub Slots : Type 0
  Slots = ℕ → Option (ℕ × V)

  pub record Table : Type 0 where
    pub slots : ℕ → Option (ℕ × V)
    pub len : ℕ

  -- the entry's slot, `*created`, and the table
  pub record Got : Type 0 where
    pub slot : ℕ
    pub created : Bool
    pub table : Table

module _ {V : Type 0} where
  -- `db[k] = e`
  abbrev pub put_slot : Slots V → ℕ → Option (ℕ × V) → Slots V
  put_slot t k e i = if i == k then e else t i

  -- the loop of piddb_find over the probes that are left
  pub probe_find : ℕ → Slots V → ℕ → ℕ → Option ℕ
  probe_find zero t pid i = none
  probe_find (suc n) t pid i = elim (t (i % table_cap)) [
    | none ↦ none
    | some (q, v) ↦ elim (q == pid) [
      | true ↦ some (i % table_cap)
      | false ↦ probe_find n t pid (i + 1)
    ]
  ]

  -- the slot of the entry of `pid`, or none for NULL
  unfoldable pub find : Slots V → ℕ → Option ℕ
  unfolding probe_find pid_hash
  find t pid = probe_find table_cap t pid (pid_hash pid)

  -- the loop of piddb_get: a slot, and whether it is to be made
  pub probe_get : ℕ → Slots V → ℕ → ℕ → Option (ℕ × Bool)
  probe_get zero t pid i = none
  probe_get (suc n) t pid i = elim (t (i % table_cap)) [
    | none ↦ some (i % table_cap, true)
    | some (q, v) ↦ elim (q == pid) [
      | true ↦ some (i % table_cap, false)
      | false ↦ probe_get n t pid (i + 1)
    ]
  ]

  -- the slot that the loop ended on; a new entry is counted
  abbrev pub settle : V → Table V → ℕ → ℕ × Bool → Got V
  settle fresh t pid (i, created) =
      if created
      then record {
        slot = i;
        created = true;
        table = record { slots = put_slot t.slots i (some (pid, fresh)); len = t.len + 1 };
      }
      else record { slot = i; created = false; table = t }

  -- none is the NULL of a full table
  unfoldable pub get : V → Table V → ℕ → Option (Got V)
  unfolding probe_get pid_hash
  get fresh t pid = Option.map (settle fresh t pid) (probe_get table_cap t.slots pid (pid_hash pid))

  -- `used = false`, and the counter
  abbrev pub clear : Table V → ℕ → Table V
  clear t k = record { slots = put_slot t.slots k none; len = t.len - 1 }

  -- the assignments to the fields of `*ne`
  abbrev pub fill_in : Got V → ℕ → V → Table V
  fill_in g pid v = record g.table { slots = put_slot g.table.slots g.slot (some (pid, v)) }

  -- The `for (;;)` that puts the cluster behind slot `j` back in, with a number of rounds. A `ne` that
  -- is NULL is a fault.
  pub reinsert : ℕ → V → Table V → ℕ → Outcome (Table V)
  unfolding get
  reinsert zero fresh t j = spin
  reinsert (suc n) fresh t j =
      let k = (j + 1) % table_cap in
      elim (t.slots k) [
        | none ↦ ok t
        | some (q, v) ↦ elim (get fresh (clear t k) q) [
          | none ↦ fault
          | some g ↦ reinsert n fresh (fill_in g q v) k
        ]
      ]

  unfoldable pub delete : V → Table V → ℕ → Outcome (Table V)
  unfolding find reinsert
  delete fresh t pid = elim (find t.slots pid) [
    | none ↦ ok t
    | some slot ↦ reinsert table_cap fresh (clear t slot) slot
  ]
