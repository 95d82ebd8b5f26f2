-- ===== src/Exec/Events/Full.antt =====
-- handleExec of c/exec.c on a table with no free slot.

use tracep.Base.{refl, some, ℕ, ◌<◌, ◌≡◌, ◌≢◌}
use tracep.Exec.Events.{Tracer, new_entry, note_exec}
use tracep.Exec.Line.{Options, Process}
use tracep.Memory.{fault}
use tracep.PidTable.{Slots, table_cap}
use tracep.PidTable.Update.{get_full}

module _ {V : Type 0} where
  -- Every slot holds the entry of another pid.
  abbrev pub IsFullOfOthers : Slots V → ℕ → Type 0
  IsFullOfOthers t pid =
      (i : ℕ) → i < table_cap → (p : ℕ) × (v : V) × (t i ≡ some (p, v)) × (p ≢ pid)

module _ (o : Options) (processes : ℕ → Process) where
  -- Where every slot of the table holds another pid, handleExec of a pid that has a depth writes
  -- through the NULL that piddb_get returns.
  pub note_exec-IsFullOfOthers :
      (pid d ts : ℕ) (s : Tracer)
      → IsFullOfOthers s.table.slots pid
      → note_exec o processes pid d ts s ≡ fault
  unfolding note_exec
  note_exec-IsFullOfOthers pid d ts s full =
      rw (get_full new_entry s.table pid full, note_exec) refl
