-- ===== src/Exec/Events.antt =====
-- handleExec and handleExit of c/exec.c on Linux: the table of pids, and what is printed. `processes`
-- is what the pids show of themselves while the event is handled, and `rounds` bounds pidDepth.
pub mod Exec
pub mod Exit
pub mod Full
use mathlib.Core.Option
use tracep.Base.{
  Bool, List, Option, [], if◌then◌else◌, length, ltb, none, not, refl, some, ℕ, ◌%◌, ◌&&◌, ◌++◌,
  ◌+◌, ◌-◌, ◌==◌, ◌^◌, ◌≡◌,
}
use tracep.Exec.Ancestry.{pid_depth}
use tracep.Exec.Files.{first_arg, stat_ppid}
use tracep.Exec.Line.{Options, Process, execed_line, exit_line, print_exec}
use tracep.Int.{ℤ}
use tracep.Memory.{Bytes, Outcome, fault, le32, ok, ◌>>=◌}
use tracep.PidTable.{Got, Slots, Table, delete, fill_in, find, get}
use tracep.PidTable.Probe.{entry}

-- pidEntry without its key
pub record PidEntry : Type 0 where
  pub depth : ℕ
  pub start_ns : ℕ
  pub cmdline : Option Bytes

-- what piddb_get puts into a new entry
abbrev pub new_entry : PidEntry
new_entry = record { depth = 0; start_ns = 0; cmdline = none }

-- pidDB, and what has been written to `out`
pub record Tracer : Type 0 where
  pub table : Table PidEntry
  pub out : Bytes

-- `cmdline ? cmdline : ""`
abbrev pub or_empty : Option Bytes → Bytes
or_empty none = []
or_empty (some s) = s

-- the entry that a pointer into the table points at
pub entry_at : Slots PidEntry → ℕ → PidEntry
entry_at t slot = elim (t slot) [ none ↦ new_entry | some (q, e) ↦ e ]

-- piddb_find(pid)->depth
pub known_depth : Slots PidEntry → ℕ → Option ℕ
unfolding entry
known_depth t pid = Option.map (λ (e : PidEntry). e.depth) (entry t pid)

-- statPPID of a pid
unfoldable pub parent_of : (ℕ → Process) → ℕ → ℤ
unfolding stat_ppid
parent_of processes pid = stat_ppid (processes pid).stat

-- The line for the program that the exec replaces, unless the entry is new or has no name.
pub old_line : Options → Bool → PidEntry → ℕ → Bytes
old_line o created old pid =
    if o.show_exit && not created && not (length (or_empty old.cmdline) == 0)
    then execed_line o old.depth (or_empty old.cmdline) pid
    else []

pub replaced : Options → Got PidEntry → ℕ → Bytes
replaced o g pid = old_line o g.created (entry_at g.table.slots g.slot) pid

-- What handleExit prints of the entry that it has saved; the elapsed time is a uint64_t.
pub left_line : Options → (ℕ → Bytes) → PidEntry → ℕ → ℕ → ℕ → Bytes
left_line o time_text saved pid status ts =
    if o.show_exit
    then exit_line o time_text saved.depth (or_empty saved.cmdline) pid status
        ((ts + 2 ^ 64 - saved.start_ns) % 2 ^ 64)
    else []

module _ (o : Options) (processes : ℕ → Process) where
  -- handleExec from piddb_get on, for a pid of depth `d`
  unfoldable pub note_exec : ℕ → ℕ → ℕ → Tracer → Outcome Tracer
  note_exec pid d ts s = elim (get new_entry s.table pid) [
    | none ↦ fault
    | some g ↦
        let p = processes pid in
        let e : PidEntry = record {
          depth = d;
          start_ns = ts;
          cmdline = some (first_arg p.cmdline p.comm);
        } in
        ok (record {
          table = fill_in g pid e;
          out = s.out ++ (replaced o g pid ++ print_exec o p pid d);
        })
  ]

  -- handleExec of the `len` bytes at offset `at`
  unfoldable pub handle_exec : List ℕ → ℕ → Bytes → ℕ → ℕ → ℕ → Tracer → Outcome Tracer
  handle_exec watch rounds d at len ts s = if ltb len 8 then ok s else do
    pid ← le32 d at
    depth ← pid_depth watch (parent_of processes) (known_depth s.table.slots) rounds pid
    elim depth [ none ↦ ok s | some n ↦ note_exec pid n ts s ]

module _ (o : Options) (time_text : ℕ → Bytes) where
  -- handleExit from piddb_find on
  unfoldable pub note_exit : ℕ → ℕ → ℕ → Tracer → Outcome Tracer
  note_exit pid status ts s = elim (find s.table.slots pid) [
    | none ↦ ok s
    | some slot ↦
        let saved = entry_at s.table.slots slot in
        delete new_entry s.table pid >>= λ table.
        ok (record { table = table; out = s.out ++ left_line o time_text saved pid status ts })
  ]

  -- handleExit of the `len` bytes at offset `at`
  unfoldable pub handle_exit : Bytes → ℕ → ℕ → ℕ → Tracer → Outcome Tracer
  handle_exit d at len ts s =
      if ltb len 24
      then ok s
      else do pid ← le32 d at; status ← le32 d (at + 8); note_exit pid status ts s

pub entry_at-some :
    (t : Slots PidEntry) (k q : ℕ) (e : PidEntry) → t k ≡ some (q, e) → entry_at t k ≡ e
unfolding entry_at
entry_at-some t k q e h = rw (h, entry_at) refl
