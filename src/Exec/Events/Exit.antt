-- ===== src/Exec/Events/Exit.antt =====
-- handleExit of c/exec.c: the table and the line.

use mathlib.Core.List.{append-nil}
use tracep.Base.{
  Bool-cases, Option, Option-cases, [], ap, arith, inl, inr, length, ltb, ltb→ge, ltb→lt, none,
  refl, some, sym, ℕ, ◌++◌, ◌+◌, ◌<◌, ◌^◌, ◌∙◌, ◌≡◌, ◌≢◌, ◌≤◌, ◌⊎◌,
}
use tracep.Exec.Events.{
  PidEntry, Tracer, entry_at-some, handle_exit, left_line, new_entry, note_exit,
}
use tracep.Exec.Line.{Options}
use tracep.Exec.Netlink.Walk.{le32_within}
use tracep.Memory.{Bytes, Returns, Returns-ok, Within-bind, Within-map, le32, ok}
use tracep.PidTable.{delete, find, table_cap}
use tracep.PidTable.Delete.{Deleted, delete-Deleted}
use tracep.PidTable.Probe.{IsTable, entry, find_sound}

-- The line of an exit, by what the table held for the pid.
pub exited : Options → (ℕ → Bytes) → Option PidEntry → ℕ → ℕ → ℕ → Bytes
exited o time_text none pid status ts = []
exited o time_text (some e) pid status ts = left_line o time_text e pid status ts

module _ (o : Options) (time_text : ℕ → Bytes) where
  -- The table has no entry for the pid, and all others, and the line is its own.
  pub record Forgotten (pid status ts : ℕ) (s s' : Tracer) : Type 0 where
    pub table : IsTable s'.table.slots
    pub mine : entry s'.table.slots pid ≡ none
    pub others : (q : ℕ) → q ≢ pid → entry s'.table.slots q ≡ entry s.table.slots q
    pub out : s'.out ≡ s.out ++ exited o time_text (entry s.table.slots pid) pid status ts

  -- Where the table has a free slot, handleExit behind its reads forgets the pid.
  pub note_exit-Forgotten :
      (pid status ts free : ℕ) (s : Tracer)
      → IsTable s.table.slots
      → free < table_cap
      → s.table.slots free ≡ none
      → Returns (Forgotten pid status ts s) (note_exit o time_text pid status ts s)
  unfolding note_exit exited entry
  note_exit-Forgotten pid status ts free s inv lt empty =
      elim (Option-cases (find s.table.slots pid)) [
        | inl absent ↦
            let unknown : entry s.table.slots pid ≡ none = rw (absent, entry) refl in
            rw (absent, note_exit)
              (record {
                table = inv;
                mine = unknown;
                others = λ q ne. refl;
                out = rw unknown (sym (append-nil s.out));
              })
        | inr (slot, found) ↦
            let (e, _, at_slot) = find_sound s.table.slots pid slot found in
            let known : entry s.table.slots pid ≡ some e = rw (found, entry, at_slot) refl in
            rw (found, note_exit)
              (Within-bind ⊥ (Deleted s.table.slots pid) (Forgotten pid status ts s)
                (delete new_entry s.table pid) _
                (delete-Deleted new_entry s.table pid free inv lt empty)
                (λ table (inv', gone, others). record {
                  table = inv';
                  mine = gone;
                  others = others;
                  out =
                      ap (λ (x : PidEntry). s.out ++ left_line o time_text x pid status ts)
                        (entry_at-some s.table.slots slot pid e at_slot)
                      ∙ ap (λ x. s.out ++ exited o time_text x pid status ts) (sym known);
                }))
      ]

  -- What an exit event leaves: it is too short, or the pid of its data is forgotten.
  abbrev pub ExitHandled : Bytes → ℕ → ℕ → ℕ → Tracer → Tracer → Type 0
  ExitHandled d at len ts s s' =
      ((len < 24) × (s' ≡ s))
      ⊎ ((pid status : ℕ) × (le32 d at ≡ ok pid)
          × (le32 d (at + 8) ≡ ok status)
          × Forgotten pid status ts s s')

  -- From a table with a free slot, handleExit ends on any event inside its buffer. An event that is
  -- too short changes nothing; any other takes its pid out of the table, keeps every other entry,
  -- and prints the line of the pid only if the table knew it.
  pub handle_exit-Forgotten :
      (d : Bytes) (at len ts free : ℕ) (s : Tracer)
      → at + len ≤ length d
      → IsTable s.table.slots
      → free < table_cap
      → s.table.slots free ≡ none
      → Returns (ExitHandled d at len ts s) (handle_exit o time_text d at len ts s)
  unfolding handle_exit
  handle_exit-Forgotten d at len ts free s inside inv lt empty = elim (Bool-cases (ltb len 24)) [
    | inl cut ↦ rw (cut, handle_exit) (inl (ltb→lt len 24 cut, refl))
    | inr long ↦
        let room : 24 ≤ len = ltb→ge len 24 long in
        let (pid, e, _) =
          Returns-ok (λ v. v < 2 ^ 32) (le32 d at) (le32_within d at (omega arith)) in
        let (status, e', _) =
          Returns-ok (λ v. v < 2 ^ 32) (le32 d (at + 8)) (le32_within d (at + 8) (omega arith)) in
        rw (long, handle_exit, e, e')
          (Within-map (Forgotten pid status ts s) (ExitHandled d at len ts s)
            (note_exit o time_text pid status ts s) (λ s' h. inr (pid, status, e, e', h))
            (note_exit-Forgotten pid status ts free s inv lt empty))
  ]
