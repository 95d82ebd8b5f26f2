-- ===== src/Exec/Events/Exec.antt =====
-- handleExec of c/exec.c: what it records of the pid, and what it prints.
use mathlib.Core.Option
use tracep.Base.{
  Bool-cases, List, Option, Option-cases, [], ap, arith, false, if◌then◌else◌, inl, inr, length,
  ltb, ltb→ge, ltb→lt, none, not, refl, some, true, ℕ, ◌&&◌, ◌++◌, ◌+◌, ◌<◌, ◌==◌, ◌^◌, ◌↔◌, ◌∙◌,
  ◌≡◌, ◌≢◌, ◌≤◌, ◌⊎◌,
}
use tracep.Dns.Message.{written}
use tracep.Exec.Ancestry.{pid_depth}
use tracep.Exec.Ancestry.Depth.{HasDepth, Tells, pid_depth-Tells}
use tracep.Exec.Events.{
  PidEntry, Tracer, entry_at, entry_at-some, handle_exec, known_depth, new_entry, note_exec,
  old_line, or_empty, parent_of, replaced,
}
use tracep.Exec.Files.{first_arg}
use tracep.Exec.Line.{Options, Process, execed_line, print_exec}
use tracep.Exec.Netlink.Walk.{le32_within}
use tracep.Int.{pos}
use tracep.Memory.{Bytes, Returns, Returns-ok, Within-bind, le32, ok}
use tracep.PidTable.{Got, Slots, fill_in, table_cap}
use tracep.PidTable.Insert.{get_lem}
use tracep.PidTable.Probe.{IsTable, entry, entry-of_Holds}
use tracep.PidTable.Update.{entry-update, get-slot, update-IsTable}

-- The line for the program that was there before, by what the table held for the pid: there is one
-- only with show_exit and a name that is not empty.
abbrev pub execed_before : Options → Option PidEntry → ℕ → Bytes
execed_before o none pid = []
execed_before o (some e) pid =
    if o.show_exit && not (length (or_empty e.cmdline) == 0)
    then execed_line o e.depth (or_empty e.cmdline) pid
    else []

module _ (o : Options) (processes : ℕ → Process) where
  -- what the table holds for a pid after its exec
  abbrev pub exec_entry : ℕ → ℕ → ℕ → PidEntry
  exec_entry pid d ts = record {
    depth = d;
    start_ns = ts;
    cmdline = some (first_arg (processes pid).cmdline (processes pid).comm);
  }

  -- The pid has its new entry, every other pid the one it had, and the lines are those that
  -- execed_before gives for the old program, and the new one's.
  pub record Recorded (pid d ts : ℕ) (s s' : Tracer) : Type 0 where
    pub table : IsTable s'.table.slots
    pub mine : entry s'.table.slots pid ≡ some (exec_entry pid d ts)
    pub others : (q : ℕ) → q ≢ pid → entry s'.table.slots q ≡ entry s.table.slots q
    pub out :
        s'.out
        ≡ s.out
          ++ (execed_before o (entry s.table.slots pid) pid ++ print_exec o (processes pid) pid d)

  known_line_of : (pid : ℕ) (e : PidEntry) → old_line o false e pid ≡ execed_before o (some e) pid
  unfolding old_line
  known_line_of pid e = elim (Bool-cases o.show_exit) [ inl h ↦ rw h refl | inr h ↦ rw h refl ]

  new_line :
      (g : Got PidEntry) (pid : ℕ) → g.created ≡ true → replaced o g pid ≡ execed_before o none pid
  unfolding replaced old_line
  new_line g pid made =
      rw made (elim (Bool-cases o.show_exit) [ inl e ↦ rw e refl | inr e ↦ rw e refl ])

  known_line :
      (g : Got PidEntry) (pid : ℕ) (e : PidEntry)
      → g.created ≡ false
      → entry_at g.table.slots g.slot ≡ e
      → replaced o g pid ≡ execed_before o (some e) pid
  unfolding replaced
  known_line g pid e found at_old =
      ap (λ b. old_line o b (entry_at g.table.slots g.slot) pid) found
      ∙ (ap (λ x. old_line o false x pid) at_old ∙ known_line_of pid e)

  replaced-entry :
      (t : Slots PidEntry) (g : Got PidEntry) (pid : ℕ) (w : PidEntry)
      → g.table.slots g.slot ≡ some (pid, w)
      → entry g.table.slots pid ≡ some w
      → entry g.table.slots pid ≡ some (Option.get_or (entry t pid) new_entry)
      → ((g.created ≡ true) ↔ (entry t pid ≡ none))
      → replaced o g pid ≡ execed_before o (entry t pid) pid
  replaced-entry t g pid w at_slot held kept fresh = elim (Option-cases (entry t pid)) [
    | inl new ↦ let made : g.created ≡ true = fresh.1 new in rw new (new_line g pid made)
    | inr (e, old) ↦
        let found : g.created ≡ false = elim (Bool-cases g.created) [
          | inl made ↦ cc (fresh.0 made, old)
          | inr found ↦ found
        ] in
        let kept' : entry g.table.slots pid ≡ some e =
          kept ∙ ap (λ (x : Option PidEntry). some (Option.get_or x new_entry)) old in
        let same : w ≡ e = cc (held, kept') in
        let at_e : g.table.slots g.slot ≡ some (pid, e) =
          at_slot ∙ ap (λ (x : PidEntry). some (pid, x)) same in
        let at_old = entry_at-some g.table.slots g.slot pid e at_e in
        rw old (known_line g pid e found at_old)
  ]

  -- Where the table has a free slot, handleExec from piddb_get on records the pid.
  pub note_exec-Recorded :
      (pid d ts free : ℕ) (s : Tracer)
      → IsTable s.table.slots
      → free < table_cap
      → s.table.slots free ≡ none
      → (s' : Tracer) × (note_exec o processes pid d ts s ≡ ok s') × Recorded pid d ts s s'
  unfolding note_exec
  note_exec-Recorded pid d ts free s inv lt empty =
      let (g, got, inv', kept, others, made) = get_lem new_entry s.table pid free inv lt empty in
      let (w, lt', at_slot) = get-slot new_entry s.table pid g got in
      let held : entry g.table.slots pid ≡ some w =
        entry-of_Holds g.table.slots pid w inv' (g.slot, lt', at_slot) in
      let e = exec_entry pid d ts in
      let (mine, rest) = entry-update g.table.slots g.slot pid e w inv' lt' at_slot in
      let s' : Tracer = record {
        table = fill_in g pid e;
        out = s.out ++ (replaced o g pid ++ print_exec o (processes pid) pid d);
      } in
      (
        s',
        rw (got, note_exec) refl,
        record {
          table = update-IsTable g.table.slots g.slot pid e w inv' at_slot;
          mine = mine;
          others = λ q ne. rest q ne ∙ others q ne;
          out =
              ap (λ x. s.out ++ (x ++ print_exec o (processes pid) pid d))
                (replaced-entry s.table.slots g pid w at_slot held kept made);
        },
      )

  -- What an exec event leaves: it is too short, or its pid is below no watched one, or it has the
  -- depth that the table records.
  abbrev pub ExecHandled : List ℕ → Bytes → ℕ → ℕ → ℕ → Tracer → Tracer → Type 0
  ExecHandled watch d at len ts s s' =
      ((len < 8) × (s' ≡ s))
      ⊎ ((pid : ℕ) × (le32 d at ≡ ok pid)
          × ((((n : ℕ) → ¬ HasDepth watch (parent_of processes) (known_depth s.table.slots) pid n)
                × (s' ≡ s))
              ⊎ ((n : ℕ) × HasDepth watch (parent_of processes) (known_depth s.table.slots) pid n
                  × Recorded pid n ts s s')))

  -- Where every parent has a smaller rank than its child and no rank reaches the rounds, and the
  -- table has a free slot, handleExec ends on any event inside its buffer. An event that is too
  -- short, or whose pid has no depth, changes nothing; any other gives its pid a new entry with its
  -- depth, keeps every other entry, and prints the line of the new program, behind the line of the
  -- program that was there before where show_exit is on and the table held a name for the pid that
  -- is not empty.
  pub handle_exec-Recorded :
      (watch : List ℕ) (rank : ℕ → ℕ) (rounds : ℕ) (d : Bytes) (at len ts free : ℕ) (s : Tracer)
      → ((p q : ℕ) → parent_of processes p ≡ pos q → rank q < rank p)
      → ((p : ℕ) → rank p < rounds)
      → at + len ≤ length d
      → IsTable s.table.slots
      → free < table_cap
      → s.table.slots free ≡ none
      → Returns
          (ExecHandled watch d at len ts s)
          (handle_exec o processes watch rounds d at len ts s)
  unfolding handle_exec
  handle_exec-Recorded watch rank rounds d at len ts free s older enough inside inv lt empty =
      elim (Bool-cases (ltb len 8)) [
        | inl cut ↦ rw (cut, handle_exec) (inl (ltb→lt len 8 cut, refl))
        | inr long ↦
            let room : 8 ≤ len = ltb→ge len 8 long in
            let (pid, e, _) =
              Returns-ok (λ v. v < 2 ^ 32) (le32 d at) (le32_within d at (omega arith)) in
            rw (long, handle_exec, e)
              (Within-bind ⊥ (Tells watch (parent_of processes) (known_depth s.table.slots) pid)
                (ExecHandled watch d at len ts s)
                (pid_depth watch (parent_of processes) (known_depth s.table.slots) rounds pid) _
                (pid_depth-Tells watch (parent_of processes) (known_depth s.table.slots) rank older
                  rounds pid (enough pid))
                (elim [
                  | none ↦ λ lost. inr (pid, e, inl (lost, refl))
                  | some n ↦ λ h.
                      let (s', got, written) = note_exec-Recorded pid n ts free s inv lt empty in
                      rw got (inr (pid, e, inr (n, h, written)))
                ]))
      ]
