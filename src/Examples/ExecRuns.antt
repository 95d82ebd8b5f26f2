-- ===== src/Examples/ExecRuns.antt =====
-- c/exec.c at concrete processes: a shell 42 whose parent is the watched process 7.
use tracep.Base.{
  Bool-cases, List, [], arith, false, if◌then◌else◌, inl, inr, ltb, ltb→ge, none, refl, replicate,
  some, true, ℕ, ◌++◌, ◌+◌, ◌<◌, ◌==◌, ◌^◌, ◌∷◌, ◌≡◌,
}
use tracep.Exec.Ancestry.{pid_depth}
use tracep.Exec.Ancestry.Depth.{Tells, pid_depth-Tells}
use tracep.Exec.Events.{PidEntry, Tracer, handle_exec, handle_exit, new_entry, note_exec, parent_of}
use tracep.Exec.Events.Exec.{ExecHandled, handle_exec-Recorded}
use tracep.Exec.Events.Exit.{ExitHandled, handle_exit-Forgotten}
use tracep.Exec.Events.Full.{note_exec-IsFullOfOthers}
use tracep.Exec.Files.{first_arg, read_args, stat_ppid}
use tracep.Exec.Line.{Options, Process, indent_loop, print_exec}
use tracep.Exec.Netlink.{dispatch}
use tracep.Exec.Netlink.Walk.{Handles, dispatch-Within, le32_within}
use tracep.Int.{pos}
use tracep.Memory.{Bytes, Outcome, Returns, Returns-ok, Within, fault, le32, ok, ◌>>=◌}
use tracep.PidTable.{Slots}
use tracep.PidTable.Probe.{IsTable}
use tracep.Text.{codes}

abbrev argv : List Bytes
argv = codes "grep" ∷ [] ∷ []

read_args_run :
    read_args (some (codes "ls" ++ 0 ∷ codes "-l" ++ 0 ∷ [])) ≡ codes "ls" ∷ codes "-l" ∷ []
unfolding read_args
read_args_run = refl

stat_ppid_run : stat_ppid (some (codes "42 (a) R) S 7 42 42")) ≡ pos 7
unfolding stat_ppid
stat_ppid_run = refl

first_arg_run : first_arg (some (codes "/usr/bin/env")) none ≡ codes "env"
unfolding first_arg
first_arg_run = refl

first_arg_slash_run : first_arg (some (codes "bin/")) none ≡ codes "/"
unfolding first_arg
first_arg_slash_run = refl

abbrev shell : Process
shell = record {
  user = codes "root";
  cwd = codes "/";
  exe = [];
  cmdline = some (codes "/bin/sh" ++ 0 ∷ []);
  comm = some (codes "sh");
  environ = none;
  stat = some (codes "42 (sh) S 7 42 42");
}

abbrev gone : Process
gone = record {
  user = codes "?";
  cwd = [];
  exe = [];
  cmdline = none;
  comm = none;
  environ = none;
  stat = none;
}

abbrev processes : ℕ → Process
processes pid = if pid == 42 then shell else gone

abbrev options : Options
options = record {
  flat = false;
  color = false;
  full_path = false;
  show_args = true;
  show_cwd = false;
  show_env = false;
  show_exit = true;
  show_user = true;
}

print_exec_run : print_exec options shell 42 1 ≡ codes "  42+ <root> /bin/sh\n"
unfolding print_exec indent_loop
print_exec_run = refl

abbrev rank : ℕ → ℕ
rank pid = if pid == 42 then 1 else 0

parent_of_shell : parent_of processes 42 ≡ pos 7
unfolding parent_of
parent_of_shell = refl

older : (p q : ℕ) → parent_of processes p ≡ pos q → rank q < rank p
unfolding parent_of
older p q e = elim (Bool-cases (p == 42)) [
  | inl same ↦
      let e' : pos 7 ≡ pos q = rw (same, parent_of) at e in
      let at_7 : q ≡ 7 = cc in rw same (ground (arith, at_7))
  | inr other ↦ cc (rw (other, parent_of) at e)
]

rank_low : (p : ℕ) → rank p < 2
rank_low p = ground arith

pid_depth-Tells_example :
    Returns
      (Tells (7 ∷ []) (parent_of processes) (λ p. none) 42)
      (pid_depth (7 ∷ []) (parent_of processes) (λ p. none) 2 42)
pid_depth-Tells_example =
    pid_depth-Tells (7 ∷ []) (parent_of processes) (λ p. none) rank older 2 42 (rank_low 42)

abbrev no_pids : Slots PidEntry
no_pids p = none

no_pids-IsTable : IsTable no_pids
no_pids-IsTable = record { unique = λ i j q v w hi hj ei ej. cc; reached = λ i q v hi e. cc }

abbrev idle : Tracer
idle = record { table = record { slots = no_pids; len = 0 }; out = [] }

abbrev exec_data : Bytes
exec_data = 42 ∷ 0 ∷ 0 ∷ 0 ∷ replicate 20 0

handle_exec-Recorded_example :
    Returns
      (ExecHandled options processes (7 ∷ []) exec_data 0 8 1000 idle)
      (handle_exec options processes (7 ∷ []) 2 exec_data 0 8 1000 idle)
handle_exec-Recorded_example =
    handle_exec-Recorded options processes (7 ∷ []) rank 2 exec_data 0 8 1000 0 idle older rank_low
      (omega arith) no_pids-IsTable (omega arith) refl

abbrev time_text : ℕ → Bytes
time_text ns = codes "time=0.000s"

handle_exit-Forgotten_example :
    Returns
      (ExitHandled options time_text exec_data 0 24 2000 idle)
      (handle_exit options time_text exec_data 0 24 2000 idle)
handle_exit-Forgotten_example =
    handle_exit-Forgotten options time_text exec_data 0 24 2000 0 idle (omega arith) no_pids-IsTable
      (omega arith) refl

-- one message, of an exec of pid 42
abbrev event : Bytes
event =
    60 ∷ 0 ∷ 0 ∷ 0 ∷ replicate 12 0
    ++ (1 ∷ 0 ∷ 0 ∷ 0 ∷ 1 ∷ 0 ∷ 0 ∷ 0 ∷ replicate 12 0
        ++ (2 ∷ 0 ∷ 0 ∷ 0 ∷ replicate 12 0 ++ (42 ∷ replicate 7 0)))

-- handlers that keep the pids they are called for
abbrev keep : Bytes → ℕ → ℕ → ℕ → List ℕ → Outcome (List ℕ)
keep d at len ts s = if ltb len 4 then ok s else do pid ← le32 d at; ok (pid ∷ s)

dispatch_run : dispatch keep keep 4 event 60 0 [] ≡ ok (42 ∷ [])
unfolding dispatch
dispatch_run = refl

keep-Handles : Handles keep keep ⊥ (λ s. Unit {0}) event keep
keep-Handles at len ts s fits inv = elim (Bool-cases (ltb len 4)) [
  | inl cut ↦ rw cut tt
  | inr long ↦
      let room = ltb→ge len 4 long in
      let (pid, e, _) =
        Returns-ok (λ v. v < 2 ^ 32) (le32 event at) (le32_within event at (omega arith)) in
      rw (long, e) tt
]

dispatch-Within_example : Within ⊥ (λ s. Unit {0}) (dispatch keep keep 4 event 60 0 [])
dispatch-Within_example =
    dispatch-Within keep keep ⊥ (λ s. Unit {0}) event 60 (omega arith) keep-Handles keep-Handles 4 0
      [] (omega arith) (omega arith) tt

-- the pids from 1 to 16384
abbrev all_used : Slots PidEntry
all_used i = some (i + 1, new_entry)

note_exec-IsFullOfOthers_example :
    note_exec options processes 99999 1 1000
      (record { table = record { slots = all_used; len = 16384 }; out = [] })
    ≡ fault
note_exec-IsFullOfOthers_example =
    note_exec-IsFullOfOthers options processes 99999 1 1000
      (record { table = record { slots = all_used; len = 16384 }; out = [] })
      (λ i lt. (i + 1, new_entry, refl, omega arith))
