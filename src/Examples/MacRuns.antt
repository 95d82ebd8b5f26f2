-- ===== src/Examples/MacRuns.antt =====
-- The macOS backend of c/exec.c at concrete inputs.
use tracep.Base.{All, [], arith, false, if◌then◌else◌, none, refl, some, true, ◌==◌, ◌∷◌, ◌≡◌}
use tracep.Exec.Line.{Options, Process}
use tracep.Exec.Mac.{MacEntry, mac_emit_exec, new_mac}
use tracep.Exec.Mac.Scan.{goners_from, hash_among, is_live, max_goners, pid_among}
use tracep.Exec.Mac.Scan.Goners.{IsAmong, goners_from-exact}
use tracep.Exec.Procargs.{pid_argv_env}
use tracep.Exec.Procargs.Reading.{pid_argv_env-procargs, procargs}
use tracep.Memory.{ok}
use tracep.PidTable.{Slots, pid_hash, table_cap}
use tracep.Text.{codes}

pid_argv_env-procargs_example :
    pid_argv_env true
      (some (procargs (codes "/bin/ls") 2 (codes "ls") (codes "-l" ∷ []) (codes "A=1" ∷ [])))
    ≡ ok (some (codes "ls" ∷ codes "-l" ∷ [], codes "A=1" ∷ []))
pid_argv_env-procargs_example =
    pid_argv_env-procargs (codes "/bin/ls") 2 (codes "ls") (codes "-l" ∷ []) (codes "A=1" ∷ [])
      (omega arith) (omega arith) (omega arith)
      (record { some_text = omega arith; no_nul = omega arith }, tt) (omega arith) (omega arith)
      true

abbrev two_slots : Slots MacEntry
two_slots i = if i == 3 then some (7, new_mac) else if i == 5 then some (9, new_mac) else none

one_goner : goners_from table_cap 0 max_goners two_slots (9 ∷ []) ≡ 7 ∷ []
unfolding goners_from is_live hash_among pid_among pid_hash
one_goner = refl

goners_from-exact_example :
    IsAmong 7 (goners_from table_cap 0 max_goners two_slots (9 ∷ []))
    × All
        (λ p. pid_among (9 ∷ []) p ≡ false)
        (goners_from table_cap 0 max_goners two_slots (9 ∷ []))
unfolding pid_among
goners_from-exact_example =
    goners_from-exact two_slots (9 ∷ []) 3 7 new_mac (rw one_goner (omega arith)) (omega arith) refl
      refl

abbrev options : Options
options = record {
  flat = false;
  color = false;
  full_path = false;
  show_args = true;
  show_cwd = false;
  show_env = false;
  show_exit = true;
  show_user = false;
}

abbrev ls : Process
ls = record {
  user = codes "me";
  cwd = codes "/";
  exe = codes "/bin/ls";
  cmdline = none;
  comm = none;
  environ = none;
  stat = none;
}

-- No arguments are to be had: the name of the program stands in brackets.
emit_run : mac_emit_exec options ls 42 1 ≡ ok (codes "  42+ [ls]\n")
unfolding mac_emit_exec
emit_run = refl
