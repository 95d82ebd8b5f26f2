-- ===== src/Exec/Mac.antt =====
-- The polling backend of c/exec.c on macOS: macPidDepth, macIndentStr, macEmitExec, macEmitExit,
-- seedMacDB and scanMacDB, over the table of PidTable. What proc_listallpids, sysctl, proc_pidpath and
-- the like tell is a parameter: of a Process, `exe` is the path and `cmdline` the buffer of
-- KERN_PROCARGS2. A depth of -1 is none. `rounds` bounds macPidDepth, which calls itself.
pub mod Scan
use mathlib.Core.Option
use tracep.Base.{
  Bool, List, Option, [], false, if◌then◌else◌, length, none, not, some, suc, true, zero, ℕ, ◌&&◌,
  ◌++◌, ◌+◌, ◌==◌, ◌||◌, ◌∷◌,
}
use tracep.Common.{quoted}
use tracep.Exec.Ancestry.{is_watch_root, one_more}
use tracep.Exec.Files.{after_slash}
use tracep.Exec.Line.{
  Options, Process, args_text, cwd_text, env_text, indent_loop, paint, pid_text, user_text,
}
use tracep.Exec.Procargs.{pid_argv_env}
use tracep.Memory.{Bytes, Outcome, ok, print_s, spin, ◌>>=◌}
use tracep.Text.{codes}

-- macEntry without its key
pub record MacEntry : Type 0 where
  pub ppid : ℕ
  pub uid : ℕ
  pub start_sec : ℕ
  pub start_usec : ℕ
  pub argv0 : Option Bytes
  pub depth : Option ℕ

-- what macdb_get puts into a new entry
abbrev pub new_mac : MacEntry
new_mac = record { ppid = 0; uid = 0; start_sec = 0; start_usec = 0; argv0 = none; depth = none }

-- what bsdInfo gives of a pid
pub record BsdInfo : Type 0 where
  pub ppid : ℕ
  pub uid : ℕ
  pub start_sec : ℕ
  pub start_usec : ℕ

module _ (watch : List ℕ) (info : ℕ → Option BsdInfo) (known : ℕ → Option ℕ) where
  unfoldable pub mac_pid_depth : ℕ → ℕ → Outcome (Option ℕ)
  unfolding is_watch_root
  mac_pid_depth zero pid = spin
  mac_pid_depth (suc rounds) pid = elim (is_watch_root watch pid) [
    | true ↦ ok (some 0)
    | false ↦ elim (info pid) [
      | none ↦ ok none
      | some b ↦ elim (b.ppid == 0 || b.ppid == pid) [
        | true ↦ ok none
        | false ↦ elim (is_watch_root watch b.ppid) [
          | true ↦ ok (some 0)
          | false ↦ elim (known b.ppid) [
            | some depth ↦ ok (some (depth + 1))
            | none ↦ mac_pid_depth rounds b.ppid >>= λ d. ok (one_more d)
          ]
        ]
      ]
    ]
  ]

unfoldable pub mac_indent_str : Bool → ℕ → ℕ → Bytes
unfolding indent_loop
mac_indent_str flat depth size =
    if flat || (depth == 0 || size == 0) then [] else indent_loop depth size []

-- the name in brackets: what stands behind the last slash, or the whole path
unfoldable pub bracketed_name : Bytes → Bytes
unfolding after_slash print_s
bracketed_name exe =
    let base = after_slash exe exe in
    print_s 300 (codes "[" ++ ((if length base == 0 then exe else base) ++ codes "]"))

-- `ent->argv0 && ent->argv0[0] ? ent->argv0 : "?"`
unfoldable pub shown_name : Option Bytes → Bytes
shown_name none = codes "?"
shown_name (some a0) = if length a0 == 0 then codes "?" else a0

module _ (o : Options) where
  unfoldable pub mac_command : Process → List Bytes → Option Bytes
  unfolding paint quoted args_text bracketed_name
  mac_command p [] =
      if length p.exe == 0 then none else some (paint o (codes "2") (bracketed_name p.exe))
  mac_command p (a0 ∷ args) = some (
      paint o (codes "96") (quoted (if o.full_path && not (length p.exe == 0) then p.exe else a0))
      ++ (if o.show_args then args_text o args else []))

  -- macEmitExec, on the arguments and the environment that pidArgvEnv gives
  unfoldable pub exec_line : Process → ℕ → ℕ → List Bytes → List Bytes → Bytes
  unfolding mac_indent_str pid_text paint user_text cwd_text mac_command env_text
  exec_line p pid depth args env = elim (mac_command p args) [
    | none ↦ []
    | some command ↦
        mac_indent_str o.flat depth 1024
        ++ (paint o (codes "33") (pid_text pid)
            ++ ((if o.show_exit then paint o (codes "32") (codes "+") else [])
                ++ (user_text o p
                    ++ (b' ' ∷ cwd_text o p
                        ++ (command
                            ++ ((if o.show_env && not (length env == 0)
                                  then codes "\n  " ++ env_text o env
                                  else [])
                                ++ codes "\n"))))))
  ]

  unfoldable pub mac_emit_exec : Process → ℕ → ℕ → Outcome Bytes
  unfolding exec_line pid_argv_env
  mac_emit_exec p pid depth = pid_argv_env o.show_env p.cmdline >>= λ got. ok (elim got [
    | none ↦ exec_line p pid depth [] []
    | some (args, env) ↦ exec_line p pid depth args env
  ])

  -- macEmitExit; `time_text` prints the time that has passed since the start
  unfoldable pub mac_emit_exit : (MacEntry → Bytes) → ℕ → ℕ → MacEntry → Bytes
  unfolding mac_indent_str pid_text paint print_s quoted shown_name
  mac_emit_exit time_text pid depth e =
      if o.show_exit
      then mac_indent_str o.flat depth 1024
        ++ (print_s 64 (paint o (codes "33") (pid_text pid))
            ++ (print_s 64 (paint o (codes "31") (codes "-"))
                ++ (b' ' ∷ paint o (codes "2") (quoted (shown_name e.argv0))
                    ++ (codes " exited "
                        ++ (print_s 64 (paint o (codes "2") (codes "status=?"))
                            ++ (b' ' ∷ print_s 64 (paint o (codes "36") (print_s 32 (time_text e)))
                                ++ codes "\n"))))))
      else []
