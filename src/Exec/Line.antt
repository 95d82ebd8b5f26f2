-- ===== src/Exec/Line.antt =====
-- The lines that c/exec.c prints on Linux: indentStr, sigName, printExec, buildExecedLine and the end
-- of handleExit. A colour call is the text it leaves, since APPEND and snprintf copy it at once.
-- procUser, procCwd and readExe are system calls: their results are fields of `Process`, beside the
-- contents of the files. `time_text` prints a number of nanoseconds as `time=%.3fs` does the quotient
-- by 1e9 that the source computes as a double.
pub mod Shape
use Prim.Native.Char.{code}
use tracep.Base.{
  Bool, List, Option, [], false, if◌then◌else◌, length, ltb, none, not, some, suc, take, true, zero,
  ℕ, ◌%◌, ◌&&◌, ◌++◌, ◌+◌, ◌-◌, ◌/◌, ◌==◌, ◌^◌, ◌||◌, ◌∷◌,
}
use tracep.Common.{clr_text, quoted}
use tracep.Exec.Files.{read_args, read_comm}
use tracep.Memory.{Bytes, cstr, print_s}
use tracep.Text.{codes, decimal, same_text}

-- the flags
pub record Options : Type 0 where
  pub flat : Bool
  pub color : Bool
  pub full_path : Bool
  pub show_args : Bool
  pub show_cwd : Bool
  pub show_env : Bool
  pub show_exit : Bool
  pub show_user : Bool

-- what a process shows of itself at the time of an event
pub record Process : Type 0 where
  pub user : Bytes
  pub cwd : Bytes
  pub exe : Bytes
  pub cmdline : Option Bytes
  pub comm : Option Bytes
  pub environ : Option Bytes
  pub stat : Option Bytes

-- `printf("%d", (int)pid)` of the bit pattern
unfoldable pub pid_text : ℕ → Bytes
unfolding decimal
pid_text pid = if ltb pid (2 ^ 31) then decimal pid else b'-' ∷ decimal (2 ^ 32 - pid)

-- the loop of indentStr over the levels that are left
unfoldable pub indent_loop : ℕ → ℕ → Bytes → Bytes
indent_loop zero size w = w
indent_loop (suc n) size w = elim (ltb (length w + 2) size) [
  | true ↦ indent_loop n size (w ++ b' ' ∷ b' ' ∷ [])
  | false ↦ w
]

unfoldable pub indent_str : Bool → ℕ → ℕ → Bytes
indent_str flat depth size = if flat || size == 0 then [] else indent_loop depth size []

-- sigName: the names of the table, then the number
abbrev pub sig_names : List (ℕ × Bytes)
sig_names =
    (1, codes "SIGHUP")
    ∷ (2, codes "SIGINT")
    ∷ (3, codes "SIGQUIT")
    ∷ (4, codes "SIGILL")
    ∷ (5, codes "SIGTRAP")
    ∷ (6, codes "SIGABRT")
    ∷ (7, codes "SIGBUS")
    ∷ (8, codes "SIGFPE")
    ∷ (9, codes "SIGKILL")
    ∷ (10, codes "SIGUSR1")
    ∷ (11, codes "SIGSEGV")
    ∷ (12, codes "SIGUSR2")
    ∷ (13, codes "SIGPIPE")
    ∷ (14, codes "SIGALRM")
    ∷ (15, codes "SIGTERM")
    ∷ (17, codes "SIGCHLD")
    ∷ (18, codes "SIGCONT")
    ∷ (19, codes "SIGSTOP")
    ∷ (20, codes "SIGTSTP")
    ∷ (21, codes "SIGTTIN")
    ∷ (22, codes "SIGTTOU")
    ∷ (23, codes "SIGURG")
    ∷ (24, codes "SIGXCPU")
    ∷ (25, codes "SIGXFSZ")
    ∷ (26, codes "SIGVTALRM")
    ∷ (27, codes "SIGPROF")
    ∷ (28, codes "SIGWINCH")
    ∷ (29, codes "SIGIO")
    ∷ (30, codes "SIGPWR")
    ∷ (31, codes "SIGSYS")
    ∷ []

pub name_in : List (ℕ × Bytes) → ℕ → Bytes
unfolding decimal
name_in [] sig = take 15 (codes "SIG" ++ decimal sig)
name_in ((n, s) ∷ names) sig = if n == sig then s else name_in names sig

pub sig_name : ℕ → Bytes
unfolding name_in
sig_name sig = name_in sig_names sig

-- strchr(e, '='): what stands in front of the first equals sign, and behind it
unfoldable pub key_value : Bytes → Option (Bytes × Bytes)
key_value [] = none
key_value (c ∷ s) =
    if c == b'='
    then some ([], s)
    else elim (key_value s) [ none ↦ none | some (k, v) ↦ some (c ∷ k, v) ]

pub quoted_variable : Bytes → Bytes
unfolding key_value quoted
quoted_variable e = elim (key_value e) [
  | some (k, v) ↦ quoted k ++ b'=' ∷ quoted v
  | none ↦ quoted e
]

module _ (o : Options) where
  -- `c(code, s)`
  unfoldable pub paint : Bytes → Bytes → Bytes
  unfolding clr_text
  paint code s = clr_text o.color code s

  -- one APPEND_CH(' ') and one coloured word for each argument
  unfoldable pub args_text : List Bytes → Bytes
  unfolding paint quoted
  args_text [] = []
  args_text (a ∷ args) = b' ' ∷ paint (codes "2") (quoted a) ++ args_text args

  unfoldable pub env_text : List Bytes → Bytes
  unfolding paint quoted_variable
  env_text [] = []
  env_text (e ∷ env) = b' ' ∷ paint (codes "2") (quoted_variable e) ++ env_text env

  unfoldable pub user_text : Process → Bytes
  unfolding paint same_text print_s
  user_text p =
      if o.show_user
      then paint (if same_text p.user (codes "root") then codes "91" else codes "92")
          (print_s 300 (codes " <" ++ p.user ++ codes ">"))
      else []

  unfoldable pub cwd_text : Process → Bytes
  unfolding paint quoted cstr
  cwd_text p =
      if o.show_cwd
      then paint (codes "35") (quoted (cstr p.cwd)) ++ paint (codes "2") (codes " % ")
      else []

  -- the program: its path, or the first argument
  abbrev pub program : Process → Bytes → Bytes
  program p a0 = if o.full_path && not (length (cstr p.exe) == 0) then cstr p.exe else a0

  -- the command line; none for the early return
  pub command_text : Process → Option Bytes
  unfolding paint quoted args_text read_args read_comm print_s
  command_text p = elim (read_args p.cmdline) [
    | [] ↦
        let comm = read_comm p.comm in
        if length comm == 0
        then none
        else some (paint (codes "2") (print_s 300 (codes "[" ++ comm ++ codes "]")))
    | a0 ∷ args ↦
        some (
          paint (codes "96") (quoted (program p a0))
          ++ (if o.show_args then args_text args else []))
  ]

  -- printExec: the line with its newline, or nothing
  unfoldable pub print_exec : Process → ℕ → ℕ → Bytes
  unfolding indent_str pid_text paint user_text cwd_text command_text env_text read_args
  print_exec p pid depth = elim (command_text p) [
    | none ↦ []
    | some command ↦
        indent_str o.flat depth 1024
        ++ (paint (codes "33") (pid_text pid)
            ++ ((if o.show_exit then paint (codes "32") (codes "+") else [])
                ++ (user_text p
                    ++ (b' ' ∷ cwd_text p
                        ++ (command
                            ++ ((if o.show_env
                                  then codes "\n  " ++ env_text (read_args p.environ)
                                  else [])
                                ++ codes "\n"))))))
  ]

  -- buildExecedLine
  unfoldable pub execed_line : ℕ → Bytes → ℕ → Bytes
  unfolding indent_str pid_text paint print_s quoted
  execed_line depth cmdline pid =
      indent_str o.flat depth 1024
      ++ (print_s 64 (paint (codes "33") (pid_text pid))
          ++ (print_s 64 (paint (codes "31") (codes "-"))
              ++ (b' ' ∷ paint (codes "2") (quoted cmdline) ++ codes " execed\n")))

  -- `exitStr`, of the wait status
  pub exit_text : ℕ → Bytes
  unfolding paint print_s decimal sig_name
  exit_text status =
      let code = status / 2 ^ 8 % 2 ^ 8 in
      print_s 64 (
        if status % 2 ^ 7 == 0
        then (if code == 0
            then paint (codes "32") (codes "status=0")
            else paint (codes "31") (print_s 32 (codes "status=" ++ decimal code)))
        else paint (codes "91") (print_s 32 (codes "signal=" ++ sig_name (status % 2 ^ 7))))

  -- the end of handleExit
  unfoldable pub exit_line : (ℕ → Bytes) → ℕ → Bytes → ℕ → ℕ → ℕ → Bytes
  unfolding indent_str pid_text paint print_s quoted exit_text
  exit_line time_text depth cmdline pid status elapsed =
      indent_str o.flat depth 1024
      ++ (print_s 64 (paint (codes "33") (pid_text pid))
          ++ (print_s 64 (paint (codes "31") (codes "-"))
              ++ (b' ' ∷ paint (codes "2") (quoted cmdline)
                  ++ (codes " exited "
                      ++ (exit_text status
                          ++ (b' '
                                ∷ print_s 64 (paint (codes "36") (print_s 32 (time_text elapsed)))
                              ++ codes "\n"))))))
