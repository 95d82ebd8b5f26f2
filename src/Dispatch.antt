-- ===== src/Dispatch.antt =====
-- main of c/tracep.c: which subcommand runs, and on what arguments. The texts that are printed are left
-- out but for the exit status.
use tracep.Base.{List, Option, [], if◌then◌else◌, none, some, take, ℕ, ◌++◌, ◌||◌, ◌∷◌}
use tracep.Memory.{Bytes}
use tracep.Text.{codes, same_text}

-- the table of subcommands, with the function that each runs
pub data Subcommand : Type 0 where
  net_main : Subcommand
  tls_main : Subcommand
  dns_main : Subcommand
  exec_main : Subcommand
  ca_main : Subcommand

abbrev pub subcommands : List (Bytes × Subcommand)
subcommands =
    (codes "net", net_main)
    ∷ (codes "tls", tls_main)
    ∷ (codes "dns", dns_main)
    ∷ (codes "exec", exec_main)
    ∷ (codes "ca", ca_main)
    ∷ []

-- what main does: usage or the version with its exit status, or a subcommand on an argv
pub data Action : Type 0 where
  show_usage : ℕ → Action
  show_version : Action
  unknown_command : Bytes → Action
  run_sub : Subcommand → List Bytes → Action

-- the loop over the table
unfoldable pub find_sub : List (Bytes × Subcommand) → Bytes → Option Subcommand
unfolding same_text
find_sub [] sub = none
find_sub ((name, f) ∷ subs) sub = if same_text name sub then some f else find_sub subs sub

unfoldable pub dispatch_sub : Bytes → List Bytes → Action
unfolding find_sub same_text
dispatch_sub sub args =
    if same_text sub (codes "-h")
      || (same_text sub (codes "--help") || same_text sub (codes "help"))
    then show_usage 0
    else if same_text sub (codes "-v")
        || (same_text sub (codes "--version") || same_text sub (codes "version"))
    then show_version
    else elim (find_sub subcommands sub) [
      | none ↦ unknown_command sub
      | some f ↦ run_sub f (take 63 (codes "tracep " ++ sub) ∷ args)
    ]

-- main, of argv
unfoldable pub main : List Bytes → Action
unfolding dispatch_sub
main [] = show_usage 2
main (prog ∷ []) = show_usage 2
main (prog ∷ sub ∷ args) = dispatch_sub sub args
