-- ===== src/Exec/Ancestry.antt =====
-- isWatchRoot and pidDepth of c/exec.c: how far a process is below a watched one. `parent` is what
-- statPPID makes of /proc/<pid>/stat at the time of the event, and `known` gives the depth that the
-- table holds for a pid. pidDepth calls itself on the parent, with no bound, so it gets rounds. The
-- message that it prints for a process that has vanished is left out.
pub mod Depth
use tracep.Base.{
  Bool, List, Option, [], false, if◌then◌else◌, none, some, suc, true, zero, ℕ, ◌+◌, ◌==◌, ◌∷◌,
}
use tracep.Int.{negsuc, pos, ℤ}
use tracep.Memory.{Outcome, ok, spin, ◌>>=◌}

unfoldable pub is_watch_root : List ℕ → ℕ → Bool
is_watch_root [] pid = false
is_watch_root (w ∷ ws) pid = if w == pid then true else is_watch_root ws pid

-- `d < 0 ? -1 : d + 1`
abbrev pub one_more : Option ℕ → Option ℕ
one_more none = none
one_more (some d) = some (d + 1)

module _ (watch : List ℕ) (parent : ℕ → ℤ) (known : ℕ → Option ℕ) where
  -- none is -1; a ppid that is not negative is its own bit pattern
  unfoldable pub pid_depth : ℕ → ℕ → Outcome (Option ℕ)
  unfolding is_watch_root
  pid_depth zero pid = spin
  pid_depth (suc rounds) pid = elim (is_watch_root watch pid) [
    | true ↦ ok (some 0)
    | false ↦ elim (parent pid) [
      | negsuc n ↦ ok none
      | pos ppid ↦ elim (ppid == 0) [
        | true ↦ ok none
        | false ↦ elim (is_watch_root watch ppid) [
          | true ↦ ok (some 0)
          | false ↦ elim (known ppid) [
            | some depth ↦ ok (some (depth + 1))
            | none ↦ pid_depth rounds ppid >>= λ d. ok (one_more d)
          ]
        ]
      ]
    ]
  ]
