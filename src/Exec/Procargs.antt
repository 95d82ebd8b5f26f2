-- ===== src/Exec/Procargs.antt =====
-- pidArgvEnv of c/exec.c on macOS: the arguments and the environment in what sysctl gives for
-- KERN_PROCARGS2. The two calls of sysctl are system calls: their result is the buffer, or none.
pub mod Reading
use tracep.Base.{
  Bool, List, Option, [], drop, false, if◌then◌else◌, leb, length, ltb, none, some, suc, true, zero,
  ℕ, ◌%◌, ◌++◌, ◌+◌, ◌==◌, ◌^◌, ◌∷◌,
}
use tracep.Memory.{Bytes, Outcome, fault, le32, ok, ◌>>=◌}
use tracep.PidTable.Probe.{entry}

-- `while (p < size && buf[p] != 0) p++;` and what it has passed over
unfoldable pub until_nul : Bytes → Bytes × Bytes
until_nul [] = ([], [])
until_nul (c ∷ s) = if c == 0 then ([], c ∷ s) else (let (a, rest) = until_nul s in (c ∷ a, rest))

-- `while (p < size && buf[p] == 0) p++;`
unfoldable pub skip_nuls : Bytes → Bytes
skip_nuls [] = []
skip_nuls (c ∷ s) = if c == 0 then skip_nuls s else c ∷ s

-- the loop over the arguments; the text behind each is dropped with its NUL
unfoldable pub argv_from : ℕ → Bytes → List Bytes × Bytes
unfolding until_nul
argv_from zero s = ([], s)
argv_from (suc n) [] = ([], [])
argv_from (suc n) (c ∷ s) =
    let (a, rest) = until_nul (c ∷ s) in
    let (args, behind_all) = argv_from n (drop 1 rest) in (a ∷ args, behind_all)

-- an entry that is not empty
unfoldable pub kept_entry : Bytes → List Bytes
kept_entry [] = []
kept_entry (x ∷ entry) = (x ∷ entry) ∷ []

-- the loop over the environment, with the entry that has begun
unfoldable pub env_from : Bytes → Bytes → List Bytes
unfolding kept_entry
env_from entry [] = kept_entry entry
env_from entry (c ∷ s) = elim (c == 0) [
  | false ↦ env_from (entry ++ c ∷ []) s
  | true ↦ kept_entry entry ++ env_from [] s
]

-- The places of `av`, from `int cap = (int)argc + 4`, which wraps around where it overflows. A cap
-- below 0 is a size that no malloc grants, and its NULL has no place.
abbrev pub av_places : ℕ → ℕ
av_places argc = let cap = (argc + 4) % 2 ^ 32 in if ltb cap (2 ^ 31) then cap else 0

-- The places of `ev`, from an int that starts at 16 and is doubled when they are full. Doubling 2 ^ 30
-- overflows in the same way.
abbrev pub ev_places : ℕ
ev_places = 2 ^ 30

-- texts stored one behind the other in an array
unfoldable pub stored : ℕ → List Bytes → Outcome (List Bytes)
stored places texts = if leb (length texts) places then ok texts else fault

-- the arguments, and the environment where it is asked for; none for the result 0
unfoldable pub pid_argv_env : Bool → Option Bytes → Outcome (Option (List Bytes × List Bytes))
pid_argv_env with_env none = ok none
pid_argv_env with_env (some buf) =
    if ltb (length buf) 4
    then ok none
    else (le32 buf 0 >>= λ argc.
        (let (args, rest) = argv_from argc (skip_nuls (until_nul (drop 4 buf)).1) in
          stored (av_places argc) args >>= λ av.
          stored ev_places (if with_env then env_from [] rest else []) >>= λ ev.
          ok (some (av, ev))))
