-- ===== src/Exec/Procargs/Reading.antt =====
-- What pidArgvEnv of c/exec.c reads of the arguments of a process.
use mathlib.Core.List.{append-nil, append_assoc}
use tracep.Base.{
  All, Bool, List, [], ap, arith, drop, false, if◌then◌else◌, length, length-append, ltb, refl,
  replicate, some, suc, zero, ℕ, ◌%◌, ◌++◌, ◌-◌, ◌/◌, ◌<◌, ◌==◌, ◌^◌, ◌∙◌, ◌∷◌, ◌≡◌, ◌≢◌, ◌≤◌,
}
use tracep.Exec.Procargs.{
  argv_from, av_places, env_from, ev_places, kept_entry, pid_argv_env, skip_nuls, stored, until_nul,
}
use tracep.Memory.{Bytes, le32, ok, ◌>>=◌}

-- A text without NULs, as the kernel writes it with a NUL behind it.
abbrev pub IsText : Bytes → Type 0
IsText t = All (λ c. c ≢ 0) t

abbrev pub terminated : List Bytes → Bytes → Bytes
terminated [] s = s
terminated (t ∷ ts) s = t ++ 0 ∷ terminated ts s

until_nul-text : (t s : Bytes) → IsText t → until_nul (t ++ 0 ∷ s) ≡ (t, 0 ∷ s)
unfolding until_nul
until_nul-text [] s h = refl
until_nul-text (c ∷ t) s h =
    let other : (c == 0) ≡ false = ground (arith, h.0) in
    rw (other, until_nul, until_nul-text t s h.1) refl

skip_nuls-replicate : (n : ℕ) (s : Bytes) → skip_nuls (replicate n 0 ++ s) ≡ skip_nuls s
unfolding skip_nuls
skip_nuls-replicate zero s = refl
skip_nuls-replicate (suc n) s = skip_nuls-replicate n s

argv_from_step :
    (n c : ℕ) (s a rest : Bytes)
    → until_nul (c ∷ s) ≡ (a, rest)
    → argv_from (suc n) (c ∷ s) ≡ (a ∷ (argv_from n (drop 1 rest)).0, (argv_from n (drop 1 rest)).1)
unfolding argv_from
argv_from_step n c s a rest e = rw (e, argv_from) refl

argv_from_one :
    (n : ℕ) (t s : Bytes)
    → IsText t
    → argv_from (suc n) (t ++ 0 ∷ s) ≡ (t ∷ (argv_from n s).0, (argv_from n s).1)
argv_from_one n [] s h = argv_from_step n 0 s [] (0 ∷ s) (until_nul-text [] s tt)
argv_from_one n (c ∷ t) s h =
    argv_from_step n c (t ++ 0 ∷ s) (c ∷ t) (0 ∷ s) (until_nul-text (c ∷ t) s h)

argv_from-terminated :
    (args : List Bytes) (s : Bytes)
    → All IsText args
    → argv_from (length args) (terminated args s) ≡ (args, s)
unfolding argv_from
argv_from-terminated [] s h = refl
argv_from-terminated (t ∷ args) s h =
    argv_from_one (length args) t (terminated args s) h.0
    ∙ ap (λ r. (t ∷ r.0, r.1)) (argv_from-terminated args s h.1)

env_from_step :
    (piece s : Bytes) (c : ℕ)
    → (c == 0) ≡ false
    → env_from piece (c ∷ s) ≡ env_from (piece ++ c ∷ []) s
unfolding env_from
env_from_step piece s c other = rw (other, env_from) refl

kept_entry-some : (piece : Bytes) → 0 < length piece → kept_entry piece ≡ piece ∷ []
unfolding kept_entry
kept_entry-some [] lt = absurd (omega arith)
kept_entry-some (x ∷ piece) lt = refl

env_from_end : (piece s : Bytes) → env_from piece (0 ∷ s) ≡ kept_entry piece ++ env_from [] s
unfolding env_from
env_from_end piece s = refl

env_from-entry :
    (piece t s : Bytes)
    → IsText t
    → 0 < length (piece ++ t)
    → env_from piece (t ++ 0 ∷ s) ≡ (piece ++ t) ∷ env_from [] s
env_from-entry piece [] s h lt =
    env_from_end piece s
    ∙ rw (append-nil piece) (
        ap (λ e. e ++ env_from [] s)
          (kept_entry-some piece (omega (arith, lt, length-append piece []))))
env_from-entry piece (c ∷ t) s h lt =
    let other : (c == 0) ≡ false = ground (arith, h.0) in
    env_from_step piece (t ++ 0 ∷ s) c other
    ∙ (env_from-entry (piece ++ c ∷ []) t s h.1
          (omega (arith, length-append (piece ++ c ∷ []) t, length-append piece (c ∷ [])))
        ∙ ap (λ e. e ∷ env_from [] s) (append_assoc piece (c ∷ []) t))

-- An entry of the environment: a text that is not empty.
pub record IsEntry (t : Bytes) : Type 0 where
  pub some_text : 0 < length t
  pub no_nul : IsText t

env_from-terminated : (env : List Bytes) → All IsEntry env → env_from [] (terminated env []) ≡ env
unfolding env_from
env_from-terminated [] h = refl
env_from-terminated (t ∷ env) h =
    env_from-entry [] t (terminated env []) h.0.no_nul h.0.some_text
    ∙ ap (λ e. t ∷ e) (env_from-terminated env h.1)

-- The number of the arguments, with the lowest byte first.
abbrev pub le_bytes : ℕ → Bytes
le_bytes n = n % 256 ∷ n / 256 % 256 ∷ n / 65536 % 256 ∷ n / 16777216 % 256 ∷ []

le32-le_bytes : (n : ℕ) (s : Bytes) → n < 2 ^ 32 → le32 (le_bytes n ++ s) 0 ≡ ok n
unfolding le32
le32-le_bytes n s lt = ap ok (omega (arith, lt))

skip_nuls-first : (t s : Bytes) → IsText t → 0 < length t → skip_nuls (t ++ s) ≡ t ++ s
unfolding skip_nuls
skip_nuls-first [] s h lt = absurd (omega arith)
skip_nuls-first (c ∷ t) s h lt =
    let other : (c == 0) ≡ false = ground (arith, h.0) in rw (other, skip_nuls) refl

stored_all :
    (places : ℕ) (texts : List Bytes) → length texts ≤ places → stored places texts ≡ ok texts
unfolding stored
stored_all places texts le = ground arith

pid_argv_env_parts :
    (with_env : Bool) (buf s : Bytes) (argc : ℕ) (args env : List Bytes) (rest : Bytes)
    → ltb (length buf) 4 ≡ false
    → le32 buf 0 ≡ ok argc
    → skip_nuls (until_nul (drop 4 buf)).1 ≡ s
    → argv_from argc s ≡ (args, rest)
    → length args ≤ av_places argc
    → (if with_env then env_from [] rest else []) ≡ env
    → length env ≤ ev_places
    → pid_argv_env with_env (some buf) ≡ ok (some (args, env))
unfolding pid_argv_env
pid_argv_env_parts with_env buf s argc args env rest long read behind_it given_args few given_env
      room =
    rw
      (
        long,
        pid_argv_env,
        read,
        ◌>>=◌,
        behind_it,
        given_args,
        stored_all (av_places argc) args few,
        given_env,
        stored_all ev_places env room,
      )
      refl

module _ (path : Bytes) (pad : ℕ) (arg : Bytes) (args env : List Bytes) where
  -- What the kernel writes: the path and at least one NUL, the arguments, and the environment.
  abbrev pub procargs : Bytes
  procargs =
      le_bytes (suc (length args))
      ++ (path ++ 0 ∷ (replicate pad 0 ++ terminated (arg ∷ args) (terminated env [])))

  module _ (path_text : IsText path) (some_arg : 0 < length arg) (texts : All IsText (arg ∷ args))
      (entries : All IsEntry env) (few : length args < 2 ^ 31 - 5)
      (room : length env ≤ 2 ^ 30) where
    behind_path :
        skip_nuls
          (until_nul
            (path ++ 0 ∷ (replicate pad 0 ++ terminated (arg ∷ args) (terminated env [])))).1
        ≡ terminated (arg ∷ args) (terminated env [])
    behind_path =
        ap (λ r. skip_nuls r.1)
          (until_nul-text path (replicate pad 0 ++ terminated (arg ∷ args) (terminated env []))
            path_text)
        ∙ (skip_nuls-replicate (suc pad) (terminated (arg ∷ args) (terminated env []))
            ∙ skip_nuls-first arg (0 ∷ terminated args (terminated env [])) texts.0 some_arg)

    -- From what the kernel of macOS writes, which is the number of the arguments, the path with at
    -- least one NUL, and each argument and variable with a NUL behind it, pidArgvEnv reads the
    -- arguments, and the variables where they are asked for, and stores them inside its arrays, if
    -- no text holds a NUL, the first argument and no variable is empty, and there are at most 2 ^
    -- 31 - 5 arguments and 2 ^ 30 variables.
    pub pid_argv_env-procargs :
        (with_env : Bool)
        → pid_argv_env with_env (some procargs)
          ≡ ok (some (arg ∷ args, if with_env then env else []))
    pid_argv_env-procargs with_env =
        pid_argv_env_parts with_env procargs (terminated (arg ∷ args) (terminated env []))
          (suc (length args)) (arg ∷ args) (if with_env then env else []) (terminated env [])
          (ground arith) (le32-le_bytes (suc (length args)) _ (omega (arith, few))) behind_path
          (argv_from-terminated (arg ∷ args) (terminated env []) texts) (ground (arith, few))
          (rw (env_from-terminated env entries) refl) (ground (arith, room))
