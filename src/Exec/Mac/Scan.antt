-- ===== src/Exec/Mac/Scan.antt =====
-- seedMacDB and scanMacDB of c/exec.c: the table of the processes that are known, and the lines of
-- those that have come and gone between two lists of pids.
pub mod Goners
use tracep.Base.{
  Bool, List, Option, [], false, if◌then◌else◌, none, some, suc, true, zero, ℕ, ◌++◌, ◌+◌, ◌==◌,
  ◌∷◌,
}
use tracep.Exec.Line.{Options, Process}
use tracep.Exec.Mac.{BsdInfo, MacEntry, mac_emit_exec, mac_emit_exit, mac_pid_depth, new_mac}
use tracep.Exec.Procargs.{pid_argv_env}
use tracep.Memory.{Bytes, Outcome, fault, ok, ◌>>=◌}
use tracep.PidTable.{Slots, Table, delete, fill_in, find, get, pid_hash, table_cap}

-- macDB, and what has been written to `out`
pub record MacTracer : Type 0 where
  pub table : Table MacEntry
  pub out : Bytes

abbrev pub first_of : Option (List Bytes × List Bytes) → Option Bytes
first_of none = none
first_of (some ([], env)) = none
first_of (some (a0 ∷ args, env)) = some a0

-- the depth that the table knows of a pid
unfoldable pub mac_known_depth : Slots MacEntry → ℕ → Option ℕ
unfolding find
mac_known_depth t pid = elim (find t pid) [
  | none ↦ none
  | some slot ↦ elim (t slot) [ none ↦ none | some (q, e) ↦ e.depth ]
]

-- the entry that a pointer into the table points at
abbrev pub slot_entry : Slots MacEntry → ℕ → MacEntry
slot_entry t slot = elim (t slot) [ none ↦ new_mac | some (q, e) ↦ e ]

abbrev pub max_goners : ℕ
max_goners = 1024

unfoldable pub pid_among : List ℕ → ℕ → Bool
pid_among [] pid = false
pid_among (q ∷ pids) pid = elim (q == pid) [ true ↦ true | false ↦ pid_among pids pid ]

-- `liveBitmap[h]`
unfoldable pub hash_among : List ℕ → ℕ → Bool
hash_among [] h = false
hash_among (q ∷ pids) h = elim (pid_hash q == h) [ true ↦ true | false ↦ hash_among pids h ]

unfoldable pub is_live : List ℕ → ℕ → Bool
is_live pids pid = if hash_among pids (pid_hash pid) then pid_among pids pid else false

-- the loop over the slots from `i` on, with the places of `goners` that are left
unfoldable pub goners_from : ℕ → ℕ → ℕ → Slots MacEntry → List ℕ → List ℕ
goners_from zero i left t pids = []
goners_from (suc n) i zero t pids = []
goners_from (suc n) i (suc left) t pids = elim (t i) [
  | none ↦ goners_from n (i + 1) (suc left) t pids
  | some (q, e) ↦ elim (is_live pids q) [
    | true ↦ goners_from n (i + 1) (suc left) t pids
    | false ↦ q ∷ goners_from n (i + 1) left t pids
  ]
]

module _ (o : Options) (watch : List ℕ) (rounds : ℕ) (info : ℕ → Option BsdInfo)
    (processes : ℕ → Process) (time_text : MacEntry → Bytes) where
  -- the entry `old` with what bsdInfo and pidArgvEnv give
  unfoldable pub described : MacEntry → BsdInfo → Option Bytes → Option ℕ → MacEntry
  described old b a0 depth = record {
    ppid = b.ppid;
    uid = b.uid;
    start_sec = b.start_sec;
    start_usec = b.start_usec;
    argv0 = elim a0 [ none ↦ old.argv0 | some a ↦ some a ];
    depth = depth;
  }

  -- one pid of seedMacDB; macdb_get may return NULL
  unfoldable pub seed_pid : ℕ → Table MacEntry → Outcome (Table MacEntry)
  unfolding described pid_argv_env
  seed_pid pid t = elim (get new_mac t pid) [
    | none ↦ fault
    | some g ↦
        let old = slot_entry g.table.slots g.slot in
        elim (info pid) [
          | none ↦ ok (fill_in g pid (record old { depth = none }))
          | some b ↦ pid_argv_env false (processes pid).cmdline >>= λ got.
              ok (fill_in g pid (described old b (first_of got) none))
        ]
  ]

  unfoldable pub seed : List ℕ → Table MacEntry → Outcome (Table MacEntry)
  unfolding seed_pid
  seed [] t = ok t
  seed (pid ∷ pids) t = seed_pid pid t >>= λ t'. seed pids t'

  abbrev pub emit_if : Option ℕ → ℕ → Outcome Bytes
  emit_if none pid = ok []
  emit_if (some d) pid = mac_emit_exec o (processes pid) pid d

  -- one pid of the first loop of scanMacDB
  unfoldable pub note_pid : ℕ → MacTracer → Outcome MacTracer
  unfolding described mac_known_depth mac_pid_depth pid_argv_env
  note_pid pid s = elim (find s.table.slots pid) [
    | some slot ↦ ok s
    | none ↦ elim (get new_mac s.table pid) [
      | none ↦ fault
      | some g ↦ elim (info pid) [
        | none ↦ ok (record s { table = fill_in g pid new_mac })
        | some b ↦ mac_pid_depth watch info (mac_known_depth g.table.slots) rounds pid >>= λ depth.
            pid_argv_env false (processes pid).cmdline >>= λ got. emit_if depth pid >>= λ line.
            ok (record {
              table = fill_in g pid (described new_mac b (first_of got) depth);
              out = s.out ++ line;
            })
      ]
    ]
  ]

  unfoldable pub note_pids : List ℕ → MacTracer → Outcome MacTracer
  unfolding note_pid
  note_pids [] s = ok s
  note_pids (pid ∷ pids) s = note_pid pid s >>= λ s'. note_pids pids s'

  unfoldable pub gone_text : ℕ → MacEntry → Bytes
  unfolding mac_emit_exit
  gone_text pid e = elim e.depth [ none ↦ [] | some d ↦ mac_emit_exit o time_text pid d e ]

  -- one pid of the last loop
  unfoldable pub let_go : ℕ → MacTracer → Outcome MacTracer
  unfolding find delete gone_text
  let_go pid s = elim (find s.table.slots pid) [
    | none ↦ ok s
    | some slot ↦ elim (s.table.slots slot) [
      | none ↦ fault
      | some (q, e) ↦ delete new_mac s.table pid >>= λ t.
          ok (record { table = t; out = s.out ++ gone_text q e })
    ]
  ]

  unfoldable pub let_go_all : List ℕ → MacTracer → Outcome MacTracer
  unfolding let_go
  let_go_all [] s = ok s
  let_go_all (pid ∷ pids) s = let_go pid s >>= λ s'. let_go_all pids s'

  -- scanMacDB; the list of pids is none where it cannot be got
  unfoldable pub scan : Option (List ℕ) → MacTracer → Outcome MacTracer
  unfolding note_pids goners_from let_go_all
  scan none s = ok s
  scan (some pids) s = note_pids pids s >>= λ s'.
      let_go_all (goners_from table_cap 0 max_goners s'.table.slots pids) s'
