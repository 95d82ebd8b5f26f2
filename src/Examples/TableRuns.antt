-- ===== src/Examples/TableRuns.antt =====
-- The pid map of c/exec.c: an empty table, and a table of two entries.
use mathlib.Core.Option
use tracep.Base.{ap, arith, none, refl, some, ℕ, ◌%◌, ◌*◌, ◌+◌, ◌≡◌}
use tracep.Memory.{Returns}
use tracep.PidTable.{Slots, Table, delete, pid_hash, put_slot, table_cap}
use tracep.PidTable.Delete.{Deleted, delete-Deleted}
use tracep.PidTable.Insert.{insert-IsTable}
use tracep.PidTable.Probe.{IsTable}

abbrev no_slots : Slots ℕ
no_slots i = none

no_slots-IsTable : IsTable no_slots
no_slots-IsTable = record { unique = λ i j q v w hi hj ei ej. cc; reached = λ i q v hi e. cc }

abbrev empty : Table ℕ
empty = record { slots = no_slots; len = 0 }

-- pids 1 and 16385 share their hash
abbrev shared_hash : ℕ
shared_hash = 1 * 2654435761 % 16384

hashes_run : (pid_hash 1 ≡ shared_hash) × (pid_hash 16385 ≡ shared_hash)
unfolding pid_hash
hashes_run = (refl, refl)

abbrev one : Slots ℕ
one = put_slot no_slots shared_hash (some (1, 5))

abbrev two : Slots ℕ
two = put_slot one (shared_hash + 1) (some (16385, 6))

one-IsTable : IsTable one
unfolding pid_hash
one-IsTable =
    insert-IsTable no_slots 1 0 shared_hash 5 no_slots-IsTable (λ w (i, lt, e). cc) (omega arith)
      refl refl (λ m lt. absurd (omega arith))

two-IsTable : IsTable two
unfolding pid_hash
two-IsTable =
    insert-IsTable one 16385 1 (shared_hash + 1) 6 one-IsTable (λ w (i, lt, e). ground arith)
      (omega arith) refl refl
      (λ m lt e.
        let m0 : m ≡ 0 = omega arith in
        let here : one shared_hash ≡ some (1, 5) = refl in
        cc (ap (λ x. one ((shared_hash + x) % table_cap)) m0, e, here))

delete-Deleted_example : Returns (Deleted two 1) (delete 0 (record { slots = two; len = 2 }) 1)
delete-Deleted_example =
    delete-Deleted 0 (record { slots = two; len = 2 }) 1 0 two-IsTable (omega arith) refl
