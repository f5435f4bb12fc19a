-- ===== src/Examples/Databases.antt =====
-- sqlite_store.go: the theorems on two processes of one database, whose blobs are checkpoints.
use agent_harness_runtime.Base.{◌<◌, ◌≡◌, ◌≢◌, refl, true, none, some, arith, ◌∙◌, sym, ◌+◌}
use agent_harness_runtime.Errors.{Reply, ok}
use agent_harness_runtime.Checkpoint.{Checkpoint}
use agent_harness_runtime.MemoryLeaseStore.{
  MemoryLeaseStore, acquire_execution_lease as memory_acquire,
  renew_execution_lease as memory_renew, write_fenced as memory_write, load as memory_load,
  check_memory_lease_context,
}
use agent_harness_runtime.MemoryLeaseStore.Steps.{Steps}
use agent_harness_runtime.MemoryLeaseStore.Writes.{StoredValid, Advances}
use agent_harness_runtime.Sqlite.{
  SqliteCheckpointStore, max_int64, check_sqlite_store_context, sqlite_int64, sqlite_lease_expiry,
}
use agent_harness_runtime.Sqlite.Operations.{
  acquire_execution_lease, renew_execution_lease, write_fenced, load,
}
use agent_harness_runtime.Sqlite.Views.{Views}
use agent_harness_runtime.Sqlite.Steps.{SqliteSteps, ended, followed, leasing, writing}
use agent_harness_runtime.Sqlite.Laws.{SqliteSteps-Advances, stale_process-refused}
use agent_harness_runtime.Sqlite.Agreement.{operations-Agree, sqlite_write-load}
use agent_harness_runtime.Sqlite.Bounds.{RowBounded, SqliteSteps-RowBounded}
use agent_harness_runtime.Examples.{utf8_valid, pending, pending-valid}

-- The store in memory and the database before anything is done.
abbrev memory : MemoryLeaseStore
memory = record {
  lease_duration = 10;
  records = λ id. none;
  leases = λ id. none;
  last_token = λ id. none;
}

abbrev database : SqliteCheckpointStore Checkpoint
database = record { lease_duration = 10; table = λ id. none }

abbrev marshal : Checkpoint → Reply Checkpoint
marshal cp = ok cp

decodes : (cp blob : Checkpoint) → marshal cp ≡ ok blob → marshal blob ≡ ok cp
decodes cp blob q = cc

database-Views : Views marshal database memory
database-Views = (refl, λ id. (refl, refl, refl))

-- One process acquires at time 0, another at time 20.
abbrev first : SqliteCheckpointStore Checkpoint
first = (acquire_execution_lease database (some none) "run-1" 0 none (ok none)).1

abbrev second : SqliteCheckpointStore Checkpoint
second = (acquire_execution_lease first (some none) "run-1" 20 none (ok none)).1

first_lease : (acquire_execution_lease database (some none) "run-1" 0 none (ok none)).0 ≡ ok 1
unfolding acquire_execution_lease check_sqlite_store_context sqlite_lease_expiry
first_lease = refl

second_lease : (acquire_execution_lease first (some none) "run-1" 20 none (ok none)).0 ≡ ok 2
unfolding acquire_execution_lease check_sqlite_store_context sqlite_lease_expiry
second_lease = refl

stale_process-refused_example :
    let write =
      write_fenced utf8_valid marshal marshal second (some none) pending 1 true 21 none (ok none) in
    let renew = renew_execution_lease second (some none) "run-1" 1 21 none in
    (1 < 2) × (write.1 ≡ second) × (write.0 ≢ none) × (renew.1 ≡ second) × (renew.0 ≢ none)
stale_process-refused_example =
    stale_process-refused utf8_valid marshal marshal decodes database first second memory
      (some none) (some none) (some none) pending true 0 20 21 1 2 none none none (ok none)
      (ok none) (ok none) database-Views first_lease (ended first) second_lease (ended second)

abbrev written : SqliteCheckpointStore Checkpoint
written =
    (write_fenced utf8_valid marshal marshal first (some none) pending 1 true 5 none (ok none)).1

steps : SqliteSteps utf8_valid marshal marshal database written
steps = followed database first written (leasing (some none) "run-1" 0 none (ok none) refl) (
    followed first written written (writing (some none) pending 1 true 5 none (ok none) refl)
      (ended written))

SqliteSteps-Advances_example :
    (m : MemoryLeaseStore) × Views marshal written m
    × StoredValid utf8_valid "run-1" (m.records "run-1")
    × Advances none (m.records "run-1")
SqliteSteps-Advances_example =
    SqliteSteps-Advances utf8_valid marshal marshal decodes database written memory "run-1" steps
      database-Views tt

SqliteSteps-RowBounded_example : RowBounded "run-1" 0 written
SqliteSteps-RowBounded_example =
    SqliteSteps-RowBounded utf8_valid marshal marshal database written "run-1" 0 steps
      (omega arith, tt, omega arith)

memory_first : (memory_acquire memory (some none) "run-1" 0).0 ≡ ok 1
unfolding memory_acquire check_memory_lease_context
memory_first = refl

not_wrapped : ok 1 ≢ ok (max_int64 + 1)
not_wrapped q = ground (arith, q)

operations-Agree_example :
    ((acquire_execution_lease database (some none) "run-1" 0 none (ok none)).0
      ≡ (memory_acquire memory (some none) "run-1" 0).0)
    × ((renew_execution_lease database (some none) "run-1" 1 0 none).0
        ≡ (memory_renew memory (some none) "run-1" 1 0).0)
    × ((write_fenced utf8_valid marshal marshal database
          (some none)
          pending
          1
          true
          0
          none
          (ok none)).0
        ≡ (memory_write utf8_valid memory (some none) pending 1 true 0).0)
    × (load utf8_valid marshal marshal database (some none) "run-1" none
        ≡ memory_load memory (some none) "run-1")
operations-Agree_example =
    operations-Agree marshal utf8_valid marshal database memory (some none) pending 1 true 0 pending
      database-Views tt (omega arith) (omega arith) (omega arith) (omega arith)
      (λ q. not_wrapped (sym memory_first ∙ q)) refl

accepted :
    (write_fenced utf8_valid marshal marshal first (some none) pending 1 true 5 none (ok none)).0
    ≡ none
unfolding write_fenced acquire_execution_lease check_sqlite_store_context sqlite_lease_expiry
    sqlite_int64
accepted = rw (pending-valid, write_fenced) refl

sqlite_write-load_example :
    load utf8_valid marshal marshal written (some none) "run-1" none ≡ ok pending
sqlite_write-load_example =
    sqlite_write-load marshal utf8_valid marshal decodes first (some none) pending 1 true 5 none
      (ok none) accepted
