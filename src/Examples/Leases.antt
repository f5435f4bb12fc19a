-- ===== src/Examples/Leases.antt =====
-- memory_lease_store.go: the theorems on two workers of one store.
use agent_harness_runtime.Base.{◌<◌, ◌≡◌, ◌≢◌, refl, true, none, some, arith}
use agent_harness_runtime.Errors.{ok, err, sentinel, execution_busy}
use agent_harness_runtime.MemoryLeaseStore.{
  MemoryLeaseStore, acquire_execution_lease, renew_execution_lease, write_fenced,
  check_memory_lease_context,
}
use agent_harness_runtime.MemoryLeaseStore.Steps.{done, next, acquires, writes}
use agent_harness_runtime.MemoryLeaseStore.Fencing.{stale_worker-refused}
use agent_harness_runtime.MemoryLeaseStore.Writes.{
  StoredValid, Advances, Steps-Advances, acquired-exclusive,
}
use agent_harness_runtime.Examples.{utf8_valid, pending, pending-valid}

-- A store in memory; a lease lasts for ten units of its clock.
abbrev pub empty : MemoryLeaseStore
empty = record {
  lease_duration = 10;
  records = λ id. none;
  leases = λ id. none;
  last_token = λ id. none;
}

-- One worker acquires at time 0, another at time 20.
abbrev first : MemoryLeaseStore
first = (acquire_execution_lease empty (some none) "run-1" 0).1

abbrev second : MemoryLeaseStore
second = (acquire_execution_lease first (some none) "run-1" 20).1

first_token : (acquire_execution_lease empty (some none) "run-1" 0).0 ≡ ok 1
unfolding acquire_execution_lease check_memory_lease_context
first_token = refl

second_token : (acquire_execution_lease first (some none) "run-1" 20).0 ≡ ok 2
unfolding acquire_execution_lease check_memory_lease_context
second_token = refl

stale_worker-refused_example :
    (1 < 2)
    × ((write_fenced utf8_valid second (some none) pending 1 true 21).1 ≡ second)
    × ((write_fenced utf8_valid second (some none) pending 1 true 21).0 ≢ none)
    × ((renew_execution_lease second (some none) "run-1" 1 21).1 ≡ second)
    × ((renew_execution_lease second (some none) "run-1" 1 21).0 ≢ none)
stale_worker-refused_example =
    stale_worker-refused utf8_valid empty first second (some none) (some none) (some none) pending
      true 0 20 21 1 2 first_token (done first) second_token (done second)

abbrev written : MemoryLeaseStore
written = (write_fenced utf8_valid first (some none) pending 1 true 5).1

accepted : (write_fenced utf8_valid first (some none) pending 1 true 5).0 ≡ none
accepted =
    (acquired-exclusive utf8_valid empty (some none) pending true 0 5 1 first_token (omega arith)
      pending-valid refl).0

Steps-Advances_example :
    StoredValid utf8_valid "run-1" (written.records "run-1")
    × Advances none (written.records "run-1")
Steps-Advances_example =
    Steps-Advances utf8_valid empty written "run-1"
      (next empty first written (acquires (some none) "run-1" 0 refl)
        (next first written written (writes (some none) pending 1 true 5 refl) (done written)))
      tt

acquired-exclusive_example :
    ((write_fenced utf8_valid first (some none) pending 1 true 5).0 ≡ none)
    × (acquire_execution_lease first (some none) "run-1" 5 ≡ (err (sentinel execution_busy), first))
acquired-exclusive_example =
    acquired-exclusive utf8_valid empty (some none) pending true 0 5 1 first_token (omega arith)
      pending-valid refl
