-- ===== src/MemoryLeaseStore/Steps.antt =====
-- memory_lease_store.go: the operations of all workers as steps on the store, in any order.
use agent_harness_runtime.Base.{ℕ, ◌≡◌, String, Bool}
use agent_harness_runtime.Checkpoint.{Checkpoint}
use agent_harness_runtime.MemoryLeaseStore.{
  MemoryLeaseStore, Ctx, acquire_execution_lease, release_lease, renew_execution_lease, plain_write,
  write_fenced,
}

-- One operation of one worker, successful or not.
pub data Step (utf8_valid : String → Bool) (s s' : MemoryLeaseStore) : Type 0 where
  acquires :
      (ctx : Ctx) (id : String) (now : ℕ)
      → s' ≡ (acquire_execution_lease s ctx id now).1
      → Step utf8_valid s s'
  releases : (id : String) (token : ℕ) → s' ≡ release_lease s id token → Step utf8_valid s s'
  renews :
      (ctx : Ctx) (id : String) (token now : ℕ)
      → s' ≡ (renew_execution_lease s ctx id token now).1
      → Step utf8_valid s s'
  writes_plain :
      (ctx : Ctx) (cp : Checkpoint) → s' ≡ (plain_write s ctx cp).1 → Step utf8_valid s s'
  writes :
      (ctx : Ctx) (cp : Checkpoint) (token : ℕ) (create : Bool) (now : ℕ)
      → s' ≡ (write_fenced utf8_valid s ctx cp token create now).1
      → Step utf8_valid s s'

-- Any number of operations.
pub data Steps (utf8_valid : String → Bool) : MemoryLeaseStore → MemoryLeaseStore → Type 0 where
  done : (s : MemoryLeaseStore) → Steps utf8_valid s s
  next :
      (s s' s'' : MemoryLeaseStore)
      → Step utf8_valid s s'
      → Steps utf8_valid s' s''
      → Steps utf8_valid s s''
