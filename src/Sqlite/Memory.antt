-- ===== src/Sqlite/Memory.antt =====
-- memory_lease_store.go: what a successful operation leaves for its execution, and for the others.
use agent_harness_runtime.Base.{
  ℕ, ◌+◌, ◌≤◌, ◌||◌, ◌==◌, ◌≡◌, String, Bool, true, false, none, some, str_eq, eq_iff, arith,
}
use agent_harness_runtime.Errors.{ok}
use agent_harness_runtime.Checkpoint.{Checkpoint, validate_checkpoint}
use agent_harness_runtime.MemoryLeaseStore.{
  MemoryLeaseStore, Ctx, check_memory_lease_context, acquire_execution_lease as memory_acquire,
  release_lease as memory_release, owns, holds, is_active, or_zero, record_error,
  renew_execution_lease as memory_renew, write_fenced as memory_write,
}
use agent_harness_runtime.Sqlite.{max_int64}
use agent_harness_runtime.Sqlite.Views.{Elsewhere}

-- The operations of the store in memory that an operation on the table matches.
pub acquire-Elsewhere :
    (m : MemoryLeaseStore) (ctx : Ctx) (id : String) (now : ℕ)
    → Elsewhere id m (memory_acquire m ctx id now).1
unfolding memory_acquire
acquire-Elsewhere m ctx id now = (ground arith, λ other e. ground (arith))

pub release-Elsewhere :
    (m : MemoryLeaseStore) (id : String) (token : ℕ) → Elsewhere id m (memory_release m id token)
unfolding memory_release
release-Elsewhere m id token = (ground arith, λ other e. ground (arith))

pub renew-Elsewhere :
    (m : MemoryLeaseStore) (ctx : Ctx) (id : String) (token now : ℕ)
    → Elsewhere id m (memory_renew m ctx id token now).1
unfolding memory_renew
renew-Elsewhere m ctx id token now = (ground arith, λ other e. ground (arith))

pub write-Elsewhere :
    (utf8_valid : String → Bool) (m : MemoryLeaseStore) (ctx : Ctx) (cp : Checkpoint) (token : ℕ)
    (create : Bool) (now : ℕ)
    → Elsewhere cp.execution_id m (memory_write utf8_valid m ctx cp token create now).1
unfolding memory_write
write-Elsewhere utf8_valid m ctx cp token create now = (ground arith, λ other e. ground (arith))

-- What the store in memory has for the execution after a successful operation.
pub memory_acquire-granted :
    (m : MemoryLeaseStore) (ctx : Ctx) (id : String) (now token : ℕ)
    → check_memory_lease_context ctx ≡ none
    → str_eq id "" ≡ false
    → is_active (m.leases id) now ≡ false
    → token ≡ or_zero (m.last_token id) + 1
    → token ≤ max_int64
    → let q = memory_acquire m ctx id now in
      (q.0 ≡ ok token)
      × (q.1.last_token id ≡ some token)
      × (q.1.leases id ≡ some (record { token = token; expires_at = now + m.lease_duration }))
      × (q.1.records id ≡ m.records id)
unfolding memory_acquire
memory_acquire-granted m ctx id now token c i a t l = ground (arith, eq_iff id id)

pub memory_release-freed :
    (m : MemoryLeaseStore) (id : String) (token : ℕ)
    → let m' = memory_release m id token in
      (m'.last_token id ≡ m.last_token id)
      × (m'.records id ≡ m.records id)
      × ((owns (m.leases id) token ≡ true) → m'.leases id ≡ none)
      × ((owns (m.leases id) token ≡ false) → m'.leases id ≡ m.leases id)
unfolding memory_release
memory_release-freed m id token = ground (arith, eq_iff id id)

pub memory_renew-renewed :
    (m : MemoryLeaseStore) (ctx : Ctx) (id : String) (token now : ℕ)
    → check_memory_lease_context ctx ≡ none
    → (str_eq id "" || token == 0) ≡ false
    → holds (m.leases id) token now ≡ true
    → let q = memory_renew m ctx id token now in
      (q.0 ≡ none)
      × (q.1.last_token id ≡ m.last_token id)
      × (q.1.leases id ≡ some (record { token = token; expires_at = now + m.lease_duration }))
      × (q.1.records id ≡ m.records id)
unfolding memory_renew
memory_renew-renewed m ctx id token now c i h = ground (arith, eq_iff id id)

pub memory_write-written :
    (utf8_valid : String → Bool) (m : MemoryLeaseStore) (ctx : Ctx) (cp : Checkpoint) (token : ℕ)
    (create : Bool) (now : ℕ)
    → check_memory_lease_context ctx ≡ none
    → validate_checkpoint utf8_valid cp ≡ none
    → (token == 0) ≡ false
    → holds (m.leases cp.execution_id) token now ≡ true
    → record_error create (m.records cp.execution_id) cp ≡ none
    → let q = memory_write utf8_valid m ctx cp token create now in
      (q.0 ≡ none)
      × (q.1.last_token cp.execution_id ≡ m.last_token cp.execution_id)
      × (q.1.leases cp.execution_id ≡ m.leases cp.execution_id)
      × (q.1.records cp.execution_id ≡ some cp)
unfolding memory_write
memory_write-written utf8_valid m ctx cp token create now c v z h k =
    ground (arith, eq_iff cp.execution_id cp.execution_id)
