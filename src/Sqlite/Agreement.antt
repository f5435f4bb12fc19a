-- ===== src/Sqlite/Agreement.antt =====
-- sqlite_store.go and memory_lease_store.go: where no statement fails and no number is out of range,
-- the two stores answer alike; what is written is what is loaded; numbers stay in range.
use agent_harness_runtime.Base.{
  ℕ, ◌+◌, ◌≤◌, ◌<◌, ◌≡◌, ◌≢◌, inl, inr, String, Bool, Option, none, some, arith, eq_iff,
  Option-cases,
}
use agent_harness_runtime.Errors.{Reply, ok}
use agent_harness_runtime.Checkpoint.{Checkpoint, validate_checkpoint}
use agent_harness_runtime.MemoryLeaseStore.{
  MemoryLeaseStore, Ctx, check_memory_lease_context, acquire_execution_lease as memory_acquire,
  write_fenced as memory_write, renew_execution_lease as memory_renew, load as memory_load,
}
use agent_harness_runtime.MemoryLeaseStore.Writes.{StoredValid, nonempty}
use agent_harness_runtime.Sqlite.{
  Row, SqliteCheckpointStore, Fault, max_int64, check_sqlite_store_context, sqlite_int64,
  sqlite_lease_expiry, written_row, put, classify_lease_acquisition,
}
use agent_harness_runtime.Sqlite.Operations.{
  acquire_execution_lease, renew_execution_lease, write_fenced, load, classify_fenced_write,
}
use agent_harness_runtime.Sqlite.Operations.Cases.{write-Wrote}
use agent_harness_runtime.Sqlite.Views.{Views, ViewsAt}

module _ {B : Type 0} (unmarshal : B → Reply Checkpoint) where
  acquire-Agrees :
      (s : SqliteCheckpointStore B) (m : MemoryLeaseStore) (ctx : Ctx) (id : String) (now : ℕ)
      → s.lease_duration ≡ m.lease_duration
      → ViewsAt unmarshal s m id
      → 0 < s.lease_duration
      → now + s.lease_duration ≤ max_int64
      → (memory_acquire m ctx id now).0 ≢ ok (max_int64 + 1)
      → (acquire_execution_lease s ctx id now none (ok (s.table id))).0
        ≡ (memory_acquire m ctx id now).0
  unfolding acquire_execution_lease memory_acquire check_memory_lease_context
      check_sqlite_store_context sqlite_lease_expiry classify_lease_acquisition
  acquire-Agrees s m ctx id now d h p l t = ground arith

  renew-Agrees :
      (s : SqliteCheckpointStore B) (m : MemoryLeaseStore) (ctx : Ctx) (id : String) (token now : ℕ)
      → s.lease_duration ≡ m.lease_duration
      → ViewsAt unmarshal s m id
      → 0 < s.lease_duration
      → now + s.lease_duration ≤ max_int64
      → token ≤ max_int64
      → (renew_execution_lease s ctx id token now none).0 ≡ (memory_renew m ctx id token now).0
  unfolding renew_execution_lease memory_renew check_memory_lease_context check_sqlite_store_context
      sqlite_lease_expiry sqlite_int64
  renew-Agrees s m ctx id token now d h p l t = ground arith

  write-Agrees :
      (utf8_valid : String → Bool) (marshal : Checkpoint → Reply B) (s : SqliteCheckpointStore B)
      (m : MemoryLeaseStore) (ctx : Ctx) (cp : Checkpoint) (token : ℕ) (create : Bool) (now : ℕ)
      (blob : B)
      → ViewsAt unmarshal s m cp.execution_id
      → marshal cp ≡ ok blob
      → token ≤ max_int64
      → cp.revision ≤ max_int64
      → (write_fenced utf8_valid marshal unmarshal s ctx cp token create now none
          (ok (s.table cp.execution_id))).0
        ≡ (memory_write utf8_valid m ctx cp token create now).0
  unfolding write_fenced memory_write check_memory_lease_context check_sqlite_store_context
      sqlite_int64 classify_fenced_write
  write-Agrees utf8_valid marshal s m ctx cp token create now blob h j l k = ground arith

  load-Agrees :
      (utf8_valid : String → Bool) (marshal : Checkpoint → Reply B) (s : SqliteCheckpointStore B)
      (m : MemoryLeaseStore) (ctx : Ctx) (id : String)
      → ViewsAt unmarshal s m id
      → StoredValid utf8_valid id (m.records id)
      → load utf8_valid marshal unmarshal s ctx id none ≡ memory_load m ctx id
  unfolding load memory_load check_memory_lease_context check_sqlite_store_context
  load-Agrees utf8_valid marshal s m ctx id h v = elim (Option-cases (m.records id)) [
    | inl q ↦ ground (arith, q)
    | inr (cp, q) ↦ ground (arith, q, eq_iff cp.execution_id id)
  ]

  -- For a store in memory that the table shows, with a valid checkpoint of `id` or none: if the
  -- lease duration is positive, the lease deadline, the token, the next token and the revision are
  -- in the range of an int64, the checkpoint can be encoded, no statement fails and no other
  -- process comes between, then acquiring, renewing, writing and loading return exactly what they
  -- return in memory, errors included.
  pub operations-Agree :
      (utf8_valid : String → Bool) (marshal : Checkpoint → Reply B) (s : SqliteCheckpointStore B)
      (m : MemoryLeaseStore) (ctx : Ctx) (cp : Checkpoint) (token : ℕ) (create : Bool) (now : ℕ)
      (blob : B)
      → let id = cp.execution_id in
        Views unmarshal s m
        → StoredValid utf8_valid id (m.records id)
        → 0 < s.lease_duration
        → now + s.lease_duration ≤ max_int64
        → token ≤ max_int64
        → cp.revision ≤ max_int64
        → (memory_acquire m ctx id now).0 ≢ ok (max_int64 + 1)
        → marshal cp ≡ ok blob
        → ((acquire_execution_lease s ctx id now none (ok (s.table id))).0
            ≡ (memory_acquire m ctx id now).0)
          × ((renew_execution_lease s ctx id token now none).0
              ≡ (memory_renew m ctx id token now).0)
          × ((write_fenced utf8_valid marshal unmarshal s ctx cp token create now none
                (ok (s.table id))).0
              ≡ (memory_write utf8_valid m ctx cp token create now).0)
          × (load utf8_valid marshal unmarshal s ctx id none ≡ memory_load m ctx id)
  operations-Agree utf8_valid marshal s m ctx cp token create now blob = λ h v p l t k x j. (
    acquire-Agrees s m ctx cp.execution_id now h.0 (h.1 cp.execution_id) p l x,
    renew-Agrees s m ctx cp.execution_id token now h.0 (h.1 cp.execution_id) p l t,
    write-Agrees utf8_valid marshal s m ctx cp token create now blob (h.1 cp.execution_id) j t k,
    load-Agrees utf8_valid marshal s m ctx cp.execution_id (h.1 cp.execution_id) v,
  )

  loads :
      (utf8_valid : String → Bool) (marshal : Checkpoint → Reply B) (s : SqliteCheckpointStore B)
      (cp : Checkpoint) (blob : B) (row : Row B) (token : ℕ) (create : Bool) (now : ℕ)
      → unmarshal blob ≡ ok cp
      → validate_checkpoint utf8_valid cp ≡ none
      → written_row create (s.table cp.execution_id) blob cp.revision token now ≡ some row
      → load utf8_valid marshal unmarshal
          (put s cp.execution_id (some row))
          (some none)
          cp.execution_id
          none
        ≡ ok cp
  unfolding load check_sqlite_store_context
  loads utf8_valid marshal s cp blob row token create now d v l =
      ground (arith, eq_iff cp.execution_id cp.execution_id, nonempty utf8_valid cp v)

  -- A checkpoint whose write is accepted is what the next load of its execution returns, if encoded
  -- checkpoints decode to themselves and no query fails.
  pub sqlite_write-load :
      (utf8_valid : String → Bool) (marshal : Checkpoint → Reply B)
      → ((cp : Checkpoint) (blob : B) → marshal cp ≡ ok blob → unmarshal blob ≡ ok cp)
      → (s : SqliteCheckpointStore B) (ctx : Ctx) (cp : Checkpoint) (token : ℕ) (create : Bool)
        (now : ℕ) (fault : Fault) (seen : Reply (Option (Row B)))
      → let r = write_fenced utf8_valid marshal unmarshal s ctx cp token create now fault seen in
        r.0 ≡ none → load utf8_valid marshal unmarshal r.1 (some none) cp.execution_id none ≡ ok cp
  sqlite_write-load utf8_valid marshal decodes s ctx cp token create now fault seen accepted =
      elim (write-Wrote utf8_valid marshal unmarshal s ctx cp token create now fault seen) [
        | inl kept ↦ absurd (kept.1 accepted)
        | inr (blob, row, j, c, v, z, l, a) ↦
            rw a (loads utf8_valid marshal s cp blob row token create now (decodes cp blob j) v l)
      ]
