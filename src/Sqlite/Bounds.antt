-- ===== src/Sqlite/Bounds.antt =====
-- sqlite_store.go: the numbers in the table are int64s, and tokens never go back.
use agent_harness_runtime.Base.{ℕ, ◌≤◌, String, Bool, Option, none, some, arith, eq_iff}
use agent_harness_runtime.Errors.{Reply}
use agent_harness_runtime.Checkpoint.{Checkpoint}
use agent_harness_runtime.MemoryLeaseStore.{Ctx}
use agent_harness_runtime.Sqlite.{
  Row, SqliteCheckpointStore, Fault, max_int64, check_sqlite_store_context, sqlite_int64,
  sqlite_lease_expiry,
}
use agent_harness_runtime.Sqlite.Operations.{
  acquire_execution_lease, release_lease, renew_execution_lease, plain_write, write_fenced,
}
use agent_harness_runtime.Sqlite.Steps.{
  SqliteStep, leasing, freeing, renewing, writing_plain, writing, SqliteSteps, ended, followed,
}

module _ {B : Type 0} where
  -- The numbers of a row are int64s.
  abbrev pub InRange : Option (Row B) → Type 0
  InRange none = Unit
  InRange (some row) =
      (row.revision ≤ max_int64) × (row.fencing_token ≤ max_int64) × (row.lease_expires ≤ max_int64)

  abbrev pub token_of : Option (Row B) → ℕ
  token_of none = 0
  token_of (some row) = row.fencing_token

  -- The row of `id` and the lease duration are in range, and the token is at least `token`.
  abbrev pub RowBounded : String → ℕ → SqliteCheckpointStore B → Type 0
  RowBounded id token s =
      (s.lease_duration ≤ max_int64) × InRange (s.table id) × (token ≤ token_of (s.table id))

  acquire-RowBounded :
      (s : SqliteCheckpointStore B) (ctx : Ctx) (other : String) (now : ℕ) (fault : Fault)
      (seen : Reply (Option (Row B))) (id : String) (token : ℕ)
      → RowBounded id token s
      → RowBounded id token (acquire_execution_lease s ctx other now fault seen).1
  unfolding acquire_execution_lease check_sqlite_store_context sqlite_lease_expiry
  acquire-RowBounded s ctx other now fault seen id token h = ground (arith, eq_iff id other)

  release-RowBounded :
      (s : SqliteCheckpointStore B) (other : String) (t : ℕ) (fault : Fault) (id : String)
      (token : ℕ)
      → RowBounded id token s
      → RowBounded id token (release_lease s other t fault)
  unfolding release_lease
  release-RowBounded s other t fault id token h = ground (arith, eq_iff id other)

  renew-RowBounded :
      (s : SqliteCheckpointStore B) (ctx : Ctx) (other : String) (t now : ℕ) (fault : Fault)
      (id : String) (token : ℕ)
      → RowBounded id token s
      → RowBounded id token (renew_execution_lease s ctx other t now fault).1
  unfolding renew_execution_lease check_sqlite_store_context sqlite_lease_expiry sqlite_int64
  renew-RowBounded s ctx other t now fault id token h = ground (arith, eq_iff id other)

  plain_write-RowBounded :
      (s : SqliteCheckpointStore B) (ctx : Ctx) (cp : Checkpoint) (id : String) (token : ℕ)
      → RowBounded id token s
      → RowBounded id token (plain_write s ctx cp).1
  unfolding plain_write
  plain_write-RowBounded s ctx cp id token h = ground arith

  module _ (utf8_valid : String → Bool) (marshal : Checkpoint → Reply B)
      (unmarshal : B → Reply Checkpoint) where
    write-RowBounded :
        (s : SqliteCheckpointStore B) (ctx : Ctx) (cp : Checkpoint) (t : ℕ) (create : Bool)
        (now : ℕ) (fault : Fault) (seen : Reply (Option (Row B))) (id : String) (token : ℕ)
        → RowBounded id token s
        → RowBounded id token
            (write_fenced utf8_valid marshal unmarshal s ctx cp t create now fault seen).1
    unfolding write_fenced check_sqlite_store_context sqlite_int64
    write-RowBounded s ctx cp t create now fault seen id token h =
        ground (arith, eq_iff id cp.execution_id)

    step-RowBounded :
        (s s' : SqliteCheckpointStore B) (id : String) (token : ℕ)
        → SqliteStep utf8_valid marshal unmarshal s s'
        → RowBounded id token s
        → RowBounded id token s'
    step-RowBounded s s' id token (leasing ctx other now fault seen e) h =
        rw e (acquire-RowBounded s ctx other now fault seen id token h)
    step-RowBounded s s' id token (freeing other t fault e) h =
        rw e (release-RowBounded s other t fault id token h)
    step-RowBounded s s' id token (renewing ctx other t now fault e) h =
        rw e (renew-RowBounded s ctx other t now fault id token h)
    step-RowBounded s s' id token (writing_plain ctx cp e) h =
        rw e (plain_write-RowBounded s ctx cp id token h)
    step-RowBounded s s' id token (writing ctx cp t create now fault seen e) h =
        rw e (write-RowBounded s ctx cp t create now fault seen id token h)

    -- Whatever processes do, in any order and however their statements end: if the lease duration
    -- and the numbers in the row of an execution are int64s at first, those in its row stay so, and
    -- its fencing token never falls below what it was.
    pub SqliteSteps-RowBounded :
        (s s' : SqliteCheckpointStore B) (id : String) (token : ℕ)
        → SqliteSteps utf8_valid marshal unmarshal s s'
        → RowBounded id token s
        → RowBounded id token s'
    SqliteSteps-RowBounded s s' id token (ended _) h = h
    SqliteSteps-RowBounded s s' id token (followed _ b _ step rest) h =
        SqliteSteps-RowBounded b s' id token rest (step-RowBounded s b id token step h)
