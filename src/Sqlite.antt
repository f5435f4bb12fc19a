-- ===== src/Sqlite.antt =====
-- sqlite_store.go: the store in a database. Each SQL statement is a function of one row, which SQLite
-- applies as one step; SQLite itself is outside the repository. How a statement ends for the caller is
-- an argument, and so is what a later query sees, since other processes may come between. The
-- clock (nanoseconds since 1970) is read once by each operation and is an argument. Blobs and JSON are
-- parameters; decoding fails on a negative number, which validateCheckpoint rejects after it.
pub mod Operations
pub mod Views
pub mod Memory
pub mod Steps
pub mod Laws
pub mod Bounds
pub mod Agreement
use agent_harness_runtime.Base.{
  magnitude, ℕ, ◌+◌, ◌-◌, ◌/◌, ◌^◌, String, Bool, true, false, not, ◌&&◌, ◌||◌, Option, none, some,
  ℤ, is_positive, str_eq, ltb, leb, ◌==◌, if◌then◌else◌,
}
use agent_harness_runtime.Errors.{
  Error, sentinel, detail, both, opaque, Reply, ok, err, invalid_request, invalid_checkpoint,
  execution_busy, execution_fenced, execution_lease_required, execution_exists, execution_not_found,
  checkpoint_conflict,
}
use agent_harness_runtime.Checkpoint.{Checkpoint, validate_checkpoint}
use agent_harness_runtime.MemoryLeaseStore.{Map, set, Ctx}

-- A row of `harness_executions`, without its key.
pub record Row (B : Type 0) : Type 0 where
  pub checkpoint_json : Option B
  pub revision : ℕ
  pub fencing_token : ℕ
  pub lease_expires : ℕ

pub record SqliteCheckpointStore (B : Type 0) : Type 0 where
  pub lease_duration : ℕ
  pub table : Map (Row B)

-- `math.MaxInt64`.
abbrev pub max_int64 : ℕ
max_int64 = 2 ^ 63 - 1

-- How a statement ends: `none` is success, else an error, and whether the statement took effect.
abbrev pub Fault : Type 0
Fault = Option (Error × Bool)

-- `checkSQLiteStoreContext`.
unfoldable pub check_sqlite_store_context : Ctx → Option Error
check_sqlite_store_context none = some (detail (sentinel invalid_request) "context is required")
check_sqlite_store_context (some e) = e

-- `sqliteInt64`.
unfoldable pub sqlite_int64 : ℕ → String → Reply ℕ
sqlite_int64 value name =
    if ltb max_int64 value
    then err (detail (sentinel invalid_checkpoint) "exceeds sqlite integer range")
    else ok value

-- `sqliteLeaseExpiry`, of a duration that is an int64.
unfoldable pub sqlite_lease_expiry : ℕ → ℕ → Reply ℕ
sqlite_lease_expiry now duration =
    if leb duration 0 || ltb (max_int64 - duration) now
    then err (detail (sentinel invalid_request) "invalid lease deadline")
    else ok (now + duration)

-- `ExecutionLeaseRenewalInterval`.
unfoldable pub sqlite_renewal_interval : {B : Type 0} → SqliteCheckpointStore B → ℕ
sqlite_renewal_interval s =
    let interval = s.lease_duration / 3 in if leb interval 0 then s.lease_duration else interval

module _ {B : Type 0} where
  -- `NewSQLiteCheckpointStore`; `opened` is the table once the database is open and initialized.
  unfoldable pub new_sqlite_checkpoint_store :
      String → ℤ → Reply (Map (Row B)) → Reply (SqliteCheckpointStore B)
  new_sqlite_checkpoint_store path lease_duration opened =
      if str_eq path ""
      then err (detail (sentinel invalid_request) "sqlite path is required")
      else if not (is_positive lease_duration)
      then err (detail (sentinel invalid_request) "lease duration must be positive")
      else elim opened [
        | err e ↦ err e
        | ok table ↦ ok (record { lease_duration = magnitude lease_duration; table = table })
      ]

  -- The statements, on the row of an execution: the row they leave, `none` where they change none.
  -- The upsert of `AcquireExecutionLease`.
  abbrev pub leased_row : Option (Row B) → ℕ → ℕ → Option (Row B)
  leased_row none expires now =
      some (record {
        checkpoint_json = none;
        revision = 0;
        fencing_token = 1;
        lease_expires = expires;
      })
  leased_row (some row) expires now =
      if leb row.lease_expires now && ltb row.fencing_token max_int64
      then some (record row { fencing_token = row.fencing_token + 1; lease_expires = expires })
      else none

  -- The update of the release function.
  abbrev pub released_row : Option (Row B) → ℕ → Option (Row B)
  released_row none token = none
  released_row (some row) token =
      if row.fencing_token == token then some (record row { lease_expires = 0 }) else none

  -- `fencing_token = ? AND lease_expires_unix_ns > ?`.
  abbrev pub owned_row : Row B → ℕ → ℕ → Bool
  owned_row row token now = row.fencing_token == token && ltb now row.lease_expires

  -- The update of `RenewExecutionLease`.
  abbrev pub renewed_row : Option (Row B) → ℕ → ℕ → ℕ → Option (Row B)
  renewed_row none token expires now = none
  renewed_row (some row) token expires now =
      if owned_row row token now then some (record row { lease_expires = expires }) else none

  -- The conditions of `writeFenced` on the stored checkpoint, for a creation and for a save.
  abbrev pub may_write : Bool → Option B → ℕ → ℕ → Bool
  may_write true none old revision = true
  may_write true (some blob) old revision = false
  may_write false none old revision = false
  may_write false (some blob) old revision = old == 0 || ltb old revision

  -- The updates of `writeFenced`.
  abbrev pub written_row : Bool → Option (Row B) → B → ℕ → ℕ → ℕ → Option (Row B)
  written_row create none blob revision token now = none
  written_row create (some row) blob revision token now =
      if owned_row row token now && may_write create row.checkpoint_json row.revision revision
      then some (record row { checkpoint_json = some blob; revision = revision })
      else none

  -- The table with the row that a statement leaves.
  abbrev pub put : SqliteCheckpointStore B → String → Option (Row B) → SqliteCheckpointStore B
  put s id none = s
  put s id (some row) = record s { table = set s.table id row }

  -- A statement on the row of `id`, with what its caller learns: the new row, if there is one.
  abbrev pub exec :
      SqliteCheckpointStore B
      → String
      → Option (Row B)
      → Fault
      → Reply (Option (Row B)) × SqliteCheckpointStore B
  exec s id row none = (ok row, put s id row)
  exec s id row (some (e, true)) = (err e, put s id row)
  exec s id row (some (e, false)) = (err e, s)

  -- `classifyLeaseAcquisition`, of what its query sees.
  unfoldable pub classify_lease_acquisition : Reply (Option (Row B)) → ℕ → Error
  classify_lease_acquisition (err e) now = e
  classify_lease_acquisition (ok none) now = opaque "sql: no rows in result set"
  classify_lease_acquisition (ok (some row)) now =
      if ltb now row.lease_expires
      then sentinel execution_busy
      else if row.fencing_token == max_int64
      then detail (sentinel execution_fenced) "fencing token exhausted"
      else sentinel execution_busy
