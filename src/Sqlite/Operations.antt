-- ===== src/Sqlite/Operations.antt =====
-- sqlite_store.go: the operations of the store.
pub mod Cases
pub mod Refines
use agent_harness_runtime.Base.{
  ℕ, String, Bool, true, false, ◌||◌, Option, none, some, str_eq, ltb, leb, ◌==◌, not,
  if◌then◌else◌,
}
use agent_harness_runtime.Errors.{
  Error, sentinel, detail, both, opaque, Reply, ok, err, invalid_request, invalid_checkpoint,
  execution_fenced, execution_lease_required, execution_exists, execution_not_found,
  checkpoint_conflict,
}
use agent_harness_runtime.Checkpoint.{Checkpoint, validate_checkpoint}
use agent_harness_runtime.MemoryLeaseStore.{Ctx}
use agent_harness_runtime.Sqlite.{
  Row, SqliteCheckpointStore, Fault, check_sqlite_store_context, sqlite_int64, sqlite_lease_expiry,
  leased_row, released_row, renewed_row, written_row, exec, classify_lease_acquisition,
}

module _ {B : Type 0} where
  acquired :
      Reply (Option (Row B))
      → ℕ
      → Reply (Option (Row B)) × SqliteCheckpointStore B
      → Reply ℕ × SqliteCheckpointStore B
  acquired seen now (err e, s) = (err e, s)
  acquired seen now (ok none, s) = (err (classify_lease_acquisition seen now), s)
  acquired seen now (ok (some row), s) = (ok row.fencing_token, s)

  -- `AcquireExecutionLease`: the token.
  unfoldable pub acquire_execution_lease :
      SqliteCheckpointStore B
      → Ctx
      → String
      → ℕ
      → Fault
      → Reply (Option (Row B))
      → Reply ℕ × SqliteCheckpointStore B
  unfolding acquired check_sqlite_store_context sqlite_lease_expiry
  acquire_execution_lease s ctx id now fault seen = elim (check_sqlite_store_context ctx) [
    | some e ↦ (err e, s)
    | none ↦
        if str_eq id ""
        then (err (detail (sentinel invalid_request) "execution ID is required"), s)
        else elim (sqlite_lease_expiry now s.lease_duration) [
          | err e ↦ (err e, s)
          | ok expires ↦ acquired seen now (exec s id (leased_row (s.table id) expires now) fault)
        ]
  ]

  -- What the release function of an acquisition does when it is first called; its error is dropped.
  unfoldable pub release_lease :
      SqliteCheckpointStore B → String → ℕ → Fault → SqliteCheckpointStore B
  release_lease s id token fault = (exec s id (released_row (s.table id) token) fault).1

  renewed :
      Reply (Option (Row B)) × SqliteCheckpointStore B → Option Error × SqliteCheckpointStore B
  renewed (err e, s) = (some e, s)
  renewed (ok none, s) = (some (detail (sentinel execution_fenced) "execution token"), s)
  renewed (ok (some row), s) = (none, s)

  -- `RenewExecutionLease`.
  unfoldable pub renew_execution_lease :
      SqliteCheckpointStore B
      → Ctx
      → String
      → ℕ
      → ℕ
      → Fault
      → Option Error × SqliteCheckpointStore B
  unfolding renewed check_sqlite_store_context sqlite_int64 sqlite_lease_expiry
  renew_execution_lease s ctx id fencing_token now fault = elim (check_sqlite_store_context ctx) [
    | some e ↦ (some e, s)
    | none ↦
        if str_eq id "" || fencing_token == 0
        then (
          some (detail (sentinel execution_lease_required) "ID and fencing token are required"),
          s,
        )
        else elim (sqlite_int64 fencing_token "fencing token") [
          | err e ↦ (some e, s)
          | ok token ↦ elim (sqlite_lease_expiry now s.lease_duration) [
            | err e ↦ (some e, s)
            | ok expires ↦ renewed (exec s id (renewed_row (s.table id) token expires now) fault)
          ]
        ]
  ]

  -- `Create` and `Save`: writes without a token.
  unfoldable pub plain_write :
      SqliteCheckpointStore B → Ctx → Checkpoint → Option Error × SqliteCheckpointStore B
  unfolding check_sqlite_store_context
  plain_write s ctx cp = elim (check_sqlite_store_context ctx) [
    | some e ↦ (some e, s)
    | none ↦ (some (sentinel execution_lease_required), s)
  ]

  abbrev is_stored : Option B → Bool
  is_stored none = false
  is_stored (some blob) = true

  -- `classifyFencedWrite`, of what its query sees.
  unfoldable pub classify_fenced_write : Reply (Option (Row B)) → ℕ → ℕ → Bool → Error
  classify_fenced_write (err e) token now create = e
  classify_fenced_write (ok none) token now create =
      detail (sentinel execution_fenced) "execution token"
  classify_fenced_write (ok (some row)) token now create =
      if not (row.fencing_token == token) || leb row.lease_expires now
      then detail (sentinel execution_fenced) "execution token"
      else if create
      then if is_stored row.checkpoint_json
        then detail (sentinel execution_exists) "execution ID"
        else detail (sentinel checkpoint_conflict) "create was not applied"
      else if not (is_stored row.checkpoint_json)
      then detail (sentinel execution_not_found) "execution ID"
      else detail (sentinel checkpoint_conflict) "revision"

  wrote :
      Reply (Option (Row B))
      → ℕ
      → ℕ
      → Bool
      → Reply (Option (Row B)) × SqliteCheckpointStore B
      → Option Error × SqliteCheckpointStore B
  wrote seen token now create (err e, s) = (some e, s)
  wrote seen token now create (ok none, s) = (some (classify_fenced_write seen token now create), s)
  wrote seen token now create (ok (some row), s) = (none, s)

  module _ (utf8_valid : String → Bool) (marshal : Checkpoint → Reply B)
      (unmarshal : B → Reply Checkpoint) where
    -- `writeFenced`, and so `CreateFenced` and `SaveFenced`.
    unfoldable pub write_fenced :
        SqliteCheckpointStore B
        → Ctx
        → Checkpoint
        → ℕ
        → Bool
        → ℕ
        → Fault
        → Reply (Option (Row B))
        → Option Error × SqliteCheckpointStore B
    unfolding wrote check_sqlite_store_context sqlite_int64
    write_fenced s ctx cp fencing_token create now fault seen =
        elim (check_sqlite_store_context ctx) [
          | some e ↦ (some e, s)
          | none ↦ elim (validate_checkpoint utf8_valid cp) [
            | some e ↦ (some e, s)
            | none ↦
                if fencing_token == 0
                then (some (sentinel execution_lease_required), s)
                else elim (sqlite_int64 fencing_token "fencing token") [
                  | err e ↦ (some e, s)
                  | ok token ↦ elim (sqlite_int64 cp.revision "checkpoint revision") [
                    | err e ↦ (some e, s)
                    | ok revision ↦ elim (marshal cp) [
                      | err e ↦ (some e, s)
                      | ok blob ↦ wrote seen token now create (
                          exec s cp.execution_id
                            (written_row create (s.table cp.execution_id) blob revision token now)
                            fault)
                    ]
                  ]
                ]
          ]
        ]

    decoded : String → Reply Checkpoint → Reply Checkpoint
    decoded id (err e) = err (both (sentinel invalid_checkpoint) e)
    decoded id (ok cp) = elim (validate_checkpoint utf8_valid cp) [
      | some e ↦ err e
      | none ↦
          if not (str_eq cp.execution_id id)
          then err (detail (sentinel invalid_checkpoint) "execution ID mismatch")
          else ok cp
    ]

    abbrev pub blob_of : Option (Row B) → Option B
    blob_of none = none
    blob_of (some row) = row.checkpoint_json

    found : String → Option B → Reply Checkpoint
    unfolding decoded
    found id none = err (detail (sentinel execution_not_found) "execution ID")
    found id (some blob) = decoded id (unmarshal blob)

    -- `Load`; its query may fail.
    unfoldable pub load : SqliteCheckpointStore B → Ctx → String → Option Error → Reply Checkpoint
    unfolding found check_sqlite_store_context
    load s ctx id fault = elim (check_sqlite_store_context ctx) [
      | some e ↦ err e
      | none ↦
          if str_eq id ""
          then err (detail (sentinel invalid_checkpoint) "execution ID is required")
          else elim fault [ some e ↦ err e | none ↦ found id (blob_of (s.table id)) ]
    ]
