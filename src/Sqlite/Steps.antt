-- ===== src/Sqlite/Steps.antt =====
-- sqlite_store.go: the operations of all processes as steps on the table, in any order, each ending as it
-- may; and the same operations on the store in memory.
use agent_harness_runtime.Base.{ℕ, ◌≡◌, String, Bool, Option}
use agent_harness_runtime.Errors.{Reply}
use agent_harness_runtime.Checkpoint.{Checkpoint}
use agent_harness_runtime.MemoryLeaseStore.{Ctx}
use agent_harness_runtime.Sqlite.{Row, SqliteCheckpointStore, Fault}
use agent_harness_runtime.Sqlite.Operations.{
  acquire_execution_lease, release_lease, renew_execution_lease, plain_write, write_fenced,
}

module _ {B : Type 0} (utf8_valid : String → Bool) (marshal : Checkpoint → Reply B)
    (unmarshal : B → Reply Checkpoint) where
  -- One operation of one process, successful or not.
  pub data SqliteStep (s s' : SqliteCheckpointStore B) : Type 0 where
    leasing :
        (ctx : Ctx) (id : String) (now : ℕ) (fault : Fault) (seen : Reply (Option (Row B)))
        → s' ≡ (acquire_execution_lease s ctx id now fault seen).1
        → SqliteStep s s'
    freeing :
        (id : String) (token : ℕ) (fault : Fault)
        → s' ≡ release_lease s id token fault
        → SqliteStep s s'
    renewing :
        (ctx : Ctx) (id : String) (token now : ℕ) (fault : Fault)
        → s' ≡ (renew_execution_lease s ctx id token now fault).1
        → SqliteStep s s'
    writing_plain : (ctx : Ctx) (cp : Checkpoint) → s' ≡ (plain_write s ctx cp).1 → SqliteStep s s'
    writing :
        (ctx : Ctx) (cp : Checkpoint) (token : ℕ) (create : Bool) (now : ℕ) (fault : Fault)
        (seen : Reply (Option (Row B)))
        → s' ≡ (write_fenced utf8_valid marshal unmarshal s ctx cp token create now fault seen).1
        → SqliteStep s s'

  -- Any number of operations.
  pub data SqliteSteps : SqliteCheckpointStore B → SqliteCheckpointStore B → Type 0 where
    ended : (s : SqliteCheckpointStore B) → SqliteSteps s s
    followed :
        (s s' s'' : SqliteCheckpointStore B)
        → SqliteStep s s'
        → SqliteSteps s' s''
        → SqliteSteps s s''
