-- ===== src/MemoryLeaseStore.antt =====
-- memory_lease_store.go: the store of leases and checkpoints in memory. Its mutex makes each operation
-- one step on the state; the clock is read once by each and is an argument. A context is an argument too:
-- `none` for nil, else its `Err()`. A Go map is a function here, with `none` for a missing key; the zero
-- of a missing token is written out.
pub mod Steps
pub mod Fencing
pub mod Writes
use agent_harness_runtime.Base.{
  ℕ, suc, ◌+◌, ◌/◌, ◌%◌, ◌^◌, String, Bool, true, false, not, ◌&&◌, ◌||◌, Option, none, some,
  str_eq, ltb, leb, ◌==◌, if◌then◌else◌,
}
use agent_harness_runtime.Errors.{
  Error, sentinel, detail, Reply, ok, err, invalid_request, invalid_checkpoint, execution_busy,
  execution_fenced, execution_lease_required, execution_exists, execution_not_found,
  checkpoint_conflict,
}
use agent_harness_runtime.Checkpoint.{Checkpoint, validate_checkpoint}

-- `memoryExecutionLease`.
pub record MemoryExecutionLease : Type 0 where
  pub token : ℕ
  pub expires_at : ℕ

abbrev pub Map {ℓ} : Type ℓ → Type ℓ
Map A = String → Option A

module _ {ℓ} {A : Type ℓ} where
  abbrev pub set : Map A → String → A → Map A
  set m key a other = if str_eq other key then some a else m other

  abbrev pub delete : Map A → String → Map A
  delete m key other = if str_eq other key then none else m other

pub record MemoryLeaseStore : Type 0 where
  pub lease_duration : ℕ
  pub records : Map Checkpoint
  pub leases : Map MemoryExecutionLease
  pub last_token : Map ℕ

-- `s.lastToken[executionID]`, 0 for a missing key.
abbrev pub or_zero : Option ℕ → ℕ
or_zero none = 0
or_zero (some n) = n

abbrev pub Ctx : Type 0
Ctx = Option (Option Error)

-- `checkMemoryLeaseContext`.
unfoldable pub check_memory_lease_context : Ctx → Option Error
check_memory_lease_context none = some (detail (sentinel invalid_request) "context is required")
check_memory_lease_context (some e) = e

-- `NewMemoryLeaseStore`.
unfoldable pub new_memory_lease_store : ℕ → Reply MemoryLeaseStore
new_memory_lease_store lease_duration =
    if leb lease_duration 0
    then err (detail (sentinel invalid_request) "lease duration must be positive")
    else ok (record {
      lease_duration = lease_duration;
      records = λ id. none;
      leases = λ id. none;
      last_token = λ id. none;
    })

-- `ok && now.Before(lease.expiresAt)`.
abbrev pub is_active : Option MemoryExecutionLease → ℕ → Bool
is_active none now = false
is_active (some lease) now = ltb now lease.expires_at

-- The lease is there, has the token and has not expired.
abbrev pub holds : Option MemoryExecutionLease → ℕ → ℕ → Bool
holds none token now = false
holds (some lease) token now = lease.token == token && ltb now lease.expires_at

-- `AcquireExecutionLease`: the token.
unfoldable pub acquire_execution_lease :
    MemoryLeaseStore → Ctx → String → ℕ → Reply ℕ × MemoryLeaseStore
unfolding check_memory_lease_context
acquire_execution_lease s ctx id now = elim (check_memory_lease_context ctx) [
  | some e ↦ (err e, s)
  | none ↦
      let token = (or_zero (s.last_token id) + 1) % 2 ^ 64 in
      let lease : MemoryExecutionLease = record {
        token = token;
        expires_at = now + s.lease_duration;
      } in
      if str_eq id ""
      then (err (detail (sentinel invalid_request) "execution ID is required"), s)
      else if is_active (s.leases id) now
      then (err (sentinel execution_busy), s)
      else if token == 0
      then (err (detail (sentinel execution_fenced) "fencing token exhausted"), s)
      else (
        ok token,
        record s { last_token = set s.last_token id token; leases = set s.leases id lease },
      )
]

abbrev pub owns : Option MemoryExecutionLease → ℕ → Bool
owns none token = false
owns (some lease) token = lease.token == token

-- What the release function of an acquisition does when it is first called.
unfoldable pub release_lease : MemoryLeaseStore → String → ℕ → MemoryLeaseStore
release_lease s id token =
    if owns (s.leases id) token then record s { leases = delete s.leases id } else s

-- `ExecutionLeaseRenewalInterval`.
unfoldable pub execution_lease_renewal_interval : MemoryLeaseStore → ℕ
execution_lease_renewal_interval s =
    let interval = s.lease_duration / 3 in if leb interval 0 then s.lease_duration else interval

-- `RenewExecutionLease`.
unfoldable pub renew_execution_lease :
    MemoryLeaseStore → Ctx → String → ℕ → ℕ → Option Error × MemoryLeaseStore
unfolding check_memory_lease_context
renew_execution_lease s ctx id token now = elim (check_memory_lease_context ctx) [
  | some e ↦ (some e, s)
  | none ↦
      let lease : MemoryExecutionLease = record {
        token = token;
        expires_at = now + s.lease_duration;
      } in
      if str_eq id "" || token == 0
      then (
        some (detail (sentinel execution_lease_required) "ID and fencing token are required"),
        s,
      )
      else if not (holds (s.leases id) token now)
      then (some (detail (sentinel execution_fenced) "execution token"), s)
      else (none, record s { leases = set s.leases id lease })
]

-- `Create` and `Save`: writes without a token.
unfoldable pub plain_write : MemoryLeaseStore → Ctx → Checkpoint → Option Error × MemoryLeaseStore
unfolding check_memory_lease_context
plain_write s ctx cp = elim (check_memory_lease_context ctx) [
  | some e ↦ (some e, s)
  | none ↦ (some (sentinel execution_lease_required), s)
]

-- `Load`.
unfoldable pub load : MemoryLeaseStore → Ctx → String → Reply Checkpoint
unfolding check_memory_lease_context
load s ctx id = elim (check_memory_lease_context ctx) [
  | some e ↦ err e
  | none ↦
      if str_eq id ""
      then err (detail (sentinel invalid_checkpoint) "execution ID is required")
      else elim (s.records id) [
        | none ↦ err (detail (sentinel execution_not_found) "execution ID")
        | some cp ↦ ok cp
      ]
]

-- The test against the stored checkpoint, for a creation and for a save.
abbrev pub record_error : Bool → Option Checkpoint → Checkpoint → Option Error
record_error true none cp = none
record_error true (some current) cp = some (detail (sentinel execution_exists) "execution ID")
record_error false none cp = some (detail (sentinel execution_not_found) "execution ID")
record_error false (some current) cp =
    if ltb 0 current.revision && (cp.revision == 0 || leb cp.revision current.revision)
    then some (detail (sentinel checkpoint_conflict) "revision")
    else none

abbrev stored : Option Error → MemoryLeaseStore → Checkpoint → Option Error × MemoryLeaseStore
stored (some e) s cp = (some e, s)
stored none s cp = (none, record s { records = set s.records cp.execution_id cp })

module _ (utf8_valid : String → Bool) where
  -- `writeFenced`, and so `CreateFenced` and `SaveFenced`.
  unfoldable pub write_fenced :
      MemoryLeaseStore → Ctx → Checkpoint → ℕ → Bool → ℕ → Option Error × MemoryLeaseStore
  unfolding check_memory_lease_context
  write_fenced s ctx cp token create now = elim (check_memory_lease_context ctx) [
    | some e ↦ (some e, s)
    | none ↦ elim (validate_checkpoint utf8_valid cp) [
      | some e ↦ (some e, s)
      | none ↦
          if token == 0
          then (some (sentinel execution_lease_required), s)
          else if not (holds (s.leases cp.execution_id) token now)
          then (some (detail (sentinel execution_fenced) "execution token"), s)
          else stored (record_error create (s.records cp.execution_id) cp) s cp
    ]
  ]
