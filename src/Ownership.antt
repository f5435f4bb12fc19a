-- ===== src/Ownership.antt =====
-- execution_lease.go (`acquireExecutionOwnership`) and execution_lease_renewal.go (the tests of
-- `startExecutionLeaseRenewal`). The goroutine that renews is the platform's `renewing`: what the run
-- sees of it is the cause of the context it returns.
use agent_harness_runtime.Base.{ℕ, String, Bool, Option, none, some, ◌==◌, if◌then◌else◌}
use agent_harness_runtime.Errors.{
  Sentinel, sentinel, detail, both, Reply, ok, err, checkpoint_store, recovery_unsupported,
  lease_fencing_unsupported, invalid_lease_renewal,
}
use agent_harness_runtime.Ports.{Context, Lease, Store, FencedStore, Platform}
use agent_harness_runtime.Runtime.State.{Runtime}

-- `executionOwnership`.
pub record ExecutionOwnership (W : Type 0) : Type 0 where
  pub fencing_token : ℕ
  pub release : W → W

abbrev pub fails {ℓ} : {A : Type ℓ} → Sentinel → String → Reply A
fails s text = err (detail (sentinel s) text)

module _ {W : Type 0} where
  -- `executionOwnership{release: func() {}}`.
  abbrev pub noop : ExecutionOwnership W
  noop = record { fencing_token = 0; release = λ w. w }

  abbrev released : Option (W → W) → W → W
  released none w = w
  released (some release) w = release w

  abbrev owned_lease : ℕ → Option (W → W) → Reply (ExecutionOwnership W)
  owned_lease token none = fails checkpoint_store "lease returned invalid ownership"
  owned_lease token (some release) = ok (record { fencing_token = token; release = release })

  -- What follows `AcquireExecutionLease`.
  leased : Reply (Lease W) × W → Reply (ExecutionOwnership W) × W
  leased (err e, w) = (err (both (sentinel checkpoint_store) e), w)
  leased (ok lease, w) =
      if lease.token == 0
      then (fails checkpoint_store "lease returned invalid ownership", released lease.release w)
      else (owned_lease lease.token lease.release, w)

  -- What follows `LockExecution`.
  locked : Reply (Option (W → W)) × W → Reply (ExecutionOwnership W) × W
  locked (err e, w) = (err (both (sentinel checkpoint_store) e), w)
  locked (ok none, w) = (fails checkpoint_store "execution lock returned no release function", w)
  locked (ok (some release), w) = (ok (record { fencing_token = 0; release = release }), w)

  by_lease :
      Option (FencedStore W) → (W → Reply (Lease W) × W) → W → Reply (ExecutionOwnership W) × W
  unfolding leased
  by_lease none acquire w =
      (fails lease_fencing_unsupported "ExecutionLeaser without FencedCheckpointStore", w)
  by_lease (some fenced) acquire w = leased (acquire w)

  by_lock : Option (W → Reply (Option (W → W)) × W) → Bool → W → Reply (ExecutionOwnership W) × W
  unfolding locked
  by_lock none required w =
      (if required then fails recovery_unsupported "store must implement ownership" else ok noop, w)
  by_lock (some lock) required w = locked (lock w)

  -- `acquireExecutionOwnership`.
  unfoldable pub acquire_execution_ownership :
      Runtime W → Context W → String → Bool → W → Reply (ExecutionOwnership W) × W
  unfolding by_lease by_lock
  acquire_execution_ownership r ctx id required w = elim r.store [
    | none ↦
        (if required then fails recovery_unsupported "checkpoint store is required" else ok noop, w)
    | some store ↦ elim store.leaser [
      | some acquire ↦ by_lease store.fenced (acquire ctx id) w
      | none ↦
          by_lock (elim store.locker [ none ↦ none | some lock ↦ some (lock ctx id) ]) required w
    ]
  ]

  abbrev renewer : Option (Store W) → Option ℕ
  renewer none = none
  renewer (some store) = store.renewal_interval

  abbrev renewed : Platform W → Context W → Option ℕ → Reply (Context W)
  renewed p ctx none = ok ctx
  renewed p ctx (some interval) =
      if interval == 0
      then fails invalid_lease_renewal "not positive"
      else ok (p.renewing interval ctx)

  -- `startExecutionLeaseRenewal`.
  unfoldable pub start_execution_lease_renewal :
      Platform W → Runtime W → Context W → ℕ → Reply (Context W)
  start_execution_lease_renewal p r ctx fencing_token =
      if fencing_token == 0 then ok ctx else renewed p ctx (renewer r.store)
