-- ===== src/Writing.antt =====
-- checkpoint.go (`writeCheckpoint`) and execution_lease_renewal.go (`executionContextErr`), with the
-- log entry of each effect.
pub mod Cases
use agent_harness_runtime.Base.{ℕ, Bool, true, false, Option, none, some, ◌∷◌, ◌==◌, if◌then◌else◌}
use agent_harness_runtime.Errors.{
  Error, sentinel, both, is, checkpoint_store, lease_fencing_unsupported, execution_lease_lost,
}
use agent_harness_runtime.Checkpoint.{Checkpoint, checkpoint_revision}
use agent_harness_runtime.Ports.{
  Context, execution_fencing_token, execution_context_err, FencedStore, Store, Platform, polled,
  wrote, Machine,
}

-- 5 s, in ns.
abbrev pub checkpoint_write_timeout : ℕ
checkpoint_write_timeout = 5_000_000_000

-- `fmt.Errorf("%w: execution %q: %w", ErrCheckpointStore, …, err)` of a failed write.
abbrev pub store_error : Option Error → Option Error
store_error none = none
store_error (some e) = some (both (sentinel checkpoint_store) e)

is_lease_lost : Option Error → Bool
is_lease_lost none = false
is_lease_lost (some e) = is e execution_lease_lost

module _ {W : Type 0} where
  -- The log's entry for an effect.
  abbrev pub note {ℓ} :
      {A : Type ℓ} → (A → Machine W → Machine W) → A × W → Machine W → A × Machine W
  note add (a, w) m = (a, add a (record m { world = w }))

  -- `executionContextErr` read once.
  unfoldable pub poll_context : Context W → Machine W → Option Error × Machine W
  poll_context ctx m =
      note (λ o n. record n { log = polled o ∷ n.log }) (execution_context_err ctx m.world) m

  abbrev noted : Checkpoint → Option Error × W → Machine W → Option Error × Machine W
  noted cp result m = note (λ o n. record n { log = wrote cp o ∷ n.log }) result m

  -- The store call that the fencing token and the store's capabilities select.
  fenced_write :
      Option (FencedStore W)
      → Context W
      → Checkpoint
      → Bool
      → ℕ
      → Machine W
      → Option Error × Machine W
  fenced_write none ctx cp create token m = (some (sentinel lease_fencing_unsupported), m)
  fenced_write (some f) ctx cp true token m = noted cp (f.create_fenced ctx cp token m.world) m
  fenced_write (some f) ctx cp false token m = noted cp (f.save_fenced ctx cp token m.world) m

  plain_write : Store W → Context W → Checkpoint → Bool → Machine W → Option Error × Machine W
  plain_write store ctx cp true m = noted cp (store.create ctx cp m.world) m
  plain_write store ctx cp false m = noted cp (store.save ctx cp m.world) m

  store_write : Store W → Context W → Checkpoint → Bool → ℕ → Machine W → Option Error × Machine W
  unfolding fenced_write plain_write
  store_write store ctx cp create token m =
      if token == 0
      then plain_write store ctx cp create m
      else fenced_write store.fenced ctx cp create token m

  abbrev write_unless_lost :
      Option Error → Option Error × Machine W → Machine W → Option Error × Machine W
  write_unless_lost cause written m =
      if is_lease_lost cause then (store_error cause, m) else (store_error written.0, written.1)

  -- `writeCheckpoint`. The context's cause is read first: after a lost lease nothing is written.
  unfoldable pub write_checkpoint :
      Platform W → Context W → Store W → Checkpoint → Bool → Machine W → Option Error × Machine W
  unfolding store_write is_lease_lost
  write_checkpoint p ctx store cp create m =
      let (cause, w) = ctx.cause m.world in
      let before : Machine W = record m { world = w; log = polled cause ∷ m.log } in
      let write_ctx = p.with_timeout checkpoint_write_timeout (p.without_cancel ctx) in
      let revised : Checkpoint = record cp { revision = checkpoint_revision cp } in
      let written =
        store_write store write_ctx revised create (execution_fencing_token ctx) before in
      write_unless_lost cause written before
