-- ===== src/Renewal.antt =====
-- execution_lease_renewal.go: the goroutine that renews a lease, the run's context that it shares,
-- and the function that stops it, as steps in any order. The store's answer to a renewal is an
-- argument.
pub mod Quiet
use agent_harness_runtime.Base.{
  Bool, true, false, Option, none, some, ◌≡◌, ◌≢◌, ◌⊎◌, inl, inr, refl, arith, ◌∷◌, Bool-cases,
  Option-cases,
}
use agent_harness_runtime.Errors.{
  Error, sentinel, both, is, checkpoint_store, context_canceled, execution_lease_lost,
}
use agent_harness_runtime.Checkpoint.{Checkpoint}
use agent_harness_runtime.Ports.{Context, Store, Platform, Machine, polled}
use agent_harness_runtime.Writing.{write_checkpoint}

-- Where the function that stops the renewal is: not called, at its wait for `doneCh`, returned.
pub data StopCall : Type 0 where
  not_called waits returned : StopCall

-- The cause of `runCtx`, `stopCh` closed, a `RenewExecutionLease` under way, `doneCh` closed, and where
-- the stop function is.
pub record Renewal : Type 0 where
  pub cause : Option Error
  pub stopped : Bool
  pub renewing : Bool
  pub done : Bool
  pub stop_call : StopCall

-- `cancelCause`: the first cause stays.
abbrev pub cancelled : Option Error → Error → Option Error
cancelled (some first) e = some first
cancelled none e = some e

-- `fmt.Errorf("%w: …: %w", ErrExecutionLeaseLost, …, err)`.
abbrev pub lease_lost : Error → Error
lease_lost e = both (sentinel execution_lease_lost) e

-- What the goroutine does with the answer to a renewal: it goes on after a success, ends if the
-- context has ended, and else ends the context itself.
unfoldable pub after_renewal : Option Error → Renewal → Renewal
after_renewal none s = record s { renewing = false }
after_renewal (some e) s = record s {
  cause = cancelled s.cause (lease_lost e);
  renewing = false;
  done = true;
}

-- The function that stops the renewal, up to its wait.
unfoldable pub stop_renewal : Renewal → Renewal
stop_renewal s = record s {
  cause = cancelled s.cause (sentinel context_canceled);
  stopped = true;
  stop_call = waits;
}

-- `startExecutionLeaseRenewal` after its tests.
abbrev pub started : Renewal
started = record {
  cause = none;
  stopped = false;
  renewing = false;
  done = false;
  stop_call = not_called;
}

-- One step of the goroutine, of the run that stops it, or of the context's parent. The goroutine
-- reads its channels only between two renewals; each ready case of its `select` may be taken. A
-- renewal is under way until the store returns from it with an answer.
pub data RenewalStep (s s' : Renewal) : Type 0 where
  sees_done :
      (e : Error)
      → s.done ≡ false
      → s.renewing ≡ false
      → s.cause ≡ some e
      → s' ≡ record s { done = true }
      → RenewalStep s s'
  sees_stop :
      s.done ≡ false
      → s.renewing ≡ false
      → s.stopped ≡ true
      → s' ≡ record s { done = true }
      → RenewalStep s s'
  ticks : s.done ≡ false → s.renewing ≡ false → s' ≡ record s { renewing = true } → RenewalStep s s'
  renews :
      (answer : Option Error)
      → s.done ≡ false
      → s.renewing ≡ true
      → s' ≡ after_renewal answer s
      → RenewalStep s s'
  stops : s.stop_call ≡ not_called → s' ≡ stop_renewal s → RenewalStep s s'
  joins :
      s.stop_call ≡ waits
      → s.done ≡ true
      → s' ≡ record s { stop_call = returned }
      → RenewalStep s s'
  parent_ends : (e : Error) → s' ≡ record s { cause = cancelled s.cause e } → RenewalStep s s'

pub data RenewalSteps : Renewal → Renewal → Type 0 where
  rests : (s : Renewal) → RenewalSteps s s
  moves : (s s' s'' : Renewal) → RenewalStep s s' → RenewalSteps s' s'' → RenewalSteps s s''

step-cause : (s s' : Renewal) (e : Error) → RenewalStep s s' → s.cause ≡ some e → s'.cause ≡ some e
unfolding after_renewal stop_renewal
step-cause s s' e (sees_done x d n c q) h = ground (arith, h, q)
step-cause s s' e (sees_stop d n c q) h = ground (arith, h, q)
step-cause s s' e (ticks d n q) h = ground (arith, h, q)
step-cause s s' e (renews none d n q) h = ground (arith, h, q)
step-cause s s' e (renews (some x) d n q) h = ground (arith, h, q)
step-cause s s' e (stops c q) h = ground (arith, h, q)
step-cause s s' e (joins c d q) h = ground (arith, h, q)
step-cause s s' e (parent_ends x q) h = ground (arith, h, q)

steps-cause :
    (s s' : Renewal) (e : Error) → RenewalSteps s s' → s.cause ≡ some e → s'.cause ≡ some e
steps-cause s s' e (rests _) h = h
steps-cause s s' e (moves _ b _ step rest) h = steps-cause b s' e rest (step-cause s b e step h)

refused_renewal :
    (s : Renewal) (e : Error)
    → s.cause ≡ none
    → (after_renewal (some e) s).cause ≡ some (lease_lost e)
unfolding after_renewal
refused_renewal s e h = ground (arith, h)

-- The run's context, as it is in a state of the renewal.
abbrev pub run_context : {W : Type 0} → Context W → Renewal → Context W
run_context ctx s = record ctx { cause = λ w. (s.cause, w) }

-- If a renewal fails while the run's context is good, then whatever the goroutine, the run and the
-- parent of the context do later, a checkpoint is not handed to the store any more:
-- `writeCheckpoint` under the run's context reads only the cause, the lost lease with the renewal's
-- error, and returns it as a store error.
pub lost_lease-unwritten :
    {W : Type 0} (p : Platform W) (ctx : Context W) (store : Store W) (s s' : Renewal) (e : Error)
    (cp : Checkpoint) (create : Bool) (m : Machine W)
    → s.cause ≡ none
    → RenewalSteps (after_renewal (some e) s) s'
    → write_checkpoint p (run_context ctx s') store cp create m ≡ (
      some (both (sentinel checkpoint_store) (lease_lost e)),
      record m { log = polled (some (lease_lost e)) ∷ m.log },
    )
unfolding write_checkpoint is
lost_lease-unwritten p ctx store s s' e cp create m h steps =
    let lost = steps-cause _ s' (lease_lost e) steps (refused_renewal s e h) in rw lost refl
