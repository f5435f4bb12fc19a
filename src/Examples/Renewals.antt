-- ===== src/Examples/Renewals.antt =====
-- execution_lease_renewal.go: the theorems on a renewal that is refused, and on one that is stopped.
use agent_harness_runtime.Base.{◌≡◌, ◌≢◌, refl, true, false, none, some, [], ◌∷◌}
use agent_harness_runtime.Errors.{sentinel, both, checkpoint_store, execution_fenced}
use agent_harness_runtime.Ports.{polled}
use agent_harness_runtime.Writing.{write_checkpoint}
use agent_harness_runtime.Renewal.{
  Renewal, RenewalSteps, not_called, returned, started, after_renewal, stop_renewal, cancelled,
  lease_lost, run_context, rests, moves, ticks, renews, stops, joins, parent_ends,
  lost_lease-unwritten,
}
use agent_harness_runtime.Renewal.Quiet.{stop_renewal-quiet}
use agent_harness_runtime.Examples.{platform, context, store, pending}

-- The run stops the renewal after the store has refused it.
abbrev refused : Renewal
refused = after_renewal (some (sentinel execution_fenced)) started

refused-running : refused.stop_call ≡ not_called
unfolding after_renewal
refused-running = refl

lost_lease-unwritten_example :
    write_checkpoint platform
      (run_context context (stop_renewal refused))
      store
      pending
      false
      (record { world = 0; log = [] })
    ≡ (
      some (both (sentinel checkpoint_store) (lease_lost (sentinel execution_fenced))),
      record { world = 0; log = polled (some (lease_lost (sentinel execution_fenced))) ∷ [] },
    )
lost_lease-unwritten_example =
    lost_lease-unwritten platform context store started (stop_renewal refused)
      (sentinel execution_fenced) pending false (record { world = 0; log = [] }) refl
      (moves refused (stop_renewal refused) (stop_renewal refused) (stops refused-running refl)
        (rests (stop_renewal refused)))

-- A renewal is under way when the run asks for the stop; the store refuses it then.
abbrev renewing_now : Renewal
renewing_now = record started { renewing = true }

abbrev asked : Renewal
asked = stop_renewal renewing_now

abbrev answered : Renewal
answered = after_renewal (some (sentinel execution_fenced)) asked

abbrev over : Renewal
over = record answered { stop_call = returned }

over-reached : RenewalSteps started over
unfolding after_renewal stop_renewal
over-reached = moves _ _ _ (ticks refl refl refl) (
    moves _ _ _ (stops refl refl) (
      moves asked _ _ (renews (some (sentinel execution_fenced)) refl refl refl)
        (moves answered _ _ (joins refl refl refl) (rests _))))

stop_renewal-quiet_example :
    (over.cause ≢ none)
    × (over.stopped ≡ true)
    × (over.done ≡ true)
    × (over.renewing ≡ false)
    × (record over { cause = cancelled over.cause (sentinel execution_fenced) } ≡ over)
unfolding stop_renewal
stop_renewal-quiet_example =
    stop_renewal-quiet over
      (record over { cause = cancelled over.cause (sentinel execution_fenced) }) over-reached refl
      (moves _ _ _ (parent_ends (sentinel execution_fenced) refl) (rests _))
