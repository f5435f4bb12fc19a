-- ===== src/Renewal/Quiet.antt =====
-- execution_lease_renewal.go: what holds when the function that stops a renewal has returned, and
-- that it can return.
use agent_harness_runtime.Base.{true, false, Option, none, some, ◌∙◌, ◌≡◌, ◌≢◌, refl, arith}
use agent_harness_runtime.Errors.{Error, sentinel, context_canceled}
use agent_harness_runtime.Renewal.{
  Renewal, RenewalStep, RenewalSteps, waits, returned, after_renewal, stop_renewal, cancelled,
  lease_lost, started, sees_done, sees_stop, ticks, renews, stops, joins, parent_ends, rests, moves,
}

-- What the run may rely on when the stop function has been called: its context has ended, the
-- channel is closed.
StopAsked : Renewal → Type 0
StopAsked s = ((e : Error) × (s.cause ≡ some e)) × (s.stopped ≡ true)

-- A goroutine that has ended renews nothing; a stop function that waits has ended the context and
-- closed the channel; one that has returned has seen the goroutine end.
KeepsOrder : Renewal → Type 0
KeepsOrder s =
    (s.done ≡ true → s.renewing ≡ false)
    × (s.stop_call ≡ waits → StopAsked s)
    × (s.stop_call ≡ returned → StopAsked s × (s.done ≡ true))

cancelled-some : (o : Option Error) (e : Error) → (x : Error) × (cancelled o e ≡ some x)
cancelled-some (some first) e = (first, refl)
cancelled-some none e = (e, refl)

kept-cause : (o : Option Error) (e x : Error) → o ≡ some x → cancelled o e ≡ some x
kept-cause o e x h = rw h refl

step-KeepsOrder : (s s' : Renewal) → RenewalStep s s' → KeepsOrder s → KeepsOrder s'
unfolding KeepsOrder StopAsked after_renewal stop_renewal
step-KeepsOrder s s' (sees_done e d n c q) h = ground (arith, h, q)
step-KeepsOrder s s' (sees_stop d n c q) h = ground (arith, h, q)
step-KeepsOrder s s' (ticks d n q) h = ground (arith, h, q)
step-KeepsOrder s s' (renews none d n q) h = ground (arith, h, q)
step-KeepsOrder s s' (renews (some e) d n q) h =
    ground (arith, h, q, kept-cause s.cause (lease_lost e))
step-KeepsOrder s s' (stops c q) h =
    ground (arith, h, q, cancelled-some s.cause (sentinel context_canceled))
step-KeepsOrder s s' (joins c d q) h = ground (arith, h, q)
step-KeepsOrder s s' (parent_ends e q) h = ground (arith, h, q, kept-cause s.cause e)

steps-KeepsOrder : (s s' : Renewal) → RenewalSteps s s' → KeepsOrder s → KeepsOrder s'
steps-KeepsOrder s s' (rests _) h = h
steps-KeepsOrder s s' (moves _ b _ step rest) h =
    steps-KeepsOrder b s' rest (step-KeepsOrder s b step h)

started-KeepsOrder : KeepsOrder started
unfolding KeepsOrder
started-KeepsOrder = (λ h. refl, λ h. (cc), λ h. (cc))

-- Nothing moves any more.
step-returned : (s s' : Renewal) → KeepsOrder s → s.stop_call ≡ returned → RenewalStep s s' → s' ≡ s
unfolding KeepsOrder StopAsked
step-returned s s' h r (sees_done e d n c q) = ground (arith, h, r)
step-returned s s' h r (sees_stop d n c q) = ground (arith, h, r)
step-returned s s' h r (ticks d n q) = ground (arith, h, r)
step-returned s s' h r (renews answer d n q) = ground (arith, h, r)
step-returned s s' h r (stops c q) = ground (arith, h, r)
step-returned s s' h r (joins c d q) = ground (arith, h, r)
step-returned s s' h r (parent_ends e q) =
    let ((first, c), _) = (h.2 r).0 in
    let kept = kept-cause s.cause e first c in ground (arith, kept, c, q)

steps-returned :
    (s s' : Renewal) → KeepsOrder s → s.stop_call ≡ returned → RenewalSteps s s' → s' ≡ s
steps-returned s s' h r (rests _) = refl
steps-returned s s' h r (moves _ b _ step rest) =
    let still = step-returned s b h r step in
    steps-returned b s' (step-KeepsOrder s b step h) (rw still r) rest ∙ still

ended : {o : Option Error} {e : Error} → o ≡ some e → o ≡ none → ⊥
ended a b = cc

-- When the function that stops a renewal has returned, in whatever order the goroutine, the store, the
-- run and the parent of the context have acted: the run's context has ended, the goroutine has
-- seen its end and no renewal is under way. Whatever happens later changes nothing of that, so that
-- no renewal follows when the lease is released.
pub stop_renewal-quiet :
    (s s' : Renewal)
    → RenewalSteps started s
    → s.stop_call ≡ returned
    → RenewalSteps s s'
    → (s.cause ≢ none) × (s.stopped ≡ true) × (s.done ≡ true) × (s.renewing ≡ false) × (s' ≡ s)
unfolding KeepsOrder StopAsked
stop_renewal-quiet s s' reached r later =
    let h = steps-KeepsOrder started s reached started-KeepsOrder in
    let (((e, c), stopped), d) = h.2 r in
    (λ n. ended c n, stopped, d, h.0 d, steps-returned s s' h r later)

-- The stop function can return.
abbrev pub CanReturn : Renewal → Type 0
CanReturn s = (s' : Renewal) × RenewalSteps s s' × (s'.stop_call ≡ returned)
