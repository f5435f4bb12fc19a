-- ===== src/Runtime/Answers.antt =====
-- An answer of the model, and with it a whole round of the loop, keeps the invariant on every path.
use agent_harness_runtime.Base.{
  ◌==◌, ℕ, ◌+◌, ◌^◌, ◌≤◌, ◌<◌, String, Bool, true, false, ◌≡◌, refl, inl, inr, Option, none, some,
  arith, str_eq, Bool-cases,
}
use agent_harness_runtime.Errors.{Error, Reply, ok, err}
use agent_harness_runtime.Status.{completed, cancelled, valid_transition}
use agent_harness_runtime.Types.{
  final, tool_call, other_kind, DecisionKind, validate_kind, validate_decision, Decision, Result,
  snapshot,
}
use agent_harness_runtime.Checkpoint.Updates.{reserve-IsSound, retry-IsSound, complete-IsSound}
use agent_harness_runtime.Checkpoint.Revision.{checkpoint_revision_lem}
use agent_harness_runtime.Ports.{polled}
use agent_harness_runtime.Retry.{can_retry_model}
use agent_harness_runtime.Writing.Cases.{logged}
use agent_harness_runtime.Runtime.State.{◌>>=◌, State, Flow, follow, Frame, stop, force}
use agent_harness_runtime.Runtime.Effects.{
  checkpoint_of, poll, unless_cancelled, ask_model, wait_model_retry,
}
use agent_harness_runtime.Runtime.Loop.{
  decided, iteration, retry, after_model_error, act, after_model, waited, ended_wait,
}
use agent_harness_runtime.Runtime.Log.{WritesBelow-mono}
use agent_harness_runtime.Runtime.Invariant.{
  At, SavedAt, Ends, follow-Ends, Core, core, rank, Kept, Returned, AtHead, AtAttempt, AtAnswer,
}
use agent_harness_runtime.Runtime.Rounds.{ask_model-Ends}
use agent_harness_runtime.Runtime.Turns.{continuing, failing, saving, step_to-valid, use_tool-Ends}
use agent_harness_runtime.Runtime.Steps.{
  poll_cases, noted, save_progress-Ends, stop-Returned, unless_cancelled-Ends,
}

module _ {W : Type 0} (f : Frame W) (utf8_valid : String → Bool)
    (valid : (t : String) → utf8_valid t ≡ true)
    (texted : (e : Error) → str_eq (f.platform.error_text e) "" ≡ false)
    (small : f.initial.max_steps ≤ 2 ^ 60) (n : ℕ) where
  abbrev Q : Result → Option Error → State W → Type 0
  Q = Returned f utf8_valid

  abbrev Next : Flow W (Unit {0}) → Type 0
  Next = Ends (λ _ s. At f utf8_valid (AtHead f n) s) Q

  -- A wait that the context ends cancels the execution; otherwise the loop goes on.
  waited-Ends :
      (o : Option Error) (s : State W) → At f utf8_valid (AtHead f n) s → Next (waited f (o, s))
  unfolding checkpoint_of
  waited-Ends none s h = h
  waited-Ends (some e) s h = go (poll_cases f (force cancelled s))
    where
      go :
          ((o : Option Error) × (w : W) × (poll f (force cancelled s)
              ≡ (o, noted (force cancelled s) (polled o) w)))
          → Next (ended_wait f e (poll f (force cancelled s)))
      go (none, w, eq) = rw eq (
          unfold stop force in
          stop-Returned f utf8_valid valid texted small
            (λ (_ : Unit {0}) s'. At f utf8_valid (AtHead f n) s') _ cancelled e
            (noted s (polled none) w) h.0 (omega arith) (inl h.1.0) (inr refl))
      go (some c, w, eq) = rw eq (
          unfold stop force in
          stop-Returned f utf8_valid valid texted small
            (λ (_ : Unit {0}) s'. At f utf8_valid (AtHead f n) s') _ cancelled c
            (noted s (polled (some c)) w) h.0 (omega arith) (inl h.1.0) (inr refl))

  wait_cases :
      (s : State W)
      → (o : Option Error) × (w : W) × (wait_model_retry f s
          ≡ (o, record s { machine = logged w s.machine.log }))
  unfolding wait_model_retry
  wait_cases s = elim (Bool-cases (f.runtime.model_retry.delay == 0)) [
    | inl e ↦ (none, s.machine.world, rw e)
    | inr e ↦ (
      (f.platform.wait f.context f.runtime.model_retry.delay s.machine.world).0,
      (f.platform.wait f.context f.runtime.model_retry.delay s.machine.world).1,
      rw e,
    )
  ]

  waiting : (s : State W) → At f utf8_valid (AtHead f n) s → Next (waited f (wait_model_retry f s))
  unfolding checkpoint_of
  waiting s h =
      let (o, w, e) = wait_cases s in
      rw e (waited-Ends o (record s { machine = logged w s.machine.log }) h)

  retry-Ends :
      (e : Error) (s : State W)
      → At f utf8_valid (AtAnswer f n) s
      → can_retry_model e f.initial s.iterations s.model_retries ≡ true
      → Next (retry f s)
  unfolding retry can_retry_model checkpoint_of snapshot
  retry-Ends e s (k, a) can =
      let cp = checkpoint_of f s (snapshot s.exec s.steps "") none in
      follow-Ends (λ _ s'. At f utf8_valid (AtHead f n) s') _ Q _ _
        (saving f utf8_valid valid texted small n (AtHead f n)
          (record s { model_retries = s.model_retries + 1 })
          (
            k.0,
            k.1,
            k.2,
            k.3,
            k.4,
            WritesBelow-mono _ _ s.machine.log (omega arith) k.5,
            retry-IsSound utf8_valid valid cp k.6 (ground arith) a.5,
          )
          (ground arith) (a.0, a.1, a.2, a.3, a.6))
        (λ _ s' h. waiting s' h)

  after_model_error-Ends :
      (e : Error) (s : State W) → At f utf8_valid (AtAnswer f n) s → Next (after_model_error f e s)
  unfolding after_model_error
  after_model_error-Ends e s h =
      continuing f utf8_valid valid texted small n _ (AtAnswer f n) s _ h (inl h.1.0) λ s' h'.
        elim (Bool-cases (can_retry_model e f.initial s'.iterations s'.model_retries)) [
          | inl can ↦ rw can (retry-Ends e s' h' can)
          | inr cannot ↦
              rw cannot
                (failing f utf8_valid valid texted small n _ (AtAnswer f n) _ s' h' (inl h'.1.0))
        ]

  final_answer :
      (d : Decision) (s : State W) → At f utf8_valid (AtAnswer f n) s → Next (act f final d s)
  unfolding act checkpoint_of snapshot valid_transition
  final_answer d s (k, a) =
      let cp = checkpoint_of f s (snapshot s.exec s.steps "") none in
      let sound = complete-IsSound utf8_valid valid cp k.6 d.output a.0 a.4 in
      rw (step_to-valid completed s (ground arith)) (
        k.0,
        k.1,
        k.2,
        k.3,
        inr (
          k.4,
          refl,
          sound,
          WritesBelow-mono _ _ s.machine.log
              (ground (arith, checkpoint_revision_lem utf8_valid _ sound small)) k.5,
        ),
      )

  act-Ends :
      (kind : DecisionKind) (d : Decision) (s : State W)
      → At f utf8_valid (AtAnswer f n) s
      → validate_kind kind d.call ≡ none
      → Next (act f kind d s)
  unfolding act validate_decision
  act-Ends final d s h good = final_answer d s h
  act-Ends tool_call d s h good = use_tool-Ends f utf8_valid valid texted small n d.call s h good
  act-Ends (other_kind k) d s h good = (h.0, (h.1.0, h.1.1, h.1.2, h.1.3, h.1.6))

  decided-Ends :
      (o : Option Error) (d : Decision) (s : State W)
      → At f utf8_valid (AtAnswer f n) s
      → validate_decision d ≡ o
      → Next (decided f o d s)
  unfolding validate_decision
  decided-Ends none d s h e = act-Ends d.kind d s h e
  decided-Ends (some x) d s h e =
      failing f utf8_valid valid texted small n _ (AtAnswer f n) _ s h (inl h.1.0)

  after_model-Ends :
      (reply : Reply Decision) (s : State W)
      → At f utf8_valid (AtAnswer f n) s
      → Next (after_model f reply s)
  unfolding after_model
  after_model-Ends (err e) s h = after_model_error-Ends e s h
  after_model-Ends (ok d) s h =
      continuing f utf8_valid valid texted small n _ (AtAnswer f n) s _ h (inl h.1.0)
        λ s' h'. decided-Ends (validate_decision d) d s' h' refl

  -- The head of the loop with an attempt left.
  abbrev AtRound : ℕ → Core → Type 0
  AtRound m c = AtHead f m c × (m < f.initial.max_steps)

  reserved :
      (m : ℕ) (s : State W)
      → At f utf8_valid (AtRound m) s
      → n ≡ m + 1
      → let s' : State W = record s { iterations = s.iterations + 1 } in
        Kept f utf8_valid (rank (core s')) s' × AtAttempt f n (core s')
  unfolding checkpoint_of snapshot
  reserved m s (k, a) e =
      let cp = checkpoint_of f s (snapshot s.exec s.steps "") none in
      let good = k.6.recoverable in
      (
        (
          k.0,
          k.1,
          k.2,
          k.3,
          k.4,
          WritesBelow-mono _ _ s.machine.log (omega arith) k.5,
          reserve-IsSound utf8_valid valid cp k.6 a.0.0 (omega arith),
        ),
        (
          a.0.0,
          a.0.1,
          a.0.2,
          omega arith,
          omega (arith, good.reserved),
          omega (arith, k.6.retries),
          omega arith,
          omega arith,
        ),
      )

  asking :
      (s : State W)
      → SavedAt f utf8_valid (AtAttempt f n) s
      → Next (follow (unless_cancelled f s) (λ _. ask_model f >>= after_model f))
  unfolding checkpoint_of
  asking s h =
      follow-Ends (λ _ t. SavedAt f utf8_valid (AtAttempt f n) t) _ Q _ _
        (unless_cancelled-Ends f utf8_valid valid texted small
          (SavedAt f utf8_valid (AtAttempt f n)) _ s h.0 (omega arith) (inl h.2.0) (λ w. h))
        (λ _ t ht.
          follow-Ends (λ _ u. At f utf8_valid (AtAnswer f n) u) _ Q _ _
            (ask_model-Ends f utf8_valid valid texted small n t ht)
            (λ reply u hu. after_model-Ends reply u hu))

  -- A round that begins with an attempt left ends at the head of the loop again with the attempt
  -- counted, or returns.
  pub iteration-Ends :
      (m : ℕ) (s : State W)
      → At f utf8_valid (AtHead f m) s
      → m < f.initial.max_steps
      → n ≡ m + 1
      → Next (iteration f s)
  unfolding iteration checkpoint_of
  iteration-Ends m s h left e =
      follow-Ends (λ _ t. At f utf8_valid (AtRound m) t) _ Q _ _
        (unless_cancelled-Ends f utf8_valid valid texted small (At f utf8_valid (AtRound m)) _ s h.0
          (omega arith) (inl h.1.0) (λ w. (h.0, (h.1, left))))
        (λ _ t ht.
          let (k, a) = reserved m t ht e in
          follow-Ends (λ _ u. SavedAt f utf8_valid (AtAttempt f n) u) _ Q _ _
            (save_progress-Ends f utf8_valid valid texted small (AtAttempt f n)
              (record t { iterations = t.iterations + 1 }) k (ground arith) a)
            (λ _ u hu. asking u hu))
