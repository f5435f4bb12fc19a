-- ===== src/Runtime/Outcomes.antt =====
-- The loop of `run` ends, and the deferred functions save and report what it returns.
use agent_harness_runtime.Base.{
  ℕ, zero, suc, ◌+◌, ◌-◌, ◌^◌, ◌≤◌, ◌<◌, sym, ap, ◌∙◌, String, Bool, true, false, ◌≡◌, refl, ◌⊎◌,
  inl, inr, Option, none, some, ◌++◌, arith, str_eq, eq_iff, Bool-cases, ltb, ltb→lt,
}
use agent_harness_runtime.Errors.{Error}
use agent_harness_runtime.Status.{completed, is_terminal}
use agent_harness_runtime.Types.{Result}
use agent_harness_runtime.Checkpoint.{
  Checkpoint, checkpoint_revision, call_ids, validate_checkpoint,
}
use agent_harness_runtime.Checkpoint.Validity.{validate_checkpoint_complete}
use agent_harness_runtime.Checkpoint.Updates.{revised-IsSound}
use agent_harness_runtime.Ports.{Machine}
use agent_harness_runtime.Writing.Cases.{Written, saved, failed_write, refused, revised}
use agent_harness_runtime.Runtime.State.{State, Flow, goes, returns, Frame}
use agent_harness_runtime.Runtime.Effects.{checkpoint_of, persisted, now}
use agent_harness_runtime.Runtime.Loop.{loop, iteration, exhausted}
use agent_harness_runtime.Runtime.Run.{
  save_outcome, report_outcome, reported, joined, terminal_event, finish,
}
use agent_harness_runtime.Runtime.Log.{WritesBelow, Distinct, executed_ids, model_calls, last_write}
use agent_harness_runtime.Runtime.Invariant.{
  Ends, LogGood, stored, is_some, Savable, Returned, At, AtHead, newest_result,
}
use agent_harness_runtime.Runtime.Steps.{persist_cases, observe-keeps}
use agent_harness_runtime.Runtime.Turns.{continuing, failing}
use agent_harness_runtime.Runtime.Answers.{iteration-Ends}

module _ {W : Type 0} (f : Frame W) (utf8_valid : String → Bool)
    (valid : (t : String) → utf8_valid t ≡ true)
    (texted : (e : Error) → str_eq (f.platform.error_text e) "" ≡ false)
    (small : f.initial.max_steps ≤ 2 ^ 60) where
  -- A flow that returns, with what holds then.
  abbrev pub Done : Option (Flow W (Unit {0})) → Type 0
  Done o =
      (result : Result) × (e : Option Error) × (s : State W) × (o ≡ some (returns result e s))
      × Returned f utf8_valid result e s

  returned :
      (flow : Flow W (Unit {0})) → Ends (λ _ _. ⊥) (Returned f utf8_valid) flow → Done (some flow)
  returned (goes a s) h = absurd h
  returned (returns result e s) h = (result, e, s, refl, h)

  exhausted-Done :
      (m : ℕ) (s : State W) → At f utf8_valid (AtHead f m) s → Done (some (exhausted f s))
  unfolding exhausted
  exhausted-Done m s h = returned _ (
      continuing f utf8_valid valid texted small m (λ _ _. ⊥) (AtHead f m) s _ h (inl h.1.0)
        λ s' h'.
          failing f utf8_valid valid texted small m (λ _ _. ⊥) (AtHead f m) _ s' h' (inl h'.1.0))

  -- With more fuel than attempts left the loop returns, and its outcome is good.
  pub loop-Done :
      (fuel m : ℕ) (s : State W)
      → At f utf8_valid (AtHead f m) s
      → f.initial.max_steps < m + fuel
      → Done (loop f fuel s)
  unfolding loop
  loop-Done zero m s h enough = absurd (omega arith)
  loop-Done (suc fuel) m s h enough = elim (Bool-cases (ltb s.iterations f.initial.max_steps)) [
    | inl more ↦
        rw (more, loop)
          (go (iteration f s)
            (iteration-Ends f utf8_valid valid texted small (m + 1) m s h
              (omega (arith, ltb→lt _ _ more)) refl)
            (loop-Done fuel (m + 1)))
    | inr over ↦ rw (over, loop) (exhausted-Done m s h)
  ]
    where
      go :
          (flow : Flow W (Unit {0}))
          → Ends (λ _ s'. At f utf8_valid (AtHead f (m + 1)) s') (Returned f utf8_valid) flow
          → ((s' : State W)
              → At f utf8_valid (AtHead f (m + 1)) s'
              → f.initial.max_steps < m + 1 + fuel
              → Done (loop f fuel s'))
          → Done (elim flow [
            | goes _ s' ↦ loop f fuel s'
            | returns result e s' ↦ some (returns result e s')
          ])
      go (goes a s') h' rest = rest s' h' (omega arith)
      go (returns result e s') h' rest = (result, e, s', refl, h')

  -- With a store, the result that is returned is the one last acknowledged; without one it is final.
  abbrev pub Durable : Bool → Option Checkpoint → Result → Type 0
  Durable false written result = is_terminal result.status ≡ true
  Durable true written result = result ≡ newest_result f written

  -- What holds when `run` has returned.
  abbrev pub Ended : Result × Option Error × State W → Type 0
  Ended (result, e, s) =
      LogGood f utf8_valid s.machine.log
      × Distinct (call_ids f.initial.result.steps ++ executed_ids s.machine.log)
      × (f.initial.model_iterations + model_calls s.machine.log ≤ f.initial.max_steps)
      × Durable (stored f) (last_write s.machine.log) result
      × ((result.status ≡ completed) ⊎ (is_some e ≡ true))

  pub Durable-stored :
      (b : Bool) (o : Option Checkpoint) (result : Result)
      → b ≡ true
      → result ≡ newest_result f o
      → Durable b o result
  Durable-stored false o result b r = cc
  Durable-stored true o result b r = r

  Durable-unstored :
      (b : Bool) (o : Option Checkpoint) (result : Result)
      → b ≡ false
      → is_terminal result.status ≡ true
      → Durable b o result
  Durable-unstored false o result b t = t
  Durable-unstored true o result b t = cc

  -- An outcome without an error is a completion.
  completes :
      (result : Result) (e : Option Error) (s : State W)
      → is_terminal result.status ≡ true
      → Savable f utf8_valid s result e
      → (result.status ≡ completed) ⊎ (is_some e ≡ true)
  unfolding checkpoint_of
  completes result none s t sound = ground (arith, sound.recoverable.fits, eq_iff "" "")
  completes result (some x) s t sound = inr refl

  joined-is_some : (e : Option Error) (x : Error) → is_some (joined f e x) ≡ true
  joined-is_some none x = refl
  joined-is_some (some e) x = refl

  named : Result → Result
  named result = record result { execution_id = f.initial.request.execution_id }

  named-id :
      (result : Result)
      → result.execution_id ≡ f.initial.request.execution_id
      → named result ≡ result
  unfolding named
  named-id result h = ap (λ i. record result { execution_id = i }) (sym h)

  -- The outcome is saved, or the result falls back on the last one saved.
  outcome_saved :
      (result : Result) (e : Option Error) (s : State W) (r : Option Error × Machine W)
      → Returned f utf8_valid result e s
      → is_terminal result.status ≡ true
      → Savable f utf8_valid s result e
      → WritesBelow (checkpoint_revision (checkpoint_of f s result e)) s.machine.log
      → stored f ≡ true
      → Written (checkpoint_of f s result e) s.machine r
      → Ended (reported f (named result) e (persisted f (named result) r s))
  unfolding checkpoint_of named
  outcome_saved result e s r (log, rec, ids, calls, o) terminal sound below a_store written =
      let cp = checkpoint_of f s result e in
      let good =
        validate_checkpoint_complete utf8_valid (revised cp)
          (revised-IsSound utf8_valid valid cp sound) in
      go good written
    where
      go :
          (validate_checkpoint utf8_valid (revised (checkpoint_of f s result e)) ≡ none)
          → Written (checkpoint_of f s result e) s.machine r
          → Ended (reported f (named result) e (persisted f (named result) r s))
      go good (saved w cause q) = rw q (
        ((good, log.0), (below, log.1), log.2, log.3),
        ids,
        calls,
        Durable-stored (stored f) _ _ a_store refl,
        completes result e s terminal sound,
      )
      go good (failed_write w cause a b q) = rw q (
        ((good, log.0), (below, log.1), log.2, log.3),
        ids,
        calls,
        Durable-stored (stored f) _ _ a_store rec.0,
        inr (joined-is_some e a),
      )
      go good (refused w cause a q) =
          rw q
            (log, ids, calls, Durable-stored (stored f) _ _ a_store rec.0, inr (joined-is_some e a))

  save_outcome-Ended :
      (result : Result) (e : Option Error) (s : State W)
      → Returned f utf8_valid result e s
      → Ended (save_outcome f result e s)
  unfolding save_outcome named checkpoint_of
  save_outcome-Ended result e s (log, rec, ids, calls, inl (a_store, off, is_last, bad)) = rw off (
    log,
    ids,
    calls,
    Durable-stored (stored f) _ _ a_store (ap named is_last ∙ named-id s.last_saved rec.1 ∙ rec.0),
    inr bad,
  )
  save_outcome-Ended result e s (log, rec, ids, calls, inr (intact, terminal, sound, below)) =
      simp (intact, terminal)
        (elim (persist_cases f (named result) e false s) [
          | inl (q, no_store) ↦ rw q (
            log,
            ids,
            calls,
            Durable-unstored (stored f) _ _ no_store terminal,
            completes result e s terminal sound,
          )
          | inr (r, q, a_store, written) ↦ rw q (
              outcome_saved result e s r
                (log, rec, ids, calls, inr (intact, terminal, sound, below)) terminal sound below
                a_store written)
        ])

  report_outcome-Ended :
      (started : ℕ) (result : Result) (e : Option Error) (s : State W)
      → Ended (result, e, s)
      → Ended (report_outcome f started (result, e, s))
  unfolding report_outcome
  report_outcome-Ended started result e s h = elim (Bool-cases (is_terminal result.status)) [
    | inl t ↦ rw t (
        observe-keeps f (λ s'. Ended (result, e, s'))
          (terminal_event f (now f s - started) result e s) s h λ w. h)
    | inr t ↦ rw t h
  ]

  -- The deferred functions.
  pub finish-Ended :
      (started : ℕ) (result : Result) (e : Option Error) (s : State W)
      → Returned f utf8_valid result e s
      → Ended (finish f started (returns result e s))
  finish-Ended started result e s h =
      report_outcome-Ended started _ _ _ (save_outcome-Ended result e s h)
