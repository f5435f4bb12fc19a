-- ===== src/Runtime/Guarantees.antt =====
-- What `run` guarantees of a checkpoint that it may start from.
use agent_harness_runtime.Base.{
  ℕ, suc, ◌+◌, ◌^◌, ◌≤◌, ◌<◌, subst, sym, ap, ◌∙◌, String, Bool, true, false, ◌≡◌, refl, ◌⊎◌, inl,
  inr, Option, none, some, List, [], ◌∷◌, ◌++◌, arith, str_eq, eq_iff, ◌||◌,
}
use agent_harness_runtime.Errors.{Error}
use agent_harness_runtime.Status.{Execution, created, running_model, transition, valid_transition}
use agent_harness_runtime.Types.{Step, Result, snapshot}
use agent_harness_runtime.Checkpoint.{
  checkpoint_revision, call_ids, contains, check_steps, validate_checkpoint,
}
use agent_harness_runtime.Checkpoint.Validity.{IsSound, validate_checkpoint_complete}
use agent_harness_runtime.Checkpoint.Revision.{checkpoint_revision_lem}
use agent_harness_runtime.Checkpoint.Updates.{valid_texts, revised-IsSound, enter-IsSound}
use agent_harness_runtime.Ports.{wrote, polled, observed, Machine}
use agent_harness_runtime.Writing.Cases.{Written, saved, failed_write, refused, revised, logged}
use agent_harness_runtime.Runtime.State.{State, Flow, goes, Frame}
use agent_harness_runtime.Runtime.Effects.{checkpoint_of, persisted, observe}
use agent_harness_runtime.Runtime.Loop.{loop}
use agent_harness_runtime.Runtime.Run.{
  run, initial_state, enter, entered_loop, enough_fuel, after_create, run_from, started_event,
  completed_run,
}
use agent_harness_runtime.Runtime.Log.{Distinct, executed_ids, model_calls}
use agent_harness_runtime.Runtime.Invariant.{core, rank, stored, Kept, Savable, At, AtHead}
use agent_harness_runtime.Runtime.Steps.{persist_cases, observe-keeps}
use agent_harness_runtime.Runtime.Outcomes.{Ended, finish-Ended, loop-Done, Done, Durable-stored}

or_true : (a b : Bool) → b ≡ true → a || b ≡ true
or_true a b q = ground arith

-- Steps that recovery accepts have distinct call IDs, none of which was seen before.
check_steps-Distinct :
    (i : ℕ) (seen : List String) (steps : List Step)
    → check_steps i seen steps ≡ none
    → Distinct (call_ids steps)
      × ((id : String) → contains seen id ≡ true → contains (call_ids steps) id ≡ false)
unfolding check_steps contains
check_steps-Distinct i seen [] h = (tt, λ id q. refl)
check_steps-Distinct i seen (step ∷ steps) h =
    let rest = check_steps-Distinct (i + 1) (step.call.id ∷ seen) steps (ground arith) in
    (
      (rest.1 step.call.id (ground (arith, eq_iff step.call.id step.call.id)), rest.0),
      λ id q. ground (arith, eq_iff step.call.id id, rest.1 id (or_true _ _ q)),
    )

append-nil : {A : Type 0} (xs : List A) → xs ++ [] ≡ xs
append-nil [] = refl
append-nil (x ∷ xs) = ap (x ∷◌) (append-nil xs)

module _ {W : Type 0} (f : Frame W) (utf8_valid : String → Bool)
    (valid : (t : String) → utf8_valid t ≡ true)
    (texted : (e : Error) → str_eq (f.platform.error_text e) "" ≡ false)
    (small : f.initial.max_steps ≤ 2 ^ 60)
    (sound : IsSound utf8_valid (record f.initial { revision = 0 }))
    (idle : f.initial.pending_tool ≡ none)
    (resumable : (f.initial.result.status ≡ created)
      ⊎ (f.initial.result.status ≡ running_model)) where
  abbrev fresh : W → Machine W
  fresh w = record { world = w; log = [] }

  initial-Savable :
      (m : Machine W) (output : String)
      → str_eq output "" ≡ true
      → Savable f utf8_valid (initial_state f m) (record f.initial.result { output = output }) none
  unfolding checkpoint_of
  initial-Savable m output empty = record {
    schema = (omega arith, omega arith);
    id = subst (λ t. str_eq t "" ≡ false) sound.request_id sound.id;
    request_id = refl;
    result_id = refl;
    prompt = sound.prompt;
    budget = sound.budget;
    retries = sound.retries;
    old_retries = inl (omega arith);
    history = sound.history;
    recoverable = ground (arith, sound.recoverable, sound.recoverable.fits);
    revision = inl refl;
    texts_valid = valid_texts utf8_valid valid _;
  }

  initial-Distinct : Distinct (call_ids f.initial.result.steps ++ [])
  initial-Distinct =
      rw (append-nil (call_ids f.initial.result.steps))
        (check_steps-Distinct 0 [] f.initial.result.steps sound.recoverable.steps).0

  -- The state in which the loop may begin, after `enter`.
  abbrev start : Machine W → Result → State W
  start m newest = record (initial_state f m) { last_saved = newest }

  abbrev pub EndedRun : Option (Result × Option Error × State W) → Type 0
  EndedRun o =
      (result : Result) × (e : Option Error) × (s : State W) × (o ≡ some (result, e, s))
      × Ended f utf8_valid valid texted small (result, e, s)

  Done-Ended :
      (started : ℕ) (o : Option (Flow W (Unit {0})))
      → Done f utf8_valid valid texted small o
      → EndedRun (completed_run f started o)
  Done-Ended started o (result, e, s, q, r) =
      rw q (_, _, _, refl, finish-Ended f utf8_valid valid texted small started result e s r)

  enter-created :
      (s : State W)
      → s.exec.status ≡ created
      → enter f s
        ≡ goes tt (record s {
          exec = record {
            status = running_model;
            transitions =
                s.exec.transitions ++ record { from = s.exec.status; to = running_model } ∷ [];
          };
        })
  unfolding enter transition valid_transition
  enter-created s c = ground arith

  enter-running : (s : State W) → s.exec.status ≡ running_model → enter f s ≡ goes tt s
  unfolding enter
  enter-running s c = ground arith

  looped :
      (s : State W)
      → At f utf8_valid (AtHead f f.initial.model_iterations) s
      → Done f utf8_valid valid texted small (loop f (enough_fuel f) s)
  looped s h =
      loop-Done f utf8_valid valid texted small (enough_fuel f) f.initial.model_iterations s h
        (omega arith)

  at_head :
      (m : Machine W) (newest : Result) (exec : Execution)
      → exec.status ≡ running_model
      → model_calls m.log ≡ 0
      → executed_ids m.log ≡ []
      → AtHead f f.initial.model_iterations (core (record (start m newest) { exec = exec }))
  at_head m newest exec q c x = (
    q,
    refl,
    sym (ap (λ l. call_ids f.initial.result.steps ++ l) x ∙ append-nil _),
    omega arith,
    refl,
  )

  unstarted :
      (w : W)
      → Kept f utf8_valid
          (suc (rank (core (start (fresh w) f.initial.result))))
          (start (fresh w) f.initial.result)
  unfolding checkpoint_of snapshot
  unstarted w = (
    (tt, tt, tt, tt),
    (refl, sym sound.result_id ∙ sound.request_id),
    initial-Distinct,
    omega (arith, sound.budget),
    refl,
    tt,
    initial-Savable (fresh w) "" refl,
  )

  entered :
      (m : Machine W) (newest : Result)
      → model_calls m.log ≡ 0
      → executed_ids m.log ≡ []
      → Kept f utf8_valid (suc (rank (core (start m newest)))) (start m newest)
      → Done f utf8_valid valid texted small
          (entered_loop f (enough_fuel f) (enter f (start m newest)))
  unfolding checkpoint_of snapshot
  entered m newest c x k = elim resumable [
    | inl q ↦ rw (enter-created (start m newest) q) (
        looped _ (
          (k.0, k.1, k.2, k.3, k.4, k.5, enter-IsSound utf8_valid valid _ k.6 q),
          at_head m newest
              (record {
                status = running_model;
                transitions =
                    f.initial.result.transitions
                    ++ record { from = f.initial.result.status; to = running_model } ∷ [];
              })
              refl c x,
        ))
    | inr q ↦
        rw (enter-running (start m newest) q)
          (looped _ (k, at_head m newest (initial_state f m).exec q c x))
  ]

  run_from-Ended :
      (started : ℕ) (m : Machine W) (newest : Result)
      → model_calls m.log ≡ 0
      → executed_ids m.log ≡ []
      → Kept f utf8_valid (suc (rank (core (start m newest)))) (start m newest)
      → EndedRun (run_from f started (start m newest))
  run_from-Ended started m newest c x k = Done-Ended started _ (entered m newest c x k)

  observed-Ended :
      (started : ℕ) (m : Machine W) (newest : Result)
      → model_calls m.log ≡ 0
      → executed_ids m.log ≡ []
      → Kept f utf8_valid (suc (rank (core (start m newest)))) (start m newest)
      → EndedRun (run_from f started (observe f (started_event f) (start m newest)))
  unfolding checkpoint_of
  observed-Ended started m newest c x k =
      observe-keeps f (λ s. EndedRun (run_from f started s)) (started_event f) (start m newest)
        (run_from-Ended started m newest c x k)
        (λ w. run_from-Ended started (logged w (observed (started_event f) ∷ m.log)) newest c x k)

  no_output : str_eq f.initial.result.output "" ≡ true
  no_output = ground (arith, sound.recoverable.output)

  first_revision :
      (w : W)
      → checkpoint_revision (checkpoint_of f (initial_state f (fresh w)) f.initial.result none)
        < suc (rank (core (initial_state f (fresh w))))
  unfolding checkpoint_of
  first_revision w = ground (
    arith,
    checkpoint_revision_lem utf8_valid _
        (initial-Savable (fresh w) f.initial.result.output no_output) small,
  )

  -- The first write: the execution is created, or `run` returns the error.
  created-Ended :
      (started : ℕ) (w : W) (r : Option Error × Machine W)
      → stored f ≡ true
      → Written (checkpoint_of f (initial_state f (fresh w)) f.initial.result none) (fresh w) r
      → EndedRun
          (after_create f started (persisted f f.initial.result r (initial_state f (fresh w))))
  unfolding checkpoint_of snapshot
  created-Ended started w r a_store written =
      let cp = checkpoint_of f (initial_state f (fresh w)) f.initial.result none in
      let h = initial-Savable (fresh w) f.initial.result.output no_output in
      go
        (validate_checkpoint_complete utf8_valid (revised cp)
          (revised-IsSound utf8_valid valid cp h))
        (first_revision w) written
    where
      go :
          (validate_checkpoint utf8_valid
              (revised (checkpoint_of f (initial_state f (fresh w)) f.initial.result none))
            ≡ none)
          → checkpoint_revision (checkpoint_of f (initial_state f (fresh w)) f.initial.result none)
            < suc (rank (core (initial_state f (fresh w))))
          → Written (checkpoint_of f (initial_state f (fresh w)) f.initial.result none) (fresh w) r
          → EndedRun
              (after_create f started (persisted f f.initial.result r (initial_state f (fresh w))))
      go good low (saved w' cause q) = rw q (
          observed-Ended started
            (logged w' (
              wrote (revised (checkpoint_of f (initial_state f (fresh w)) f.initial.result none))
                none
              ∷ polled cause
              ∷ []))
            _ refl refl
            (
              ((good, tt), (tt, tt), tt, tt),
              (refl, refl),
              initial-Distinct,
              omega (arith, sound.budget),
              refl,
              (low, tt),
              initial-Savable (fresh w) "" refl,
            ))
      go good low (failed_write w' cause a b q) = rw q (
        _,
        _,
        _,
        refl,
        (
          ((good, tt), (tt, tt), tt, tt),
          initial-Distinct,
          omega (arith, sound.budget),
          Durable-stored f utf8_valid valid texted small (stored f) _ _ a_store refl,
          inr refl,
        ),
      )
      go good low (refused w' cause a q) = rw q (
        _,
        _,
        _,
        refl,
        (
          (tt, tt, tt, tt),
          initial-Distinct,
          omega (arith, sound.budget),
          Durable-stored f utf8_valid valid texted small (stored f) _ _ a_store refl,
          inr refl,
        ),
      )

  -- From a sound checkpoint of a new execution, or of one that waits for the model, `run` returns, and
  -- what it returns is good.
  pub run-Ended : (create : Bool) (w : W) → EndedRun (run f create (fresh w))
  unfolding run
  run-Ended true w = elim (persist_cases f f.initial.result none true (initial_state f (fresh w))) [
    | inl (q, no_store) ↦ rw q (observed-Ended _ (fresh w) f.initial.result refl refl (unstarted w))
    | inr (r, q, a_store, written) ↦ rw q (created-Ended _ w r a_store written)
  ]
  run-Ended false w = run_from-Ended _ (fresh w) f.initial.result refl refl (unstarted w)
