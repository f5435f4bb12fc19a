-- ===== src/Runtime/Steps.antt =====
-- The effects of `run` and its writes, as steps between the phases of the invariant.
use agent_harness_runtime.Base.{
  subst, sym, ℕ, suc, ◌^◌, ◌≤◌, String, Bool, true, false, ◌≡◌, refl, ◌⊎◌, inl, inr, Option, none,
  some, [], ◌∷◌, ◌++◌, arith, str_eq, Option-cases,
}
use agent_harness_runtime.Errors.{Error}
use agent_harness_runtime.Status.{
  Status, Execution, running_model, running_tool, failed, cancelled, is_terminal, transition,
}
use agent_harness_runtime.Types.{Result, snapshot}
use agent_harness_runtime.Checkpoint.{checkpoint_revision}
use agent_harness_runtime.Checkpoint.Validity.{validate_checkpoint_complete}
use agent_harness_runtime.Checkpoint.Updates.{revised-IsSound, stop-IsSound}
use agent_harness_runtime.Checkpoint.Revision.{checkpoint_revision_lem}
use agent_harness_runtime.Ports.{
  Effect, Event, Machine, execution_context_err, wrote, polled, observed,
}
use agent_harness_runtime.Writing.{poll_context}
use agent_harness_runtime.Writing.Cases.{
  Written, saved, failed_write, refused, write_checkpoint-Written, revised, logged,
}
use agent_harness_runtime.Runtime.State.{State, Frame, stop, force}
use agent_harness_runtime.Runtime.Effects.{
  checkpoint_of, persist, persisted, save_progress, or_last_saved, poll, unless_cancelled, observe,
}
use agent_harness_runtime.Runtime.Log.{Backed-some, Backed-unstored, WritesBelow, WritesBelow-mono}
use agent_harness_runtime.Runtime.Invariant.{
  Ends, Core, core, rank, LogGood, Sound, stored, Kept, Synced, Returned, Outcome,
}

abbrev pub IsRunning : Status → Type 0
IsRunning status = (status ≡ running_model) ⊎ (status ≡ running_tool)

-- The transition that ends a running execution is in the table.
pub transition_ends :
    (exec : Execution) (status : Status)
    → IsRunning exec.status
    → (status ≡ failed) ⊎ (status ≡ cancelled)
    → (transition exec status).0 ≡ record {
      status = status;
      transitions = exec.transitions ++ record { from = exec.status; to = status } ∷ [];
    }
unfolding transition
transition_ends exec status r e = ground arith

-- A state with one more effect in its log.
abbrev pub noted : {W : Type 0} → State W → Effect → W → State W
noted s e w = record s { machine = logged w (e ∷ s.machine.log) }

module _ {W : Type 0} (f : Frame W) where
  -- Without a store nothing is written; with one, the write has one of its outcomes.
  pub persist_cases :
      (current : Result) (cause : Option Error) (create : Bool) (s : State W)
      → ((persist f current cause create s ≡ (none, s)) × (stored f ≡ false))
        ⊎ ((r : Option Error × Machine W) × (persist f current cause create s
              ≡ persisted f current r s)
            × (stored f ≡ true)
            × Written (checkpoint_of f s current cause) s.machine r)
  unfolding persist
  persist_cases current cause create s = elim (Option-cases f.runtime.store) [
    | inl e ↦ inl (rw e, rw e)
    | inr (store, e) ↦ inr (
      _,
      rw e,
      rw e,
      write_checkpoint-Written f.platform f.context store (checkpoint_of f s current cause) create
          s.machine,
    )
  ]

  pub poll_cases :
      (s : State W) → (o : Option Error) × (w : W) × (poll f s ≡ (o, noted s (polled o) w))
  unfolding poll poll_context
  poll_cases s = (
    (execution_context_err f.context s.machine.world).0,
    (execution_context_err f.context s.machine.world).1,
    refl,
  )

  -- An observer sees an event, and the run goes on in the same way.
  pub observe-keeps :
      (P : State W → Type 0) (event : Event) (s : State W)
      → P s
      → ((w : W) → P (noted s (observed event) w))
      → P (observe f event s)
  unfolding observe
  observe-keeps P event s h next = elim (Option-cases f.runtime.observer) [
    | inl e ↦ rw e h
    | inr (o, e) ↦ rw e (next (o.on_event f.context event s.machine.world))
  ]

module _ {W : Type 0} (f : Frame W) (utf8_valid : String → Bool)
    (valid : (t : String) → utf8_valid t ≡ true)
    (texted : (e : Error) → str_eq (f.platform.error_text e) "" ≡ false)
    (small : f.initial.max_steps ≤ 2 ^ 60) where
  -- The revision of what is saved between two steps.
  current_revision :
      (s : State W)
      → Sound f utf8_valid s
      → is_terminal s.exec.status ≡ false
      → checkpoint_revision (checkpoint_of f s (snapshot s.exec s.steps "") none) ≡ rank (core s)
  unfolding checkpoint_of snapshot
  current_revision s h running = ground (
    arith,
    checkpoint_revision_lem utf8_valid (checkpoint_of f s (snapshot s.exec s.steps "") none) h
        small,
  )

  -- A write attempt of what would be saved keeps the properties of the log.
  attempted :
      (s : State W) (o : Option Error)
      → Kept f utf8_valid (rank (core s)) s
      → is_terminal s.exec.status ≡ false
      → let cp = checkpoint_of f s (snapshot s.exec s.steps "") none in
        LogGood f utf8_valid (wrote (revised cp) o ∷ s.machine.log)
        × WritesBelow (suc (rank (core s))) (wrote (revised cp) o ∷ s.machine.log)
  attempted s o k running =
      let cp = checkpoint_of f s (snapshot s.exec s.steps "") none in
      let rev = current_revision s k.6 running in
      let good =
        validate_checkpoint_complete utf8_valid (revised cp)
          (revised-IsSound utf8_valid valid cp k.6) in
      (
        (
          (good, k.0.0),
          (WritesBelow-mono _ (checkpoint_revision cp) s.machine.log (omega arith) k.5, k.0.1),
          k.0.2,
          k.0.3,
        ),
        (omega arith, WritesBelow-mono _ (suc (rank (core s))) s.machine.log (omega arith) k.5),
      )

  progress_saved :
      (X : Core → Type 0) (s : State W) (r : Option Error × Machine W)
      → Kept f utf8_valid (rank (core s)) s
      → is_terminal s.exec.status ≡ false
      → X (core s)
      → stored f ≡ true
      → Written (checkpoint_of f s (snapshot s.exec s.steps "") none) s.machine r
      → Ends
          (λ _ s'. Kept f utf8_valid (suc (rank (core s'))) s' × Synced f s' × X (core s'))
          (Returned f utf8_valid)
          (or_last_saved f (persisted f (snapshot s.exec s.steps "") r s))
  unfolding checkpoint_of snapshot
  progress_saved X s r k running x a_store (saved w cause e) =
      let (good, below) = attempted s none k running in
      rw e (
        (good, (refl, refl), k.2, k.3, k.4, below, k.6),
        Backed-some (stored f) _ _ (refl, refl, refl, refl, refl),
        x,
      )
  progress_saved X s r k running x a_store (failed_write w cause a b e) =
      let (good, below) = attempted s (some b) k running in
      rw e (good, k.1, k.2, k.3, inl (a_store, refl, refl, refl))
  progress_saved X s r k running x a_store (refused w cause a e) =
      rw e (k.0, k.1, k.2, k.3, inl (a_store, refl, refl, refl))

  pub save_progress-Ends :
      (X : Core → Type 0) (s : State W)
      → Kept f utf8_valid (rank (core s)) s
      → is_terminal s.exec.status ≡ false
      → X (core s)
      → Ends
          (λ _ s'. Kept f utf8_valid (suc (rank (core s'))) s' × Synced f s' × X (core s'))
          (Returned f utf8_valid)
          (save_progress f s)
  unfolding save_progress
  save_progress-Ends X s k running x =
      elim (persist_cases f (snapshot s.exec s.steps "") none false s) [
        | inl (e, no_store) ↦ rw e (
          (k.0, k.1, k.2, k.3, k.4, WritesBelow-mono _ _ s.machine.log (omega arith) k.5, k.6),
          Backed-unstored (stored f) _ _ no_store,
          x,
        )
        | inr (r, e, a_store, written) ↦ rw e (progress_saved X s r k running x a_store written)
      ]

  stop-Outcome :
      (bound : ℕ) (status : Status) (e : Error) (s : State W)
      → Kept f utf8_valid bound s
      → bound ≤ suc (rank (core s))
      → IsRunning s.exec.status
      → (status ≡ failed) ⊎ (status ≡ cancelled)
      → let exec : Execution = record {
        status = status;
        transitions = s.exec.transitions ++ record { from = s.exec.status; to = status } ∷ [];
      } in
        Outcome f utf8_valid (snapshot exec s.steps "") (some e) (record s { exec = exec })
  unfolding snapshot checkpoint_of
  stop-Outcome bound status e s k b running ended =
      let cp = checkpoint_of f s (snapshot s.exec s.steps "") none in
      let sound =
        stop-IsSound utf8_valid valid cp k.6 status (f.platform.error_text e) ended running
          (texted e) in
      inr (
        k.4,
        ground arith,
        sound,
        WritesBelow-mono bound _ s.machine.log
            (ground (arith, checkpoint_revision_lem utf8_valid _ sound small)) k.5,
      )

  -- A running execution may stop with an error.
  pub stop-Returned :
      {A : Type 0} (P : A → State W → Type 0) (bound : ℕ) (status : Status) (e : Error)
      (s : State W)
      → Kept f utf8_valid bound s
      → bound ≤ suc (rank (core s))
      → IsRunning s.exec.status
      → (status ≡ failed) ⊎ (status ≡ cancelled)
      → Ends P (Returned f utf8_valid) (stop status e s)
  unfolding stop force
  stop-Returned P bound status e s k b running ended = (
    k.0,
    k.1,
    k.2,
    k.3,
    subst (λ x. Outcome f utf8_valid (snapshot x s.steps "") (some e) (record s { exec = x }))
        (sym (transition_ends s.exec status running ended))
        (stop-Outcome bound status e s k b running ended),
  )

  -- A reading of the context leads on, or cancels the execution.
  pub unless_cancelled-Ends :
      (P : State W → Type 0) (bound : ℕ) (s : State W)
      → Kept f utf8_valid bound s
      → bound ≤ suc (rank (core s))
      → IsRunning s.exec.status
      → ((w : W) → P (noted s (polled none) w))
      → Ends (λ _ s'. P s') (Returned f utf8_valid) (unless_cancelled f s)
  unfolding unless_cancelled checkpoint_of
  unless_cancelled-Ends P bound s k b running next = go (poll_cases f s)
    where
      go :
          ((o : Option Error) × (w : W) × (poll f s ≡ (o, noted s (polled o) w)))
          → Ends (λ _ s'. P s') (Returned f utf8_valid) (unless_cancelled f s)
      go (none, w, e) = rw e (next w)
      go (some x, w, e) = rw e (
          stop-Returned (λ _ s'. P s') bound cancelled x (noted s (polled (some x)) w) k b running
            (inr refl))
