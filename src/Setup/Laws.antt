-- ===== src/Setup/Laws.antt =====
-- The runtimes that `New` makes.
use agent_harness_runtime.Base.{
  ℕ, magnitude, ◌<◌, true, Option, none, some, List, [], ◌∷◌, ◌≡◌, refl, arith, ◌⊎◌, inl, inr,
  Option-cases, All,
}
use agent_harness_runtime.Errors.{Error, is, ok, err, invalid_request, Reply-cases}
use agent_harness_runtime.Ports.{ToolExecutor, Model}
use agent_harness_runtime.Setup.{
  Slot, bare, timed, Config, Setting, with_max_steps, with_model_timeout, with_tool_timeout,
  with_checkpoint_store, with_model_retry, with_observer, with_observers, caller_written, bound,
  bound_tools, apply_setting, configure, default_max_steps, starting, new,
}

-- The last member of a list, or what was there before.
abbrev pub newest {ℓ} : {A : Type ℓ} → List A → A → A
newest [] a = a
newest (x ∷ xs) a = newest xs x

module _ {W : Type 0} where
  -- The step limits, and the timeouts, that a list of options asks for, in order.
  abbrev pub step_limits : List (Option (Setting W)) → List ℕ
  step_limits [] = []
  step_limits (some (with_max_steps n) ∷ rest) = magnitude n ∷ step_limits rest
  step_limits (_ ∷ rest) = step_limits rest

  abbrev pub model_timeouts : List (Option (Setting W)) → List (Option ℕ)
  model_timeouts [] = []
  model_timeouts (some (with_model_timeout t) ∷ rest) = some (magnitude t) ∷ model_timeouts rest
  model_timeouts (_ ∷ rest) = model_timeouts rest

  abbrev pub tool_timeouts : List (Option (Setting W)) → List (Option ℕ)
  tool_timeouts [] = []
  tool_timeouts (some (with_tool_timeout t) ∷ rest) = some (magnitude t) ∷ tool_timeouts rest
  tool_timeouts (_ ∷ rest) = tool_timeouts rest

-- An option that is caller-written leaves the model, the executor and the step limit as they are.
abbrev pub LeavesAlone : {W : Type 0} → Option (Setting W) → Type 0
LeavesAlone {W} (some (caller_written option)) =
    (c c' : Config W)
    → option c ≡ ok c'
    → (c'.model ≡ c.model) × (c'.tools ≡ c.tools) × (c'.max_steps ≡ c.max_steps)
LeavesAlone _ = Unit

-- A value with at most one timeout.
abbrev pub slot {ℓ} : {A : Type ℓ} → A → Option ℕ → Slot A
slot a none = bare a
slot a (some t) = timed (bare a) t

abbrev pub tool_slot {ℓ} : {A : Type ℓ} → Option A → Option ℕ → Option (Slot A)
tool_slot none t = none
tool_slot (some a) t = some (slot a t)

bound-slot {ℓ} : {A : Type ℓ} (a : A) (t : Option ℕ) (n : ℕ) → bound (slot a t) n ≡ timed (bare a) n
bound-slot a none n = refl
bound-slot a (some t) n = refl

bound_tools-slot {ℓ} :
    {A : Type ℓ} (a : Option A) (t : Option ℕ) (n : ℕ)
    → bound_tools (tool_slot a t) n ≡ tool_slot a (some n)
bound_tools-slot none t n = refl
bound_tools-slot (some a) none n = refl
bound_tools-slot (some a) (some t) n = refl

module _ {W : Type 0} (model : Model W) (tools : Option (ToolExecutor W)) where
  -- The model and the executor that were given, each with the newest timeout at most, and the newest
  -- step limit.
  abbrev pub Configured : Option ℕ → Option ℕ → ℕ → Config W → Type 0
  Configured a b n c =
      (c.model ≡ slot model a)
      × (c.tools ≡ tool_slot tools b)
      × (c.max_steps ≡ n)
      × (0 < c.max_steps)

  apply-Configured :
      (s : Setting W) (c c' : Config W) (a b : Option ℕ) (n : ℕ)
      → LeavesAlone (some s)
      → Configured a b n c
      → apply_setting s c ≡ ok c'
      → Configured
          (newest (model_timeouts (some s ∷ [])) a)
          (newest (tool_timeouts (some s ∷ [])) b)
          (newest (step_limits (some s ∷ [])) n)
          c'
  unfolding apply_setting
  apply-Configured (with_model_timeout t) c c' a b n k h q =
      ground (arith, bound-slot model a (magnitude t))
  apply-Configured (with_tool_timeout t) c c' a b n k h q =
      ground (arith, bound_tools-slot tools b (magnitude t))
  apply-Configured (caller_written f) c c' a b n k h q = ground (arith, k c c' q, h)
  apply-Configured s c c' a b n k h q = ground arith

  newest-cons :
      (s : Setting W) (rest : List (Option (Setting W))) (a b : Option ℕ) (n : ℕ) (c : Config W)
      → Configured
          (newest (model_timeouts rest) (newest (model_timeouts (some s ∷ [])) a))
          (newest (tool_timeouts rest) (newest (tool_timeouts (some s ∷ [])) b))
          (newest (step_limits rest) (newest (step_limits (some s ∷ [])) n))
          c
      → Configured
          (newest (model_timeouts (some s ∷ rest)) a)
          (newest (tool_timeouts (some s ∷ rest)) b)
          (newest (step_limits (some s ∷ rest)) n)
          c
  newest-cons (with_model_timeout t) rest a b n c h = h
  newest-cons (with_tool_timeout t) rest a b n c h = h
  newest-cons (with_max_steps t) rest a b n c h = h
  newest-cons (with_checkpoint_store t) rest a b n c h = h
  newest-cons (with_model_retry t d) rest a b n c h = h
  newest-cons (with_observer o) rest a b n c h = h
  newest-cons (with_observers o) rest a b n c h = h
  newest-cons (caller_written f) rest a b n c h = h

  configure-Configured :
      (settings : List (Option (Setting W))) (c c' : Config W) (a b : Option ℕ) (n : ℕ)
      → All LeavesAlone settings
      → Configured a b n c
      → configure settings c ≡ ok c'
      → Configured
          (newest (model_timeouts settings) a)
          (newest (tool_timeouts settings) b)
          (newest (step_limits settings) n)
          c'
  unfolding configure
  configure-Configured [] c c' a b n k h q = ground (arith, h)
  configure-Configured (none ∷ rest) c c' a b n k h q = configure-Configured rest c c' a b n k.1 h q
  configure-Configured (some s ∷ rest) c c' a b n k h q = elim (Reply-cases (apply_setting s c)) [
    | inl (c1, e) ↦
        newest-cons s rest a b n c'
          (configure-Configured rest c1 c' _ _ _ k.1 (apply-Configured s c c1 a b n k.0 h e) (cc))
    | inr (x, e) ↦ cc
  ]

  starting-Configured : Configured none none default_max_steps (starting model tools)
  starting-Configured = elim (Option-cases tools) [
    | inl e ↦ ground (arith, e)
    | inr (t, e) ↦ ground (arith, e)
  ]

  -- A runtime that `New` makes has the model and the tool executor that were given, each inside one
  -- deadline at most, the one that was asked for last, however often one was asked for; its step
  -- limit is the one asked for last, 16 if none was, and is positive. Caller-written options must leave
  -- these three as they are.
  pub new-Configured :
      (settings : List (Option (Setting W))) (c : Config W)
      → All LeavesAlone settings
      → new (some model) tools settings ≡ ok c
      → Configured
          (newest (model_timeouts settings) none)
          (newest (tool_timeouts settings) none)
          (newest (step_limits settings) default_max_steps)
          c
  unfolding new
  new-Configured settings c k q =
      configure-Configured settings (starting model tools) c none none default_max_steps k
        starting-Configured q

module _ {W : Type 0} where
  -- One of the options is caller-written, and returns the error of some runtime.
  abbrev pub CallerError : List (Option (Setting W)) → Error → Type 0
  CallerError [] e = ⊥
  CallerError (some (caller_written option) ∷ rest) e =
      ((c : Config W) × (option c ≡ err e)) ⊎ CallerError rest e
  CallerError (_ ∷ rest) e = CallerError rest e

  CallerError-cons :
      (s : Option (Setting W)) (rest : List (Option (Setting W))) (e : Error)
      → CallerError rest e
      → CallerError (s ∷ rest) e
  CallerError-cons none rest e h = h
  CallerError-cons (some (with_checkpoint_store store)) rest e h = h
  CallerError-cons (some (with_max_steps n)) rest e h = h
  CallerError-cons (some (with_model_timeout t)) rest e h = h
  CallerError-cons (some (with_tool_timeout t)) rest e h = h
  CallerError-cons (some (with_model_retry n d)) rest e h = h
  CallerError-cons (some (with_observer o)) rest e h = h
  CallerError-cons (some (with_observers os)) rest e h = h
  CallerError-cons (some (caller_written option)) rest e h = inr h

  apply-err :
      (s : Setting W) (rest : List (Option (Setting W))) (c : Config W) (e : Error)
      → apply_setting s c ≡ err e
      → (is e invalid_request ≡ true) ⊎ CallerError (some s ∷ rest) e
  unfolding apply_setting is
  apply-err (caller_written option) rest c e h = inr (inl (c, h))
  apply-err s rest c e h = inl (ground arith)

  configure-err :
      (settings : List (Option (Setting W))) (c : Config W) (e : Error)
      → configure settings c ≡ err e
      → (is e invalid_request ≡ true) ⊎ CallerError settings e
  unfolding configure
  configure-err [] c e q = cc
  configure-err (none ∷ rest) c e q = configure-err rest c e q
  configure-err (some s ∷ rest) c e q = elim (Reply-cases (apply_setting s c)) [
    | inl (c1, p) ↦ elim (configure-err rest c1 e (cc)) [
      | inl h ↦ inl h
      | inr h ↦ inr (CallerError-cons (some s) rest e h)
    ]
    | inr (x, p) ↦ apply-err s rest c e (cc)
  ]

  -- Whatever model, tools and options `New` is given, an error that it returns is ErrInvalidRequest or,
  -- as it is, the error of a caller-written option in the list.
  pub new-err :
      (model : Option (Model W)) (tools : Option (ToolExecutor W))
      (settings : List (Option (Setting W))) (e : Error)
      → new model tools settings ≡ err e
      → (is e invalid_request ≡ true) ⊎ CallerError settings e
  unfolding new is
  new-err none tools settings e q = inl (ground arith)
  new-err (some model) tools settings e q = configure-err settings (starting model tools) e q
