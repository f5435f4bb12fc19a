-- ===== src/Examples/Settings.antt =====
-- callback_timeout.go and `New`: the theorems at a model that answers after its deadline, and at a
-- list of options.
use agent_harness_runtime.Base.{ℕ, Option, none, some, List, [], ◌∷◌, true, pos, ◌⊎◌, ◌≡◌, refl}
use agent_harness_runtime.Errors.{
  sentinel, context_deadline_exceeded, opaque, invalid_request, is, err, ok,
}
use agent_harness_runtime.Types.{ModelInput}
use agent_harness_runtime.Ports.{
  Platform, ToolExecutor, Machine, outcome_unknown, execution_context_err,
}
use agent_harness_runtime.Resume.{reconcile_pending_tool}
use agent_harness_runtime.Resume.Deadlines.{timed, bare, timeout_tool_executor-recovery}
use agent_harness_runtime.Setup.{
  Slot, Setting, with_max_steps, with_model_timeout, caller_written, Config, new, configure,
  apply_setting, starting,
}
use agent_harness_runtime.Setup.Laws.{Configured, CallerError, new-Configured, new-err}
use agent_harness_runtime.Examples.{platform, context, store, runtime, pending}

-- A platform on which every deadline has passed as soon as it is set.
abbrev late_platform : Platform ℕ
late_platform = record platform {
  with_timeout = λ n ctx. record ctx { err = λ w. (some (sentinel context_deadline_exceeded), w) };
}

abbrev input : ModelInput
input = record { prompt = "find it"; steps = [] }

-- An executor that can tell outcomes but cannot replay.
abbrev executor : ToolExecutor ℕ
executor = record {
  execute = λ ctx c w. (ok "found", w);
  reconcile = some (λ ctx c w. (ok (record { state = outcome_unknown; output = "" }), w));
  replay = none;
}

context-alive : (w : ℕ) → (execution_context_err context w).0 ≡ none
unfolding execution_context_err
context-alive w = refl

timeout_tool_executor-recovery_example :
    let m : Machine ℕ = record { world = 0; log = [] } in
    let with_deadline =
      reconcile_pending_tool platform (timed platform runtime executor 5) store context pending m in
    let without =
      reconcile_pending_tool platform (bare platform runtime executor 5) store context pending m in
    (with_deadline.0 ≡ without.0) × (with_deadline.1 ≡ without.1)
timeout_tool_executor-recovery_example =
    timeout_tool_executor-recovery platform runtime executor 5 store context pending
      (record { world = 0; log = [] }) refl (λ w. context-alive w)

abbrev settings : List (Option (Setting ℕ))
settings =
    some (with_model_timeout (pos 9))
    ∷ none
    ∷ some (with_max_steps (pos 4))
    ∷ some (with_model_timeout (pos 5))
    ∷ []

abbrev made : Config ℕ
made = record (starting runtime.model (some executor)) {
  model = Slot.timed (Slot.bare runtime.model) 5;
  max_steps = 4;
}

made_lem : new (some runtime.model) (some executor) settings ≡ ok made
unfolding new configure apply_setting
made_lem = refl

new-Configured_example : Configured runtime.model (some executor) (some 5) none 4 made
new-Configured_example =
    new-Configured runtime.model (some executor) settings made (tt, (tt, (tt, (tt, tt)))) made_lem

-- An option that its caller has written, and that fails.
abbrev refusing : Option (Setting ℕ)
refusing = some (caller_written (λ c. err (opaque "no license")))

abbrev refused_settings : List (Option (Setting ℕ))
refused_settings = some (with_max_steps (pos 4)) ∷ refusing ∷ []

new-refused : new (some runtime.model) none refused_settings ≡ err (opaque "no license")
unfolding new configure apply_setting
new-refused = refl

new-err_example :
    (is (opaque "no license") invalid_request ≡ true)
    ⊎ CallerError refused_settings (opaque "no license")
new-err_example =
    new-err (some runtime.model) none refused_settings (opaque "no license") new-refused
