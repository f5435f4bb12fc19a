-- ===== src/Executors/Interrupted.antt =====
-- sandbox_executor.go and mcp_executor.go with tool_reconciliation.go: recovery of a call that was
-- interrupted.
use agent_harness_runtime.Base.{ℕ, Option, none, some, ◌≡◌, ◌⊎◌, inl, inr}
use agent_harness_runtime.Errors.{Reply, ok}
use agent_harness_runtime.Types.{ToolCall}
use agent_harness_runtime.Checkpoint.{Checkpoint}
use agent_harness_runtime.Ports.{
  Context, Store, ToolExecutor, Platform, Machine, execution_context_err,
}
use agent_harness_runtime.Runtime.State.{Runtime}
use agent_harness_runtime.Resume.{reconcile_pending_tool}
use agent_harness_runtime.Resume.Deadlines.{bare, timed}
use agent_harness_runtime.Resume.Interrupted.{FailsClosed, bare-FailsClosed, timed-FailsClosed}
use agent_harness_runtime.Executors.{
  Sandbox, McpToolCaller, sandbox_tool_executor, mcp_tool_executor, new_sandbox_tool_executor,
  new_mcp_tool_executor,
}

-- The executor is one that the constructors return.
abbrev pub Constructed : {W : Type 0} → ToolExecutor W → Type 1
Constructed {W} tools =
    ((Q : Type 0) × (R : Type 0) × (T : Type 0) × (sandbox : Option (Sandbox W Q R T))
      × (resolve : Option (ToolCall → Reply Q)) × (new_sandbox_tool_executor sandbox resolve
          ≡ ok tools))
    ⊎ ((Q : Type 0) × (R : Type 0) × (C : Type 0) × (S : Type 0) × (mcp : Option
          (McpToolCaller W Q R C S))
        × (resolve : Option (ToolCall → Reply (Option Q))) × (new_mcp_tool_executor mcp resolve
            ≡ ok tools))

-- It can neither tell outcomes nor replay.
Constructed-plain :
    {W : Type 0} (tools : ToolExecutor W)
    → Constructed tools
    → (tools.reconcile ≡ none) × (tools.replay ≡ none)
unfolding new_sandbox_tool_executor new_mcp_tool_executor sandbox_tool_executor mcp_tool_executor
Constructed-plain tools (inl (Q, R, T, none, resolve, h)) = cc
Constructed-plain tools (inl (Q, R, T, some sandbox, none, h)) = cc
Constructed-plain tools (inl (Q, R, T, some sandbox, some resolve, h)) = (cc, cc)
Constructed-plain tools (inr (Q, R, C, S, none, resolve, h)) = cc
Constructed-plain tools (inr (Q, R, C, S, some mcp, none, h)) = cc
Constructed-plain tools (inr (Q, R, C, S, some mcp, some resolve, h)) = (cc, cc)

module _ {W : Type 0} (p : Platform W) (r : Runtime W) (tools : ToolExecutor W) (timeout : ℕ) where
  -- A tool call that was interrupted in a sandbox or at an MCP server is not run again by recovery,
  -- with or without a tool deadline, whose wrapper claims to tell outcomes and to replay:
  -- `reconcilePendingTool` leaves the checkpoint as it was, writes nothing, executes nothing, does not call
  -- the model, and fails with ErrToolOutcomeUnknown, if the context stays good.
  pub interrupted-FailsClosed :
      (store : Store W) (ctx : Context W) (cp : Checkpoint) (call : ToolCall) (m : Machine W)
      → Constructed tools
      → ((w : W) → (execution_context_err ctx w).0 ≡ none)
      → cp.pending_tool ≡ some call
      → FailsClosed cp m (reconcile_pending_tool p (bare p r tools timeout) store ctx cp m)
        × FailsClosed cp m (reconcile_pending_tool p (timed p r tools timeout) store ctx cp m)
  interrupted-FailsClosed store ctx cp call m h alive q =
      let (a, b) = Constructed-plain tools h in
      (
        bare-FailsClosed p r tools timeout store ctx cp call q m a b,
        timed-FailsClosed p r tools timeout store ctx cp call q alive m a b,
      )
