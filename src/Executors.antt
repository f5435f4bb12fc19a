-- ===== src/Executors.antt =====
-- sandbox_executor.go and mcp_executor.go: tools run in a sandbox, and tools of an MCP server. The
-- sandbox, the MCP client and JSON are outside the repository: the types of their requests and
-- results are parameters, and what is called or read of them are fields of a record.
pub mod Interrupted
use agent_harness_runtime.Base.{
  String, Bool, true, false, ◌||◌, Option, none, some, ℤ, str_eq, if◌then◌else◌,
}
use agent_harness_runtime.Errors.{
  Error, sentinel, detail, during, opaque, Reply, ok, err, invalid_request, mcp_input_required,
}
use agent_harness_runtime.Types.{ToolCall}
use agent_harness_runtime.Ports.{Context, ToolExecutor}

-- `SandboxToolOutput`, with the sandbox's type of termination reasons.
pub record SandboxToolOutput (T : Type 0) : Type 0 where
  pub exit_code : ℤ
  pub stdout : String
  pub stderr : String
  pub output_truncated : Bool
  pub termination : T

-- `sandbox.Runtime` with its requests `Q`, results `R` and termination reasons `T`.
pub record Sandbox (W : Type 0) (Q : Type 0) (R : Type 0) (T : Type 0) : Type 0 where
  pub validate : Q → Option Error
  pub execute : Context W → Q → W → Reply R × W
  pub exit_code : R → ℤ
  pub stdout : R → String
  pub stderr : R → String
  pub output_truncated : R → Bool
  pub termination : R → T
  pub marshal : SandboxToolOutput T → Reply String

-- `MCPToolOutput`, with the client's types of contents and of structured contents.
pub record McpToolOutput (C : Type 0) (S : Type 0) : Type 0 where
  pub content : C
  pub structured_content : S
  pub is_error : Bool

-- `MCPToolCaller` with its parameters `Q` and results `R`; `none` is a nil result.
pub record McpToolCaller (W : Type 0) (Q : Type 0) (R : Type 0) (C : Type 0) (S : Type 0)
    : Type 0 where
  pub name : Q → String
  pub call_tool : Context W → Q → W → Reply (Option R) × W
  pub needs_input : R → Bool
  pub content : R → C
  pub structured_content : R → S
  pub is_error : R → Bool
  pub marshal : McpToolOutput C S → Reply String

abbrev pub during_reply : String → Reply String → Reply String
during_reply text (err e) = err (during text e)
during_reply text (ok a) = ok a

module _ {W : Type 0} {Q : Type 0} {R : Type 0} {T : Type 0} (sandbox : Sandbox W Q R T) where
  abbrev pub sandbox_output : R → SandboxToolOutput T
  sandbox_output result = record {
    exit_code = sandbox.exit_code result;
    stdout = sandbox.stdout result;
    stderr = sandbox.stderr result;
    output_truncated = sandbox.output_truncated result;
    termination = sandbox.termination result;
  }

  abbrev pub sandbox_answer : Reply R × W → Reply String × W
  sandbox_answer (err e, w) = (err (during "execute sandbox tool" e), w)
  sandbox_answer (ok result, w) =
      (during_reply "encode sandbox result" (sandbox.marshal (sandbox_output result)), w)

  abbrev pub sandbox_valid : Context W → Q → Option Error → W → Reply String × W
  sandbox_valid ctx request (some e) w = (err (during "validate sandbox request" e), w)
  sandbox_valid ctx request none w = sandbox_answer (sandbox.execute ctx request w)

  abbrev pub sandbox_resolved : Context W → Reply Q → W → Reply String × W
  sandbox_resolved ctx (err e) w = (err (during "resolve sandbox request" e), w)
  sandbox_resolved ctx (ok request) w = sandbox_valid ctx request (sandbox.validate request) w

  -- `SandboxToolExecutor`, which can neither reconcile nor replay.
  unfoldable pub sandbox_tool_executor : (ToolCall → Reply Q) → ToolExecutor W
  sandbox_tool_executor resolve = record {
    execute = λ ctx call w. sandbox_resolved ctx (resolve call) w;
    reconcile = none;
    replay = none;
  }

module _ {W : Type 0} {Q : Type 0} {R : Type 0} {C : Type 0} {S : Type 0}
    (mcp : McpToolCaller W Q R C S) where
  abbrev pub mcp_output : R → McpToolOutput C S
  mcp_output result = record {
    content = mcp.content result;
    structured_content = mcp.structured_content result;
    is_error = mcp.is_error result;
  }

  abbrev pub mcp_answer : Reply (Option R) × W → Reply String × W
  mcp_answer (err e, w) = (err (during "call MCP tool" e), w)
  mcp_answer (ok none, w) = (err (opaque "call MCP tool: nil result"), w)
  mcp_answer (ok (some result), w) = (
    if mcp.needs_input result
        then err (detail (sentinel mcp_input_required) "tool")
        else during_reply "encode MCP result" (mcp.marshal (mcp_output result)),
    w,
  )

  -- A resolver may return nil parameters.
  abbrev pub mcp_resolved : Context W → Reply (Option Q) → W → Reply String × W
  mcp_resolved ctx (err e) w = (err (during "resolve MCP request" e), w)
  mcp_resolved ctx (ok none) w =
      (err (detail (sentinel invalid_request) "MCP tool name is required"), w)
  mcp_resolved ctx (ok (some params)) w =
      let called = mcp.call_tool ctx params w in
      if str_eq (mcp.name params) ""
      then (err (detail (sentinel invalid_request) "MCP tool name is required"), w)
      else mcp_answer called

  -- `MCPToolExecutor`, which can neither reconcile nor replay.
  unfoldable pub mcp_tool_executor : (ToolCall → Reply (Option Q)) → ToolExecutor W
  mcp_tool_executor resolve = record {
    execute = λ ctx call w. mcp_resolved ctx (resolve call) w;
    reconcile = none;
    replay = none;
  }

-- `NewSandboxToolExecutor`; `none` is nil.
unfoldable pub new_sandbox_tool_executor :
    {W Q R T : Type 0}
    → Option (Sandbox W Q R T)
    → Option (ToolCall → Reply Q)
    → Reply (ToolExecutor W)
unfolding sandbox_tool_executor
new_sandbox_tool_executor none resolve =
    err (detail (sentinel invalid_request) "sandbox runtime is required")
new_sandbox_tool_executor (some sandbox) none =
    err (detail (sentinel invalid_request) "sandbox request resolver is required")
new_sandbox_tool_executor (some sandbox) (some resolve) = ok (sandbox_tool_executor sandbox resolve)

-- `NewMCPToolExecutor`; `none` is nil.
unfoldable pub new_mcp_tool_executor :
    {W Q R C S : Type 0}
    → Option (McpToolCaller W Q R C S)
    → Option (ToolCall → Reply (Option Q))
    → Reply (ToolExecutor W)
unfolding mcp_tool_executor
new_mcp_tool_executor none resolve =
    err (detail (sentinel invalid_request) "MCP tool caller is required")
new_mcp_tool_executor (some mcp) none =
    err (detail (sentinel invalid_request) "MCP request resolver is required")
new_mcp_tool_executor (some mcp) (some resolve) = ok (mcp_tool_executor mcp resolve)
