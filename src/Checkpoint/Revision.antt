-- ===== src/Checkpoint/Revision.antt =====
-- checkpoint.go: the revision of a sound checkpoint, without the loop and without overflow.
use agent_harness_runtime.Base.{
  ◌+◌, ◌*◌, ◌^◌, ◌≤◌, String, Bool, ◌≡◌, Option, none, some, arith, length, if◌then◌else◌,
}
use agent_harness_runtime.Status.{is_terminal}
use agent_harness_runtime.Types.{ToolCall}
use agent_harness_runtime.Checkpoint.{Checkpoint, pending_count, checkpoint_revision}
use agent_harness_runtime.Checkpoint.History.{count-boundaries}
use agent_harness_runtime.Checkpoint.Validity.{IsSound}

pub pending_count-le : (o : Option ToolCall) → pending_count o ≤ 1
pending_count-le none = omega arith
pending_count-le (some call) = omega arith

-- The revision of a sound checkpoint with a step budget of at most 2 ^ 60 is the sum of its progress,
-- without wrap-around: one, each reserved model attempt and retry, two for each completed tool call, one
-- for a pending call and one for the end of the execution.
pub checkpoint_revision_lem :
    (utf8_valid : String → Bool) (cp : Checkpoint)
    → IsSound utf8_valid cp
    → cp.max_steps ≤ 2 ^ 60
    → checkpoint_revision cp
      ≡ 1
        + cp.model_iterations
        + cp.model_retries
        + 2 * length cp.result.steps
        + pending_count cp.pending_tool
        + (if is_terminal cp.result.status then 1 else 0)
unfolding checkpoint_revision
checkpoint_revision_lem utf8_valid cp h small =
    let good = h.recoverable in
    ground (
      arith,
      pending_count-le cp.pending_tool,
      count-boundaries cp.result.transitions,
      good.started,
      good.finished,
      good.reserved,
      h.budget,
      h.retries,
    )
