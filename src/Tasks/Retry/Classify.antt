-- ===== src/Tasks/Retry/Classify.antt =====
-- Which failures of the core agent a worker tries again.
use snow_panel.Prelude.{ℕ, pos_part, ◌≡◌, ap, Bool, not, ◌||◌, ◌==◌, arith}
use snow_panel.Errors.{AgentError, GoError, agent, agent_cause, as_agent, as_app}
use snow_panel.Errors.Agent.{
  code_status, map_agent_http_status, map_agent_error, invalid_argument, unauthenticated,
  permission_denied, not_found,
}
use snow_panel.Tasks.Retry.{is_retryable_task_error, is_permanent}

-- The codes by which the agent says that a request is invalid, forbidden or about a missing thing.
abbrev pub is_refusal : ℕ → Bool
is_refusal c =
    c == 4000
    || c == 4001
    || c == 4002
    || c == 4003
    || c == 4004
    || c == 4006
    || c == 4007
    || c == 5000
    || c == 5002
    || c == 6001
    || c == 6002
    || c == 7000
    || c == 7001

code_status-is_permanent : (c : ℕ) → is_permanent (code_status c) ≡ is_refusal c
unfolding code_status
code_status-is_permanent c = ground arith

-- An error answer of the agent is tried again exactly if its code is none by which the agent
-- refuses the request.
pub agent_answer_retryable :
    (a : AgentError)
    → is_retryable_task_error (map_agent_error (agent a)) ≡ not (is_refusal (pos_part a.code))
unfolding map_agent_error as_agent is_retryable_task_error as_app map_agent_http_status
agent_answer_retryable a = ap not (code_status-is_permanent (pos_part a.code))

-- A call that does not reach the agent's handler is tried again exactly if its gRPC code is none
-- of invalid argument, unauthenticated, permission denied and not found.
pub agent_transport_retryable :
    (a : AgentError) (cause : GoError)
    → is_retryable_task_error (map_agent_error (agent_cause a cause))
      ≡ not (
          a.grpc_code == invalid_argument
          || a.grpc_code == unauthenticated
          || a.grpc_code == permission_denied
          || a.grpc_code == not_found)
unfolding map_agent_error as_agent is_retryable_task_error as_app map_agent_http_status
agent_transport_retryable a cause = ground arith
