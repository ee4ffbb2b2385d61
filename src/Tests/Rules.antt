-- ===== src/Tests/Rules.antt =====
-- The rules on retries at concrete values.
use snow_panel.Prelude.{
  ℕ, pos, ◌+◌, ◌*◌, ◌≡◌, ◌≤◌, ◌<◌, text, Bool, true, false, not, none, some, ◌⊎◌,
}
use snow_panel.Errors.{AgentError, agent}
use snow_panel.Errors.Agent.{map_agent_error}
use snow_panel.Tasks.Retry.{second, next_task_retry_at, is_retryable_task_error}
use snow_panel.Tasks.Retry.Backoff.{next_task_retry_at-schedule}
use snow_panel.Tasks.Retry.Classify.{is_refusal, agent_answer_retryable}

next_task_retry_at-schedule_example :
    ((◌≡◌ {A = Bool} true true)
      × (◌<◌ 1 3)
      × ((at : ℕ) × (next_task_retry_at 100 (pos 1) (pos 3) true ≡ some at)
          × (100 + second ≤ at)
          × (at ≤ 100 + 30 * second)))
    ⊎ (((◌≡◌ {A = Bool} true false) ⊎ (◌≤◌ 3 1))
        × (next_task_retry_at 100 (pos 1) (pos 3) true ≡ none))
next_task_retry_at-schedule_example = next_task_retry_at-schedule 100 1 3 true

abbrev not_permitted : AgentError
not_permitted = record { code = pos 4001; message = text "denied"; detail = text ""; grpc_code = 0 }

agent_answer_retryable_example :
    is_retryable_task_error (map_agent_error (agent not_permitted)) ≡ not (is_refusal 4001)
agent_answer_retryable_example = agent_answer_retryable not_permitted
