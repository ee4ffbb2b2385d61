-- ===== src/Errors/Agent.antt =====
-- backend/internal/service/agent_error.go: how a failure of the core agent becomes an application
-- error with an HTTP status.
use snow_panel.Prelude.{ℕ, pos_part, Bool, ◌||◌, none, some, is_empty, if◌then◌else◌, ltb, ◌==◌}
use snow_panel.Errors.{AgentError, GoError, app_wrap, as_agent, agent_unavailable, new}

-- The codes of `google.golang.org/grpc/codes` that the switch names.
abbrev pub invalid_argument : ℕ
invalid_argument = 3

abbrev pub deadline_exceeded : ℕ
deadline_exceeded = 4

abbrev pub not_found : ℕ
not_found = 5

abbrev pub permission_denied : ℕ
permission_denied = 7

abbrev pub unimplemented : ℕ
unimplemented = 12

abbrev pub unavailable : ℕ
unavailable = 14

abbrev pub unauthenticated : ℕ
unauthenticated = 16

-- The first switch of `mapAgentHTTPStatus`.
unfoldable pub transport_status : ℕ → ℕ
transport_status c =
    if c == invalid_argument
    then 400
    else if c == unauthenticated
    then 401
    else if c == permission_denied
    then 403
    else if c == not_found
    then 404
    else if c == deadline_exceeded || c == unavailable
    then 503
    else if c == unimplemented
    then 502
    else agent_unavailable.status

-- The second switch of `mapAgentHTTPStatus`.
unfoldable pub code_status : ℕ → ℕ
code_status c =
    if c == 4000 || c == 4003 || c == 4006 || c == 5000 || c == 6001 || c == 7000
    then 400
    else if c == 4004
    then 413
    else if c == 4001 || c == 4007 || c == 5002
    then 403
    else if c == 4002 || c == 6002 || c == 7001
    then 404
    else if c == 4005 || c == 5001 || c == 5003 || c == 6003 || c == 7002
    then 502
    else if c == 6000
    then 503
    else agent_unavailable.status

-- `mapAgentHTTPStatus`; the Boolean is `IsTransport`. No negative code is in the second switch.
unfoldable pub map_agent_http_status : AgentError → Bool → ℕ
unfolding transport_status code_status
map_agent_http_status a transport =
    if transport then transport_status a.grpc_code else code_status (pos_part a.code)

-- `mapAgentError`.
unfoldable pub map_agent_error : GoError → GoError
unfolding map_agent_http_status
map_agent_error e = elim (as_agent e) [
  | some (a, transport) ↦
      app_wrap
        (new (if ltb 0 (pos_part a.code) then pos_part a.code else agent_unavailable.code)
          (map_agent_http_status a transport)
          (if is_empty a.message then agent_unavailable.message else a.message))
        e
  | none ↦ app_wrap agent_unavailable e
]
