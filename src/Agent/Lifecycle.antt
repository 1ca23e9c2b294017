-- ===== src/Agent/Lifecycle.antt =====
-- `initialize`, `set_callback`, `start`, `send` and `state` of `AbstractURPAgent`. Each guard is
-- the source's; logging is left out.
use unified_runtime_primitiv.Base.{ℕ, String, Bool, true, false, Option, none, some, join}
use unified_runtime_primitiv.Data.{
  AgentStatus, status_value, uninitialized, initialized, waiting, terminated, LastTaskOutcome,
  FailureCategory, text, dict, end, field, make_result, AgentContext, ProcessResult,
  MessageEnvelope, Payload, value,
}
use unified_runtime_primitiv.Exec.{
  Exec, Exception, runtime_error, start_preconditions_violated, ⊤, raise, gets, modify, ◌>>=◌, ◌>>◌,
}
use unified_runtime_primitiv.Mailbox.{put, qsize}
use unified_runtime_primitiv.Agent.State.{
  Agent, Program, created, set_status, set_result, set_task, set_mailbox,
}
use unified_runtime_primitiv.Agent.Events.{announce}

-- `f"{status}"` of a member of the enumeration.
abbrev pub status_text : AgentStatus → String
status_text s = join "AgentStatus." (status_value s)

abbrev pub not_uninitialized : AgentStatus → String
not_uninitialized s = join "Cannot initialize agent in state: " (status_text s)

abbrev pub not_initialized : AgentStatus → String
not_initialized s = join "Agent must be INITIALIZED to start. Current: " (status_text s)

abbrev pub start_refused : String → Exception
start_refused reason =
    start_preconditions_violated (join "Start preconditions check failed: " reason)

abbrev pub send_refused : String
send_refused = "Cannot send message to a terminating/terminated agent."

-- The payloads of the events that `start` emits, and the result that it records.
abbrev pub refusal_payload : String → Payload
refusal_payload reason =
    value (dict (field "reason" (text reason) (field "text" (text reason) end)))

abbrev pub started_payload : String → Payload
started_payload session_id = value (
    dict (
      field "session_id" (text session_id)
        (field "text" (text "Agent has started successfully.") end)))

unfoldable pub idle_result : ProcessResult
unfolding make_result
idle_result = make_result LastTaskOutcome.none FailureCategory.none none none

-- `AbstractURPAgent.state`
pub record AgentView : Type 0 where
  pub agent_id : String
  pub status : AgentStatus
  pub session_id : String
  pub mailbox_size : ℕ
  pub last_process_result : Option ProcessResult

module _ {C W : Type 0} where
  unfoldable pub view : Agent C W → AgentView
  view a = record {
    agent_id = a.descriptor.agent_id;
    status = a.state.status;
    session_id = a.state.session_id;
    mailbox_size = qsize a.mailbox;
    last_process_result = a.state.last_process_result;
  }

  unfoldable pub set_callback : C → Exec (Agent C W) ⊤
  set_callback c = modify λ a. record a { emit_callback = some c }

  unfoldable pub send_at : AgentStatus → MessageEnvelope → Exec (Agent C W) ⊤
  send_at terminated message = raise (runtime_error send_refused)
  send_at _ message = modify λ a. set_mailbox (put message a.mailbox) a

  unfoldable pub send : MessageEnvelope → Exec (Agent C W) ⊤
  unfolding send_at
  send message a = send_at a.state.status message a

module _ {C W : Type 0} (p : Program C W) where
  unfoldable pub initialize_at : AgentStatus → AgentContext → C → Exec (Agent C W) ⊤
  unfolding set_callback
  initialize_at uninitialized context c = do
    modify λ a. record a { context = some context }
    set_callback c
    p.on_initialize context
    modify (set_status initialized)
  initialize_at status context c = raise (runtime_error (not_uninitialized status))

  unfoldable pub initialize : AgentContext → C → Exec (Agent C W) ⊤
  unfolding initialize_at
  initialize context c a = initialize_at a.state.status context c a

  -- `start`, once its preconditions have answered.
  unfoldable pub start_checked : Bool × String → Exec (Agent C W) ⊤
  start_checked (false, reason) = do
    announce p.runtime "AGENT_START_PRECONDITIONS_VIOLATED"
        (value (dict (field "reason" (text reason) (field "text" (text reason) end))))
    raise (start_refused reason)
  start_checked (true, _) = do
    modify (set_status waiting)
    modify (set_result idle_result)
    modify (set_task created)
    session_id ← gets (λ a. a.state.session_id)
    announce p.runtime "AGENT_STARTED" (started_payload session_id)

  unfoldable pub start_at : AgentStatus → Exec (Agent C W) ⊤
  start_at initialized = do checked ← p.check_start_preconditions; start_checked checked
  start_at status = raise (runtime_error (not_initialized status))

  unfoldable pub start : Exec (Agent C W) ⊤
  unfolding start_at
  start a = start_at a.state.status a
