-- ===== src/Handle/Defs.antt =====
-- `AgentKey`, `AgentReadiness`, `AgentEntry` and `AgentHandle`.
use unified_runtime_primitiv.Base.{ℕ, String, Option, none, some, join}
use unified_runtime_primitiv.Data.{AgentStatus, MessageEnvelope, Fields, end}
use unified_runtime_primitiv.Exec.{Exec, Result, ⊤}
use unified_runtime_primitiv.Mailbox.{qsize}
use unified_runtime_primitiv.Agent.{Agent, AgentView, view, send, status_text}

pub record AgentKey : Type 0 where
  pub agent_type : String
  pub module_name : String

-- `AgentKey.__str__`
unfoldable pub key_text : AgentKey → String
key_text key = join key.agent_type (join ":" key.module_name)

pub data AgentReadiness : Type 0 where
  ready not_ready degraded terminated : AgentReadiness

unfoldable pub readiness_value : AgentReadiness → String
readiness_value ready = "READY"
readiness_value not_ready = "NOT_READY"
readiness_value degraded = "DEGRADED"
readiness_value AgentReadiness.terminated = "TERMINATED"

pub record AgentEntry (C W : Type 0) : Type 0 where
  pub key : AgentKey
  pub agent : Agent C W
  pub runtime_id : String
  pub created_at : ℕ
  pub metadata : Fields

-- A new entry takes the given fresh id and time.
abbrev pub new_entry : {C W : Type 0} → AgentKey → Agent C W → String → ℕ → AgentEntry C W
new_entry key agent id now = record {
  key = key;
  agent = agent;
  runtime_id = id;
  created_at = now;
  metadata = end;
}

-- `readiness_fn` is the registry's.
pub record AgentHandle (C W : Type 0) : Type 0 where
  pub entry : AgentEntry C W
  pub readiness_fn : AgentEntry C W → AgentReadiness

-- What `to_dict` gives.
pub record HandleSnapshot : Type 0 where
  pub key : String
  pub runtime : AgentView
  pub readiness : String
  pub reason : Option String

module _ {C W : Type 0} where
  -- The handle around what a call on its agent did.
  abbrev pub around_handle : AgentHandle C W → Result ⊤ × Agent C W → Result ⊤ × AgentHandle C W
  around_handle h (r, a) = (r, record h { entry = record h.entry { agent = a } })

  unfoldable pub handle_send : MessageEnvelope → Exec (AgentHandle C W) ⊤
  handle_send message h = around_handle h (send message h.entry.agent)

  abbrev pub handle_key : AgentHandle C W → AgentKey
  handle_key h = h.entry.key

  abbrev pub runtime_id : AgentHandle C W → String
  runtime_id h = h.entry.runtime_id

  unfoldable pub handle_state : AgentHandle C W → AgentView
  unfolding view
  handle_state h = view h.entry.agent

  unfoldable pub handle_readiness : AgentHandle C W → AgentReadiness
  handle_readiness h = h.readiness_fn h.entry

  unfoldable pub handle_status : AgentHandle C W → AgentStatus
  unfolding handle_state
  handle_status h = (handle_state h).status

  unfoldable pub mailbox_size : AgentHandle C W → ℕ
  mailbox_size h = qsize h.entry.agent.mailbox

  -- The reason that goes with a readiness.
  unfoldable pub reason_of : AgentReadiness → AgentHandle C W → Option String
  unfolding handle_status
  reason_of not_ready h = some (join "Agent is in " (join (status_text (handle_status h)) " state"))
  reason_of AgentReadiness.terminated h = some "Agent has been terminated"
  reason_of _ h = none

  unfoldable pub to_dict : AgentHandle C W → HandleSnapshot
  unfolding reason_of
  to_dict h =
      let readiness = handle_readiness h in
      record {
        key = key_text h.entry.key;
        runtime = handle_state h;
        readiness = readiness_value readiness;
        reason = reason_of readiness h;
      }

  -- `AgentHandle.__repr__`
  unfoldable pub repr : AgentHandle C W → String
  repr h = join "AgentHandle(key=" (
      join (key_text h.entry.key) (
        join ", status=" (
          join (status_text (handle_status h))
            (join ", readiness=" (join (readiness_value (handle_readiness h)) ")")))))
