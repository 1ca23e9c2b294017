-- ===== src/Web/Endpoints.antt =====
-- The server's globals and the endpoints over the host. The event log and what else the program
-- has stand in the host's world.
use mathlib.Core.Option
use unified_runtime_primitiv.Base.{
  ℕ, String, Bool, true, false, Option, none, some, List, [], ◌∷◌, ◌++◌, ◌==◌,
}
use unified_runtime_primitiv.Data.{
  AgentDescriptor, AgentContext, MessageEnvelope, Payload, Value, null, text, optional_text, end,
  field, status_value,
}
use unified_runtime_primitiv.Exec.{Exec, other_error, Result, ok, raised, ⊤, continue}
use unified_runtime_primitiv.Agent.{AgentView, Program, view}
use unified_runtime_primitiv.Host.{
  HostFields, HostedAgent, Held, idle, holds, Host, Environment, new_host, fields_of, host_runtime,
  set_fields, set_emit_callback, initialize_and_start, send_message, shutdown_host,
}
use unified_runtime_primitiv.Sample.{echo_agent}
use unified_runtime_primitiv.Sdk.{sdk_descriptor}

-- `event_log` holds the events as `model_dump` gives them. `X` is the rest of the program.
pub record ServerFields (X : Type 0) : Type 0 where
  pub event_log : List Value
  pub rest : X

-- The host's only callback is `log_event`.
abbrev pub ServedHost : Type 0 → Type 0
ServedHost X = Host ⊤ (ServerFields X)

abbrev pub ServedAgent : Type 0 → Type 0
ServedAgent X = HostedAgent ⊤ (ServerFields X)

-- `host`: none, or a host, with whether its class is `EchoAgent`.
pub data Server (X : Type 0) : Type 0 where
  unhosted : ServerFields X → Server X
  hosts : Bool → ServedHost X → Server X

-- What the server calls: the standard library, pydantic, the event loop and `SDKURPAgent`.
pub record Platform (X : Type 0) : Type 0 where
  pub uuid4 : ServerFields X → String × ServerFields X
  pub utc_now : ServerFields X → ℕ × ServerFields X
  pub others : Exec (ServedAgent X) ⊤
  pub str : Payload → String
  pub abspath : String → String
  pub model_dump : MessageEnvelope → Result Value
  pub sdk_class : Program ⊤ (HostFields ⊤ (ServerFields X))
  pub sdk_conversation_id : ServedAgent X → String

abbrev pub echo_descriptor : AgentDescriptor
echo_descriptor = record {
  agent_id = "vhl.echo.v1";
  name = "Echo Test Agent";
  version = "1.0";
  description = "";
  capabilities = "ECHO" ∷ [];
  accepted_message_types = "PING" ∷ "MESSAGE" ∷ [];
  metadata = end;
}

abbrev pub descriptor_for : Bool → AgentDescriptor
descriptor_for true = echo_descriptor
descriptor_for false = sdk_descriptor

module _ {X : Type 0} where
  abbrev pub world_of : Server X → ServerFields X
  world_of (unhosted f) = f
  world_of (hosts is_echo host) = (fields_of host.held).world

  -- The host's world is the server's, so a new host takes it over.
  unfoldable pub create_host : String → Server X → Server X
  create_host agent_type server =
      let is_echo = agent_type == "echo" in
      hosts is_echo (new_host (descriptor_for is_echo) (world_of server))

  abbrev pub held_agent : Held ⊤ (ServerFields X) → Option (ServedAgent X)
  held_agent (idle f) = none
  held_agent (holds a) = some a

  abbrev pub around_server : {A : Type 0} → Bool → Result A × ServedHost X → Result A × Server X
  around_server is_echo (r, host) = (r, hosts is_echo host)

  -- What `/agent/init` answers: the agent id of the host that there is then.
  abbrev pub id_of_host : Server X → Result String × Server X
  id_of_host (unhosted f) = (raised (other_error "AttributeError"), unhosted f)
  id_of_host (hosts is_echo host) = (ok host.descriptor.agent_id, hosts is_echo host)

-- `{"workspace_path": os.path.abspath(workspace_path), "conversation_id": conversation_id}`
abbrev pub context_for : String → Option String → AgentContext
context_for workspace conversation_id = record {
  workspace_path = none;
  configuration =
      field "workspace_path" (text workspace)
        (field "conversation_id" (optional_text conversation_id) end);
  metadata = end;
  workspace_handle = null;
  tool_registry = null;
  llm_adapter = null;
  persistent_memory_handle = null;
  extra = end;
}

pub data StateResponse : Type 0 where
  offline : StateResponse
  online : AgentView → String → Option String → StateResponse

module _ {X : Type 0} (platform : Platform X) where
  abbrev pub log_dump : Result Value → Exec (ServedAgent X) ⊤
  log_dump (raised e) a = (raised e, a)
  log_dump (ok dump) a =
      let f = a.world in
      let g = record f.world { event_log = f.world.event_log ++ dump ∷ [] } in
      (ok tt, set_fields (record f { world = g }) a)

  -- `log_event` of `initialize_agent`
  unfoldable pub log_event : MessageEnvelope → Exec (ServedAgent X) ⊤
  log_event event = log_dump (platform.model_dump event)

  -- The environment of the host: its callback is `log_event`.
  abbrev pub server_environment : Environment ⊤ (ServerFields X)
  server_environment = record {
    uuid4 = platform.uuid4;
    utc_now = platform.utc_now;
    call = λ _. log_event;
    others = platform.others;
  }

  -- `EchoAgent` or `SDKURPAgent`
  abbrev pub class_of : Bool → Program ⊤ (HostFields ⊤ (ServerFields X))
  class_of true = echo_agent platform.str (host_runtime server_environment)
  class_of false = platform.sdk_class

  -- `if host: await host.shutdown()`
  unfoldable pub shutdown_server : ℕ → Server X → Option (Result ⊤ × Server X)
  shutdown_server n (unhosted f) = some (ok tt, unhosted f)
  shutdown_server n (hosts is_echo host) =
      Option.map (around_server is_echo) (shutdown_host (class_of is_echo) n host)

  abbrev pub launch : AgentContext → Server X → Result ⊤ × Server X
  launch context (unhosted f) = (raised (other_error "AttributeError"), unhosted f)
  launch context (hosts is_echo host) =
      around_server is_echo
        (initialize_and_start (class_of is_echo) context (set_emit_callback tt host))

  -- `initialize_agent`, once the host that there was is shut down.
  unfoldable pub after_shutdown :
      String → String → Option String → Option (Result ⊤ × Server X) → Option (Result ⊤ × Server X)
  after_shutdown agent_type workspace_path conversation_id none = none
  after_shutdown agent_type workspace_path conversation_id (some (raised e, server)) =
      some (raised e, server)
  after_shutdown agent_type workspace_path conversation_id (some (ok _, server)) = some (
      launch (context_for (platform.abspath workspace_path) conversation_id)
        (create_host agent_type server))

  unfoldable pub initialize_agent :
      ℕ → String → String → Option String → Server X → Option (Result ⊤ × Server X)
  unfolding after_shutdown shutdown_server
  initialize_agent n agent_type workspace_path conversation_id server =
      after_shutdown agent_type workspace_path conversation_id (shutdown_server n server)

  -- The endpoint `/agent/init`
  unfoldable pub init_agent :
      ℕ → String → String → Option String → Server X → Option (Result String × Server X)
  unfolding initialize_agent
  init_agent n agent_type workspace_path conversation_id server =
      Option.map (λ q. continue q (λ _. id_of_host))
        (initialize_agent n agent_type workspace_path conversation_id server)

  -- `startup_event`
  unfoldable pub startup_event : ℕ → Server X → Option (Result ⊤ × Server X)
  unfolding initialize_agent
  startup_event n server = initialize_agent n "echo" "./agent_workspace" none server

  -- The endpoint `/agent/message`, on which a server with no host fails.
  unfoldable pub post_message : String → Payload → Exec (Server X) String
  post_message type payload (unhosted f) = (raised (other_error "AttributeError"), unhosted f)
  post_message type payload (hosts is_echo host) =
      around_server is_echo (send_message (class_of is_echo) type payload "host" host)

  -- `get_conversation_id` of the agent, which `EchoAgent` has not.
  abbrev pub conversation_of : Bool → ServedAgent X → Option String
  conversation_of true a = none
  conversation_of false a = some (platform.sdk_conversation_id a)

  abbrev pub state_of : Bool → Option (ServedAgent X) → StateResponse
  state_of is_echo none = offline
  state_of is_echo (some a) =
      online (view a) (status_value (view a).status) (conversation_of is_echo a)

  -- The endpoint `/agent/state`
  unfoldable pub get_state : Server X → StateResponse
  get_state (unhosted f) = offline
  get_state (hosts is_echo host) = state_of is_echo (held_agent host.held)

  abbrev pub id_of_held : Bool → Option (ServedAgent X) → Option String
  id_of_held is_echo none = none
  id_of_held is_echo (some a) = conversation_of is_echo a

  -- What `save_conversation` asks of the host.
  unfoldable pub active_conversation : Server X → Option String
  active_conversation (unhosted f) = none
  active_conversation (hosts is_echo host) = id_of_held is_echo (held_agent host.held)
