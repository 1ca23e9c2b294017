-- ===== src/Scenarios/Bus.antt =====
-- A runtime whose ids are all the same and whose callbacks log the events, and objects for it.
use unified_runtime_primitiv.Base.{ℕ, suc, refl, String, none, some, List, [], ◌∷◌, ◌++◌}
use unified_runtime_primitiv.Data.{
  AgentDescriptor, AgentContext, MessageEnvelope, Payload, value, text, null, dict, field, end,
}
use unified_runtime_primitiv.Exec.{ok, ⊤, pure}
use unified_runtime_primitiv.Exec.Keeps.{Keeps-pure}
use unified_runtime_primitiv.Agent.{Runtime, Program}
use unified_runtime_primitiv.Agent.Frame.{Leaves-order, Grows-of, RuntimeRespects, Respects}
use unified_runtime_primitiv.Sample.{echo_agent}
use unified_runtime_primitiv.Sample.Echo.{echo_agent-Respects}

pub record Bus : Type 0 where
  pub time : ℕ
  pub log : List MessageEnvelope

abbrev pub bus_runtime : Runtime ⊤ Bus
bus_runtime = record {
  uuid4 = λ w. ("id", w);
  utc_now = λ w. (w.time, record w { time = suc w.time });
  call = λ c e a. (ok tt, record a { world = record a.world { log = a.world.log ++ e ∷ [] } });
  others = pure tt;
}

pub bus_runtime-Respects : RuntimeRespects bus_runtime
bus_runtime-Respects = record {
  call = λ c e. record {
    at = λ a. record {
      grows = Grows-of a _ refl refl refl refl refl refl;
      same_status = refl;
      same_result = refl;
    };
  };
  others = Keeps-pure Leaves-order tt;
}

abbrev pub no_str : Payload → String
no_str payload = "an object"

abbrev pub echo : Program ⊤ Bus
echo = echo_agent no_str bus_runtime

pub echo-Respects : Respects echo
echo-Respects = echo_agent-Respects no_str bus_runtime bus_runtime-Respects

abbrev pub descriptor : AgentDescriptor
descriptor = record {
  agent_id = "vhl.echo.v1";
  name = "Echo Test Agent";
  version = "1.0";
  description = "";
  capabilities = "ECHO" ∷ [];
  accepted_message_types = "PING" ∷ "MESSAGE" ∷ [];
  metadata = end;
}

abbrev pub context : AgentContext
context = record {
  workspace_path = none;
  configuration = end;
  metadata = end;
  workspace_handle = null;
  tool_registry = null;
  llm_adapter = null;
  persistent_memory_handle = null;
  extra = end;
}

abbrev pub hello : MessageEnvelope
hello = record {
  type = "MESSAGE";
  payload = value (dict (field "text" (text "hello") end));
  sender = "host";
  receiver = "vhl.echo.v1";
  context_id = none;
  task_id = none;
  message_id = "m1";
  correlation_id = some "c1";
  metadata = end;
  timestamp = 0;
}

abbrev pub silence : Bus
silence = record { time = 0; log = [] }
