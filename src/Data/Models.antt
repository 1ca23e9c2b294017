-- ===== src/Data/Models.antt =====
-- The other pydantic models of urp/data_types.py.
use unified_runtime_primitiv.Base.{ℕ, String, Option, List}
use unified_runtime_primitiv.Data.Enums.{AgentStatus}
use unified_runtime_primitiv.Data.Values.{Value, text, array, dict, Fields, end, field, texts}
use unified_runtime_primitiv.Data.Results.{ProcessResult}

pub record AgentDescriptor : Type 0 where
  pub agent_id : String
  pub name : String
  pub version : String
  pub description : String
  pub capabilities : List String
  pub accepted_message_types : List String
  pub metadata : Fields

unfoldable pub to_agent_card : AgentDescriptor → Fields
to_agent_card d = field "name" (text d.name) (
    field "description" (text d.description) (
      field "version" (text d.version) (
        field "capabilities" (array (texts d.capabilities)) (
          field "accepted_message_types" (array (texts d.accepted_message_types))
            (field "metadata" (dict d.metadata) end)))))

-- A payload is any value; the runtime's own events carry a `ProcessResult`.
pub data Payload : Type 0 where
  value : Value → Payload
  process_result : ProcessResult → Payload

pub record MessageEnvelope : Type 0 where
  pub type : String
  pub payload : Payload
  pub sender : String
  pub receiver : String
  pub context_id : Option String
  pub task_id : Option String
  pub message_id : String
  pub correlation_id : Option String
  pub metadata : Fields
  pub timestamp : ℕ

pub record AgentState : Type 0 where
  pub session_id : String
  pub status : AgentStatus
  pub last_process_result : Option ProcessResult
  pub internal_memory : Fields

-- The fields of the class, and in `extra` those that `extra="allow"` lets in.
pub record AgentContext : Type 0 where
  pub workspace_path : Option String
  pub configuration : Fields
  pub metadata : Fields
  pub workspace_handle : Value
  pub tool_registry : Value
  pub llm_adapter : Value
  pub persistent_memory_handle : Value
  pub extra : Fields
