-- ===== src/Data/Enums.antt =====
-- The enumerations of urp/data_types.py and their `.value` texts.
use Prim.Native.String.{String}

pub data AgentStatus : Type 0 where
  uninitialized initialized waiting processing error terminated : AgentStatus

pub data LastTaskOutcome : Type 0 where
  none waiting_for_user_input task_failed task_completed : LastTaskOutcome

pub data FailureCategory : Type 0 where
  none agentic_failure postcondition_failure precondition_failure : FailureCategory
  validation_failure infrastructure_failure : FailureCategory

abbrev pub status_value : AgentStatus → String
status_value uninitialized = "UNINITIALIZED"
status_value initialized = "INITIALIZED"
status_value waiting = "WAITING"
status_value processing = "PROCESSING"
status_value error = "ERROR"
status_value terminated = "TERMINATED"

abbrev pub outcome_value : LastTaskOutcome → String
outcome_value LastTaskOutcome.none = "NONE"
outcome_value waiting_for_user_input = "WAITING_FOR_USER_INPUT"
outcome_value task_failed = "TASK_FAILED"
outcome_value task_completed = "TASK_COMPLETED"
