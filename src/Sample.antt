-- ===== src/Sample.antt =====
-- urp/sample_agent.py: `EchoAgent`.
pub mod Echo
pub mod Sending
pub mod Progress
pub mod Quiet
pub mod Hosted
use unified_runtime_primitiv.Base.{String, Option, none, some, join}
use unified_runtime_primitiv.Data.{
  Value, text, dict, Fields, end, field, find_field, Payload, value, process_result,
  MessageEnvelope, ProcessResult, task_completed, FailureCategory, make_result,
}
use unified_runtime_primitiv.Exec.{Exec, ⊤, pure, ◌>>=◌, ◌>>◌}
use unified_runtime_primitiv.Agent.{
  Agent, Runtime, Program, announce, default_check_start_preconditions, default_check_preconditions,
  default_check_postconditions, default_on_shutdown,
}

-- `str` is the built-in conversion to text, of any object.
module _ (str : Payload → String) where
  -- `payload["text"]` of a dict that has it, else `str(payload)`
  abbrev pub text_or : Option Value → Payload → Value
  text_or none payload = text (str payload)
  text_or (some v) payload = v

  unfoldable pub extract_text : Payload → Value
  extract_text (value (dict fields)) = text_or (find_field "text" fields) (value (dict fields))
  extract_text payload = text (str payload)

  -- `f"{v}"`: a text as it is, anything else converted.
  unfoldable pub shown : Value → String
  shown (text s) = s
  shown v = str (value v)

  unfoldable pub echo_result : Payload → ProcessResult
  unfolding make_result
  echo_result payload =
      make_result task_completed FailureCategory.none
        (some (join "Echo: " (shown (extract_text payload)))) none

  module _ {C W : Type 0} (rt : Runtime C W) where
    -- `EchoAgent.process`; the other tasks run during its sleep.
    unfoldable pub echo_process : MessageEnvelope → Exec (Agent C W) ProcessResult
    echo_process message = do
      rt.others
      announce rt "ECHO_RECEIVED"
          (value (dict (field "original_text" (extract_text message.payload) end)))
      pure (echo_result message.payload)

    abbrev pub echo_agent : Program C W
    echo_agent = record {
      runtime = rt;
      on_initialize = λ context. pure tt;
      check_start_preconditions = default_check_start_preconditions;
      check_preconditions = default_check_preconditions;
      process = echo_process;
      check_postconditions = default_check_postconditions;
      on_shutdown = default_on_shutdown;
    }
