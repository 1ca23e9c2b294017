-- ===== src/Sample/Sending.antt =====
-- `EchoAgent` and a log of what is sent to it: its hooks send nothing to it themselves.
use unified_runtime_primitiv.Base.{String, List}
use unified_runtime_primitiv.Data.{Payload, MessageEnvelope}
use unified_runtime_primitiv.Exec.Keeps.{Keeps-pure, Keeps-bind}
use unified_runtime_primitiv.Agent.{
  Runtime, default_check_start_preconditions, default_check_preconditions,
  default_check_postconditions, default_on_shutdown,
}
use unified_runtime_primitiv.Agent.Emitting.{announce-Keeps}
use unified_runtime_primitiv.Agent.Queues.{Queues-order, BusLogs, Logs, bus-IsKept}
use unified_runtime_primitiv.Sample.{echo_process, echo_result, echo_agent}

module _ (str : Payload → String) {C W : Type 0} (log : W → List MessageEnvelope)
    (rt : Runtime C W) where
  pub echo_agent-Logs : BusLogs log rt → Logs log (echo_agent str rt)
  unfolding echo_process default_check_start_preconditions default_check_preconditions
      default_check_postconditions default_on_shutdown
  echo_agent-Logs logs = record {
    bus = logs;
    on_initialize = λ context. Keeps-pure (Queues-order log) tt;
    check_start_preconditions = Keeps-pure (Queues-order log) _;
    check_preconditions = λ m. Keeps-pure (Queues-order log) _;
    process = λ m. Keeps-bind (Queues-order log) _ _ logs.others λ _.
        Keeps-bind (Queues-order log) _ _
          (announce-Keeps rt (bus-IsKept log rt logs) "ECHO_RECEIVED" _)
          λ _. Keeps-pure (Queues-order log) (echo_result str m.payload);
    check_postconditions = λ m r. Keeps-pure (Queues-order log) _;
    on_shutdown = Keeps-pure (Queues-order log) tt;
  }
