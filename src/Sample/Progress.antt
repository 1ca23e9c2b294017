-- ===== src/Sample/Progress.antt =====
-- `EchoAgent` and the messages that wait.
use unified_runtime_primitiv.Base.{◌≡◌, refl, sym, subst, String, length, suc, ℕ}
use unified_runtime_primitiv.Data.{MessageEnvelope, Payload, dict, field, end, value}
use unified_runtime_primitiv.Exec.{Returns, Result, ok, ⊤}
use unified_runtime_primitiv.Exec.Keeps.{Keeps, Keeps-pure, Keeps-bind}
use unified_runtime_primitiv.Agent.{
  Agent, Runtime, make_event, handle_message, default_check_preconditions,
  default_check_postconditions,
}
use unified_runtime_primitiv.Agent.Emitting.{IsKeptByBus, announce-Keeps}
use unified_runtime_primitiv.Agent.Frame.{RuntimeRespects}
use unified_runtime_primitiv.Agent.Keeping.{IsKept}
use unified_runtime_primitiv.Agent.Opening.{Opens, Opens-order, Opens-modify, handle_message-Opens}
use unified_runtime_primitiv.Agent.Taking.{run_task}
use unified_runtime_primitiv.Agent.Draining.{Steady, IsLive, TakesEach, waiting_are_taken}
use unified_runtime_primitiv.Agent.Answers.{Answered}
use unified_runtime_primitiv.Sample.{extract_text, echo_result, echo_process, echo_agent}
use unified_runtime_primitiv.Sample.Echo.{echo_agent-Respects, echo_answers_result}

-- A bus whose callbacks return and, like the other tasks, ask for no shutdown.
pub record IsSteadyBus {C W : Type 0} (rt : Runtime C W) : Type 0 where
  pub delivers : (c : C) (e : MessageEnvelope) (a : Agent C W) → (rt.call c e a).0 ≡ ok tt
  pub resumes : (a : Agent C W) → (rt.others a).0 ≡ ok tt
  pub call_opens : (c : C) (e : MessageEnvelope) → Keeps Opens (rt.call c e)
  pub others_opens : Keeps Opens rt.others

module _ (str : Payload → String) {C W : Type 0} (rt : Runtime C W) where
  -- What `EchoAgent` does with a message in the state `c`.
  abbrev pub Echoes : MessageEnvelope → Agent C W → Type 0
  Echoes m c =
      Answered (echo_agent str rt) c m "TASK_COMPLETED" (echo_result str m.payload)
        (handle_message (echo_agent str rt) m c)

module _ (str : Payload → String) {C W : Type 0} (rt : Runtime C W) (respects : RuntimeRespects rt)
    (bus : IsSteadyBus rt) where
  bus-Opens : IsKeptByBus rt Opens
  unfolding make_event
  bus-Opens = record {
    order = Opens-order;
    make_event_keeps =
        λ type payload id correlation. record { at = λ a. record { opens = λ h. h } };
    call_keeps = bus.call_opens;
  }

  echo_process-Opens : (m : MessageEnvelope) → Keeps Opens (echo_process str rt m)
  unfolding echo_process
  echo_process-Opens m = Keeps-bind Opens-order _ _ bus.others_opens λ _.
      Keeps-bind Opens-order _ _
        (announce-Keeps rt bus-Opens "ECHO_RECEIVED"
          (value (dict (field "original_text" (extract_text str m.payload) end))))
        λ _. Keeps-pure Opens-order (echo_result str m.payload)

  echo_agent-Opens : IsKept (echo_agent str rt) Opens
  unfolding default_check_preconditions default_check_postconditions
  echo_agent-Opens = record {
    by_bus = bus-Opens;
    set_result_keeps = λ r. Opens-modify _ (λ a. refl);
    set_processing_keeps = Opens-modify _ (λ a. refl);
    check_preconditions_keeps = λ m. Keeps-pure Opens-order _;
    process_keeps = echo_process-Opens;
    check_postconditions_keeps = λ m r. Keeps-pure Opens-order _;
  }

  pub echoes :
      (m : MessageEnvelope) (c : Agent C W) (n : ℕ)
      → c.mailbox.unfinished_tasks ≡ suc n
      → Echoes str rt m c
  echoes = echo_answers_result str rt bus.delivers bus.resumes respects

  pub echo_agent-Steady : Steady (echo_agent str rt)
  echo_agent-Steady = record {
    others_return = bus.resumes;
    others_open = λ a. (bus.others_opens.at a).opens;
    handled = λ m a n e h. (
      subst (λ (q : Result ⊤ × Agent C W). Returns q.0) (sym (echoes m a n e).done) tt,
      ((handle_message-Opens (echo_agent str rt) echo_agent-Opens m).at a).opens h,
    );
  }

  -- If the bus respects the agent's fields, its callbacks return and nobody asks for a shutdown: an
  -- `EchoAgent` whose loop waits takes every message that waits in its mailbox, one in a run of the
  -- task and in their order, and answers each by TASK_COMPLETED with its echo; then it waits again.
  pub echo_answers_all :
      (a : Agent C W)
      → IsLive a
      → TakesEach (echo_agent str rt) (Echoes str rt) a.mailbox.items a
        × IsLive (run_task (echo_agent str rt) (length a.mailbox.items) a)
  echo_answers_all =
      waiting_are_taken (echo_agent str rt) (echo_agent-Respects str rt respects) echo_agent-Steady
        (Echoes str rt) echoes
