-- ===== src/Scenarios/Hosts.antt =====
-- The theorems about hosts at a host of an echo agent. The time counts up, and all ids are the same.
use unified_runtime_primitiv.Base.{ℕ, suc, ◌≡◌, refl, none, some, List, [], ◌∷◌, ◌++◌, map, length}
use unified_runtime_primitiv.Data.{MessageEnvelope}
use unified_runtime_primitiv.Exec.{ok, ⊤, pure}
use unified_runtime_primitiv.Exec.Keeps.{Keeps-pure}
use unified_runtime_primitiv.Agent.{
  Program, new, initialize, start, send, wake, shutdown, handle_message, start_checked, loop_test,
  settle, survive, iteration, receive_and_handle, take_message, attempt, recover, after_pre,
  after_process, after_post, reply, announce, make_event, emit, begin_shutdown, end_shutdown,
  await_task, default_check_start_preconditions, default_check_preconditions,
  default_check_postconditions, default_on_shutdown,
}
use unified_runtime_primitiv.Agent.Frame.{Leaves-order, Respects}
use unified_runtime_primitiv.Sample.{echo_agent, echo_process, echo_result}
use unified_runtime_primitiv.Sample.Echo.{echo_agent-Respects}
use unified_runtime_primitiv.Host.{
  HostFields, HostedAgent, Host, holds, fields_of, Environment, new_host, host_runtime,
  initialize_and_start, send_message, get_next_event, next_from, shutdown_host,
  internal_emit_handler, call_external, set_emit_callback,
}
use unified_runtime_primitiv.Host.Starting.{Launched, initialize_and_start-Launched}
use unified_runtime_primitiv.Host.Sessions.{
  HostCall, initializes_and_starts, sends_message, takes_event, shuts_host_down, runs_task,
  HeldIsCoherent, Closed, host_step, host_run, host_run-Closed,
}
use unified_runtime_primitiv.Host.Queue.{
  host_runtime-Respects, events_of, Drained, drain, emit_all, emit_all-drain,
}
use unified_runtime_primitiv.Scenarios.Bus.{descriptor, context, hello, no_str}

abbrev clock : Environment ⊤ ℕ
clock = record {
  uuid4 = λ v. ("id", v);
  utc_now = λ v. (v, suc v);
  call = λ c e. pure tt;
  others = pure tt;
}

abbrev hosted_echo : Program ⊤ (HostFields ⊤ ℕ)
hosted_echo = echo_agent no_str (host_runtime clock)

hosted_echo-Respects : Respects hosted_echo
hosted_echo-Respects =
    echo_agent-Respects no_str (host_runtime clock)
      (host_runtime-Respects clock (λ c e. Keeps-pure Leaves-order tt) (Keeps-pure Leaves-order tt))

abbrev session : List (HostCall ⊤)
session =
    initializes_and_starts context
    ∷ sends_message "PING" hello.payload "host"
    ∷ runs_task
    ∷ runs_task
    ∷ []

-- A session on a new host. Its line names what a test computes with.
visit : List (HostCall ⊤) → Host ⊤ ℕ
unfolding host_run host_step new initialize start start_checked send wake loop_test settle survive
    iteration receive_and_handle take_message handle_message attempt recover after_pre after_process
    after_post reply announce make_event emit begin_shutdown end_shutdown shutdown await_task
    echo_process echo_result default_check_start_preconditions default_check_preconditions
    default_check_postconditions default_on_shutdown initialize_and_start send_message
    get_next_event next_from shutdown_host internal_emit_handler call_external set_emit_callback
visit calls = host_run hosted_echo calls (new_host descriptor 0)

-- A client gets the events of a message in their order, and after the shutdown the last one too.
visit-events :
    map (λ (e : MessageEnvelope). e.type) (drain 9 (visit session)).0
    ≡ "AGENT_STARTED" ∷ "ECHO_RECEIVED" ∷ "TASK_COMPLETED" ∷ []
unfolding visit drain
visit-events = refl

visit-shutdown-events :
    map
      (λ (e : MessageEnvelope). e.type)
      (drain 9 (visit (session ++ takes_event none ∷ shuts_host_down 0 ∷ []))).0
    ≡ "ECHO_RECEIVED" ∷ "TASK_COMPLETED" ∷ "AGENT_TERMINATED" ∷ []
unfolding visit drain
visit-shutdown-events = refl

initialize_and_start-Launched_example :
    Launched (initialize_and_start hosted_echo context (new_host descriptor 0))
initialize_and_start-Launched_example =
    initialize_and_start-Launched hosted_echo hosted_echo-Respects context (new_host descriptor 0)

host_run-Closed_example :
    let host = host_run hosted_echo session (new_host descriptor 0) in
    HeldIsCoherent host.held × Closed hosted_echo 0 host (shutdown_host hosted_echo 1 host)
host_run-Closed_example = host_run-Closed hosted_echo hosted_echo-Respects session descriptor 0 0

abbrev bound_agent : HostedAgent ⊤ ℕ
bound_agent = record (new hosted_echo descriptor (fields_of (new_host {E = ⊤} descriptor 0).held)) {
  emit_callback = some tt;
}

abbrev delivering : Host ⊤ ℕ
delivering = record {
  descriptor = descriptor;
  held = holds (emit_all clock (hello ∷ hello ∷ []) bound_agent).1;
}

emit_all-drain_example :
    ((emit_all clock (hello ∷ hello ∷ []) bound_agent).0 ≡ ok tt)
    × Drained
        (events_of bound_agent ++ hello ∷ hello ∷ [])
        (drain (length (events_of bound_agent ++ hello ∷ hello ∷ [])) delivering)
emit_all-drain_example =
    emit_all-drain clock
      (λ c e a. record { returns = refl; same_events = refl; same_callback = refl })
      (hello ∷ hello ∷ []) bound_agent delivering refl refl
