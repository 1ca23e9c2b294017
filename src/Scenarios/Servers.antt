-- ===== src/Scenarios/Servers.antt =====
-- The theorems about the web server, where both agent classes are echo agents. The time counts up,
-- all ids are the same, and an event's dump is its type.
use unified_runtime_primitiv.Base.{
  ℕ, suc, ◌≡◌, refl, true, Option, none, some, List, [], ◌∷◌, map, length, ◌==◌,
}
use unified_runtime_primitiv.Data.{MessageEnvelope, Value, text}
use unified_runtime_primitiv.Exec.{other_error, ok, raised, ⊤, pure, Result}
use unified_runtime_primitiv.Exec.Keeps.{Keeps-pure}
use unified_runtime_primitiv.Agent.{
  new, initialize, start, send, wake, shutdown, handle_message, start_checked, loop_test, settle,
  survive, iteration, receive_and_handle, take_message, attempt, recover, after_pre, after_process,
  after_post, reply, announce, make_event, emit, begin_shutdown, end_shutdown, await_task,
  default_check_start_preconditions, default_check_preconditions, default_check_postconditions,
  default_on_shutdown,
}
use unified_runtime_primitiv.Agent.Frame.{Leaves-order, Respects}
use unified_runtime_primitiv.Sample.{echo_agent, echo_process, echo_result}
use unified_runtime_primitiv.Sample.Echo.{echo_agent-Respects}
use unified_runtime_primitiv.Host.{
  Environment, idle, holds, fields_of, host_runtime, initialize_and_start, send_message,
  get_next_event, next_from, shutdown_host, internal_emit_handler, call_external, set_emit_callback,
}
use unified_runtime_primitiv.Host.Sessions.{host_step}
use unified_runtime_primitiv.Host.Queue.{host_runtime-Respects, emit_all}
use unified_runtime_primitiv.Web.{
  ServerFields, ServedAgent, ServedHost, Server, unhosted, hosts, Platform, descriptor_for,
  create_host, log_event, shutdown_server, after_shutdown, initialize_agent, init_agent,
  post_message, world_of, next_dump, closing, websocket_endpoint, waiting, disconnected,
  server_environment,
}
use unified_runtime_primitiv.Web.Serving.{ServedIsCoherent, Initialized}
use unified_runtime_primitiv.Web.Requests.{
  ServerCall, posts_init, posts_message, pushes_event, runs_agent, server_run, server_step,
  server_run-Initialized,
}
use unified_runtime_primitiv.Web.Answers.{ShowsWaiting, init_agent-get_state}
use unified_runtime_primitiv.Web.Delivery.{Delivery, leaving, unread, websocket_endpoint-Delivery}
use unified_runtime_primitiv.Web.Logging.{websocket_endpoint-log}
use unified_runtime_primitiv.Scenarios.Bus.{hello, no_str}

-- In place of `SDKURPAgent`, an agent class without a log.
abbrev quiet : Environment ⊤ (ServerFields ℕ)
quiet = record {
  uuid4 = λ f. ("id", f);
  utc_now = λ f. (f.rest, record f { rest = suc f.rest });
  call = λ c e. pure tt;
  others = pure tt;
}

abbrev pub platform : Platform ℕ
platform = record {
  uuid4 = quiet.uuid4;
  utc_now = quiet.utc_now;
  others = pure tt;
  str = no_str;
  abspath = λ path. path;
  model_dump = λ event. ok (text event.type);
  sdk_class = echo_agent no_str (host_runtime quiet);
  sdk_conversation_id = λ a. "c1";
}

pub sdk-Respects : Respects platform.sdk_class
sdk-Respects =
    echo_agent-Respects no_str (host_runtime quiet)
      (host_runtime-Respects quiet (λ c e. Keeps-pure Leaves-order tt) (Keeps-pure Leaves-order tt))

abbrev pub fresh : Server ℕ
fresh = unhosted (record { event_log = []; rest = 0 })

-- Requests after a start of the server, whose second is another agent class.
abbrev session : List ServerCall
session =
    posts_init 0 "echo" "w" none
    ∷ posts_message "PING" hello.payload
    ∷ runs_agent
    ∷ runs_agent
    ∷ pushes_event
    ∷ []

-- A session on a new server. Its line names what a test computes with.
serve : List ServerCall → Server ℕ
unfolding server_run server_step host_step new initialize start start_checked send wake loop_test
    settle survive iteration receive_and_handle take_message handle_message attempt recover
    after_pre after_process after_post reply announce make_event emit begin_shutdown end_shutdown
    shutdown await_task echo_process echo_result default_check_start_preconditions
    default_check_preconditions default_check_postconditions default_on_shutdown
    initialize_and_start send_message get_next_event next_from shutdown_host internal_emit_handler
    call_external set_emit_callback init_agent initialize_agent after_shutdown shutdown_server
    create_host post_message next_dump log_event
serve calls = server_run platform calls fresh

-- The log holds what happened; the socket has taken the first event.
logged :
    (world_of (serve session)).event_log
    ≡ text "AGENT_STARTED" ∷ text "ECHO_RECEIVED" ∷ text "TASK_COMPLETED" ∷ []
unfolding serve
logged = refl

abbrev host_of : Server ℕ → Option (ServedHost ℕ)
host_of (unhosted f) = none
host_of (hosts is_echo host) = some host

server_run-Initialized_example :
    let server = server_run platform session fresh in
    ServedIsCoherent server
    × Initialized platform 0 server ("sdk" == "echo") (init_agent platform 1 "sdk" "w" none server)
server_run-Initialized_example =
    server_run-Initialized platform (Keeps-pure Leaves-order tt) sdk-Respects session
      (record { event_log = []; rest = 0 }) 0 "sdk" "w" none

abbrev busy_host : ServedHost ℕ
busy_host = record {
  descriptor = descriptor_for true;
  held = idle (record {
    event_queue = record { items = hello ∷ hello ∷ []; unfinished_tasks = 2 };
    emit_callback = none;
    world = record { event_log = []; rest = 0 };
  });
}

-- A client that goes after one dump.
abbrev leaves_after_one : List Value → Value → Result ⊤
leaves_after_one [] dump = ok tt
leaves_after_one (v ∷ vs) dump = raised (other_error "WebSocketDisconnect")

gone : (websocket_endpoint platform leaves_after_one 3 [] (hosts true busy_host)).0 ≡ disconnected
unfolding websocket_endpoint next_dump get_next_event next_from closing
gone = refl

websocket_endpoint-Delivery_example :
    Delivery platform leaves_after_one true busy_host (unread busy_host) [] (
      websocket_endpoint platform leaves_after_one
        (suc (length (unread busy_host)))
        []
        (hosts true busy_host))
websocket_endpoint-Delivery_example =
    websocket_endpoint-Delivery platform leaves_after_one true busy_host []

init_agent-get_state_example :
    let after = serve (posts_init 0 "echo" "w" none ∷ []) in
    ("vhl.echo.v1" ≡ (descriptor_for ("echo" == "echo")).agent_id) × ShowsWaiting platform after
unfolding serve
init_agent-get_state_example =
    init_agent-get_state platform (Keeps-pure Leaves-order tt) sdk-Respects 0 "echo" "w" none
      "vhl.echo.v1" fresh (serve (posts_init 0 "echo" "w" none ∷ [])) tt refl

abbrev bound : ServedAgent ℕ
bound = record (new platform.sdk_class (descriptor_for true) (fields_of busy_host.held)) {
  emit_callback = some tt;
  world = record {
    event_queue = record { items = hello ∷ []; unfinished_tasks = 1 };
    emit_callback = some tt;
    world = record { event_log = text "earlier" ∷ []; rest = 0 };
  };
}

abbrev emitted : Result ⊤ × ServedAgent ℕ
emitted = emit_all (server_environment platform) (hello ∷ hello ∷ []) bound

abbrev emitting_host : ServedHost ℕ
emitting_host = record { descriptor = descriptor_for true; held = holds emitted.1 }

websocket_endpoint-log_example :
    (emitted.0 ≡ ok tt)
    × ((world_of (hosts true emitting_host)).event_log
        ≡ text "earlier" ∷ map (λ (e : MessageEnvelope). text e.type) (hello ∷ hello ∷ []))
    × (websocket_endpoint platform
          (λ sent v. ok tt)
          (suc (length (unread emitting_host)))
          []
          (hosts true emitting_host)
        ≡ (
          waiting,
          map (λ (e : MessageEnvelope). text e.type) (hello ∷ hello ∷ hello ∷ []),
          hosts true (leaving [] emitting_host),
        ))
websocket_endpoint-log_example =
    websocket_endpoint-log platform (λ sent v. ok tt) (λ sent v. refl) true emitting_host bound
      (hello ∷ hello ∷ []) (text hello.type ∷ []) (text hello.type ∷ text hello.type ∷ []) [] refl
      refl refl refl refl
