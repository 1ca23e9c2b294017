-- ===== src/Scenarios/Served.antt =====
-- The theorem about the server with an echo agent, where two messages wait.
use unified_runtime_primitiv.Base.{ℕ, ◌≡◌, refl, suc, true, some, [], ◌∷◌, ◌++◌, map, length}
use unified_runtime_primitiv.Data.{text}
use unified_runtime_primitiv.Exec.{ok, ⊤}
use unified_runtime_primitiv.Exec.Keeps.{Keeps-pure}
use unified_runtime_primitiv.Agent.{
  Program, initializes, starts, sends, wakes, run, step, perform, new, initialize, start, send,
  wake, start_checked, loop_test, announce, make_event, emit, default_check_start_preconditions,
}
use unified_runtime_primitiv.Agent.Frame.{Leaves-order}
use unified_runtime_primitiv.Agent.Stepping.{run-new-IsCoherent}
use unified_runtime_primitiv.Agent.Taking.{run_task}
use unified_runtime_primitiv.Agent.Opening.{Opens-order}
use unified_runtime_primitiv.Agent.Draining.{IsLive}
use unified_runtime_primitiv.Host.{HostFields, holds, internal_emit_handler, call_external}
use unified_runtime_primitiv.Host.Writing.{note_of, notes_of}
use unified_runtime_primitiv.Mailbox.{empty}
use unified_runtime_primitiv.Sample.Hosted.{echoes_of}
use unified_runtime_primitiv.Web.{
  ServerFields, ServedHost, ServedAgent, hosts, class_of, echo_descriptor, log_event, waiting,
  websocket_endpoint,
}
use unified_runtime_primitiv.Web.Serving.{class_of-Respects}
use unified_runtime_primitiv.Web.Delivery.{leaving, unread}
use unified_runtime_primitiv.Web.Echoing.{IsQuietPlatform, websocket_endpoint-echoes}
use unified_runtime_primitiv.Scenarios.Bus.{context, hello}
use unified_runtime_primitiv.Scenarios.Servers.{platform, sdk-Respects}

pub platform-IsQuietPlatform : IsQuietPlatform platform
platform-IsQuietPlatform = record {
  dump = λ e. text e.type;
  dumps = λ e. refl;
  others = λ a. record { returns = refl; same_events = refl; same_callback = refl };
  others_leave = Keeps-pure Leaves-order tt;
  others_open = Keeps-pure Opens-order tt;
}

abbrev echo : Program ⊤ (HostFields ⊤ (ServerFields ℕ))
echo = class_of platform true

abbrev nothing_yet : HostFields ⊤ (ServerFields ℕ)
nothing_yet = record {
  event_queue = empty;
  emit_callback = some tt;
  world = record { event_log = []; rest = 0 };
}

abbrev pub loaded : ServedAgent ℕ
loaded =
    run echo (initializes context tt ∷ sends hello ∷ starts ∷ sends hello ∷ wakes ∷ [])
      (new echo echo_descriptor nothing_yet)

pub loaded-IsLive : IsLive loaded
loaded-IsLive = record {
  coherent =
      (run-new-IsCoherent echo
        (class_of-Respects platform (Keeps-pure Leaves-order tt) sdk-Respects true) _
        echo_descriptor nothing_yet).0;
  waits =
      unfold run step perform new initialize start start_checked send wake loop_test announce
        make_event emit default_check_start_preconditions internal_emit_handler call_external
        log_event in
      refl;
  open_yet =
      unfold run step perform new initialize start start_checked send wake loop_test announce
        make_event emit default_check_start_preconditions internal_emit_handler call_external
        log_event in
      refl;
}

pub loaded-bound : loaded.emit_callback ≡ some tt
unfolding run step perform new initialize start start_checked send wake loop_test announce
    make_event emit default_check_start_preconditions internal_emit_handler call_external log_event
loaded-bound = refl

abbrev host : ServedHost ℕ
host = record {
  descriptor = echo_descriptor;
  held = holds (run_task echo (length loaded.mailbox.items) loaded);
}

websocket_endpoint-echoes_example :
    (map note_of (unread host) ≡ notes_of loaded ++ echoes_of platform.str loaded.mailbox.items)
    × (websocket_endpoint platform
          (λ sent v. ok tt)
          (suc (length (unread host)))
          []
          (hosts true host)
        ≡ (
          waiting,
          [] ++ map platform-IsQuietPlatform.dump (unread host),
          hosts true (leaving [] host),
        ))
websocket_endpoint-echoes_example =
    websocket_endpoint-echoes platform platform-IsQuietPlatform (λ sent v. ok tt) (λ sent v. refl)
      loaded host [] loaded-IsLive loaded-bound refl
