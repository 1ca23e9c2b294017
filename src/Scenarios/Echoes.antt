-- ===== src/Scenarios/Echoes.antt =====
-- The theorem about `EchoAgent` in a host, where two messages wait.
use unified_runtime_primitiv.Base.{ℕ, ◌≡◌, refl, some, [], ◌∷◌, ◌++◌, map, length, suc}
use unified_runtime_primitiv.Exec.{⊤, pure}
use unified_runtime_primitiv.Exec.Keeps.{Keeps-pure}
use unified_runtime_primitiv.Agent.{
  Program, initializes, starts, sends, wakes, run, step, perform, new, initialize, start, send,
  wake, start_checked, loop_test, announce, make_event, emit, default_check_start_preconditions,
}
use unified_runtime_primitiv.Agent.Frame.{Leaves-order}
use unified_runtime_primitiv.Agent.Stepping.{run-new-IsCoherent}
use unified_runtime_primitiv.Agent.Taking.{run_task}
use unified_runtime_primitiv.Agent.Opening.{Opens-order}
use unified_runtime_primitiv.Agent.Draining.{IsLive}
use unified_runtime_primitiv.Host.{
  HostFields, HostedAgent, Host, holds, fields_of, Environment, new_host, host_runtime,
  internal_emit_handler, call_external,
}
use unified_runtime_primitiv.Host.Queue.{events_of, Drained, drain, host_runtime-Respects}
use unified_runtime_primitiv.Host.Writing.{note_of, notes_of}
use unified_runtime_primitiv.Sample.{echo_agent}
use unified_runtime_primitiv.Sample.Echo.{echo_agent-Respects}
use unified_runtime_primitiv.Sample.Quiet.{IsQuietEnvironment}
use unified_runtime_primitiv.Sample.Hosted.{echoes_of, echo-drain}
use unified_runtime_primitiv.Scenarios.Bus.{descriptor, context, hello, no_str}

abbrev clock : Environment ⊤ ℕ
clock = record {
  uuid4 = λ v. ("id", v);
  utc_now = λ v. (v, suc v);
  call = λ c e. pure tt;
  others = pure tt;
}

clock-IsQuietEnvironment : IsQuietEnvironment clock
clock-IsQuietEnvironment = record {
  calls = λ c e a. record { returns = refl; same_events = refl; same_callback = refl };
  others = λ a. record { returns = refl; same_events = refl; same_callback = refl };
  call_leaves = λ c e. Keeps-pure Leaves-order tt;
  others_leave = Keeps-pure Leaves-order tt;
  call_opens = λ c e. Keeps-pure Opens-order tt;
  others_open = Keeps-pure Opens-order tt;
}

abbrev hosted : Program ⊤ (HostFields ⊤ ℕ)
hosted = echo_agent no_str (host_runtime clock)

abbrev nothing_yet : HostFields ⊤ ℕ
nothing_yet = fields_of (new_host {E = ⊤} descriptor 0).held

-- Two messages wait, and the loop has come to its first wait.
abbrev loaded : HostedAgent ⊤ ℕ
loaded =
    run hosted (initializes context tt ∷ sends hello ∷ starts ∷ sends hello ∷ wakes ∷ [])
      (new hosted descriptor nothing_yet)

loaded-IsLive : IsLive loaded
loaded-IsLive = record {
  coherent =
      (run-new-IsCoherent hosted
        (echo_agent-Respects no_str (host_runtime clock) (
          host_runtime-Respects clock (λ c e. Keeps-pure Leaves-order tt)
            (Keeps-pure Leaves-order tt)))
        _ descriptor nothing_yet).0;
  waits =
      unfold run step perform new initialize start start_checked send wake loop_test announce
        make_event emit default_check_start_preconditions internal_emit_handler call_external in
      refl;
  open_yet =
      unfold run step perform new initialize start start_checked send wake loop_test announce
        make_event emit default_check_start_preconditions internal_emit_handler call_external in
      refl;
}

loaded-bound : loaded.emit_callback ≡ some tt
unfolding run step perform new initialize start start_checked send wake loop_test announce
    make_event emit default_check_start_preconditions internal_emit_handler call_external
loaded-bound = refl

abbrev answered : HostedAgent ⊤ ℕ
answered = run_task hosted (length loaded.mailbox.items) loaded

abbrev host : Host ⊤ ℕ
host = record { descriptor = descriptor; held = holds answered }

echo-drain_example :
    IsLive answered
    × (map note_of (drain (length (events_of answered)) host).0
        ≡ notes_of loaded ++ echoes_of no_str loaded.mailbox.items)
    × Drained (events_of answered) (drain (length (events_of answered)) host)
echo-drain_example =
    echo-drain no_str clock clock-IsQuietEnvironment loaded host loaded-IsLive loaded-bound refl
