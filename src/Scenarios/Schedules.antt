-- ===== src/Scenarios/Schedules.antt =====
-- The theorems about whole schedules, at echo agents: on the bus with a post, and on the logging bus.
use unified_runtime_primitiv.Base.{◌+◌, ◌≡◌, ◌≤◌, refl, List, [], ◌∷◌, ◌++◌, length}
use unified_runtime_primitiv.Exec.{⊤}
use unified_runtime_primitiv.Exec.Keeps.{Keeps-pure}
use unified_runtime_primitiv.Agent.{
  Agent, Operation, initializes, starts, sends, wakes, shuts_down, run, step, perform, new,
  initialize, start, send, wake, start_checked, loop_test, announce, make_event, emit,
  default_check_start_preconditions,
}
use unified_runtime_primitiv.Agent.Stepping.{run-new-IsCoherent}
use unified_runtime_primitiv.Agent.Taking.{run_task}
use unified_runtime_primitiv.Agent.Order.{all_come, all_taken, run-new-order}
use unified_runtime_primitiv.Agent.Bounds.{runs_in, taken_bound}
use unified_runtime_primitiv.Agent.Opening.{Opens-order}
use unified_runtime_primitiv.Agent.Draining.{IsLive, TakesEach, waiting_are_taken}
use unified_runtime_primitiv.Sample.Progress.{
  IsSteadyBus, echo_agent-Steady, Echoes, echoes, echo_answers_all,
}
use unified_runtime_primitiv.Scenarios.Mail.{
  sent, mailed_echo, mailed_echo-Respects, mailed_echo-Logs,
}
use unified_runtime_primitiv.Scenarios.Bus.{
  Bus, echo, echo-Respects, bus_runtime, bus_runtime-Respects, descriptor, context, hello, silence,
  no_str,
}

abbrev schedule : List (Operation ⊤)
schedule =
    initializes context tt ∷ sends hello ∷ starts ∷ sends hello ∷ wakes ∷ wakes ∷ shuts_down 3 ∷ []

abbrev fresh : Agent ⊤ Bus
fresh = new echo descriptor silence

abbrev mailed_fresh : Agent ⊤ Bus
mailed_fresh = new mailed_echo descriptor silence

run-new-order_example :
    all_come sent mailed_echo schedule mailed_fresh
    ≡ all_taken mailed_echo schedule mailed_fresh
      ++ (run mailed_echo schedule mailed_fresh).mailbox.items
run-new-order_example =
    run-new-order sent mailed_echo mailed_echo-Respects mailed_echo-Logs schedule descriptor silence

taken_bound_example :
    length (all_come sent mailed_echo schedule mailed_fresh)
    ≤ runs_in schedule + length (run mailed_echo schedule mailed_fresh).mailbox.items
taken_bound_example =
    taken_bound sent mailed_echo mailed_echo-Respects mailed_echo-Logs schedule descriptor silence

bus-IsSteadyBus : IsSteadyBus bus_runtime
bus-IsSteadyBus = record {
  delivers = λ c e a. refl;
  resumes = λ a. refl;
  call_opens = λ c e. record { at = λ a. record { opens = λ h. h } };
  others_opens = Keeps-pure Opens-order tt;
}

-- Two messages wait, and the loop has come to its first wait.
abbrev loaded : Agent ⊤ Bus
loaded = run echo (initializes context tt ∷ sends hello ∷ starts ∷ sends hello ∷ wakes ∷ []) fresh

loaded-IsLive : IsLive loaded
loaded-IsLive = record {
  coherent = (run-new-IsCoherent echo echo-Respects _ descriptor silence).0;
  waits =
      unfold run step perform new initialize start start_checked send wake loop_test announce
        make_event emit default_check_start_preconditions in
      refl;
  open_yet =
      unfold run step perform new initialize start start_checked send wake loop_test announce
        make_event emit default_check_start_preconditions in
      refl;
}

waiting_are_taken_example :
    TakesEach echo (Echoes no_str bus_runtime) loaded.mailbox.items loaded
    × IsLive (run_task echo (length loaded.mailbox.items) loaded)
waiting_are_taken_example =
    waiting_are_taken echo echo-Respects
      (echo_agent-Steady no_str bus_runtime bus_runtime-Respects bus-IsSteadyBus)
      (Echoes no_str bus_runtime) (echoes no_str bus_runtime bus_runtime-Respects bus-IsSteadyBus)
      loaded loaded-IsLive

echo_answers_all_example :
    TakesEach echo (Echoes no_str bus_runtime) loaded.mailbox.items loaded
    × IsLive (run_task echo (length loaded.mailbox.items) loaded)
echo_answers_all_example =
    echo_answers_all no_str bus_runtime bus_runtime-Respects bus-IsSteadyBus loaded loaded-IsLive
