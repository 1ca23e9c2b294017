-- ===== src/Scenarios/Agents.antt =====
-- The theorems about agents at an echo agent on the logging bus.
use unified_runtime_primitiv.Base.{
  String, join, ◌≡◌, refl, ◌≤◌, none, some, List, [], ◌∷◌, map, ◌≢◌, ◌⊎◌,
}
use unified_runtime_primitiv.Data.{
  MessageEnvelope, ProcessResult, end, error, terminated, task_completed, FailureCategory,
  sync_text_and_payload,
}
use unified_runtime_primitiv.Exec.{raised, runtime_error, finally, ⊤}
use unified_runtime_primitiv.Agent.{
  Agent, Operation, initializes, starts, sends, wakes, shuts_down, run, step, perform, new,
  initialize, start, send, wake, shutdown, handle_message, mark_done, send_refused, not_initialized,
  not_uninitialized, start_checked, loop_test, settle, survive, iteration, receive_and_handle,
  take_message, attempt, recover, after_pre, after_process, after_post, reply, announce, make_event,
  emit, begin_shutdown, end_shutdown, await_task, default_check_start_preconditions,
  default_check_preconditions, default_check_postconditions, default_on_shutdown,
}
use unified_runtime_primitiv.Data.Sync.{plain_result, payload_text, IsSynced, sync_harmonizes}
use unified_runtime_primitiv.Agent.Coherence.{IsCoherent, new-IsCoherent}
use unified_runtime_primitiv.Agent.Shutdown.{Shut, shutdown_ends}
use unified_runtime_primitiv.Agent.Stepping.{Performed, perform-Performed, run-new-IsCoherent}
use unified_runtime_primitiv.Agent.Once.{initializations, successful_starts, launched_once}
use unified_runtime_primitiv.Agent.Terminated.{terminated_absorbs}
use unified_runtime_primitiv.Agent.Verdict.{judge, deliver, handle_message-deliver}
use unified_runtime_primitiv.Agent.Answers.{Answered, handle_message_answers}
use unified_runtime_primitiv.Sample.Echo.{Repeats, echo_answers}
use unified_runtime_primitiv.Sample.{echo_process, echo_result}
use unified_runtime_primitiv.Scenarios.Bus.{
  Bus, echo, echo-Respects, bus_runtime, descriptor, context, hello, silence, no_str,
  bus_runtime-Respects,
}

-- A schedule on a new echo agent. Its line names what a test computes with.
simulate : List (Operation ⊤) → Agent ⊤ Bus
unfolding run step new initialize start start_checked send wake loop_test settle survive iteration
    receive_and_handle take_message handle_message attempt recover after_pre after_process
    after_post reply announce make_event emit begin_shutdown end_shutdown shutdown await_task
    echo_process echo_result default_check_start_preconditions default_check_preconditions
    default_check_postconditions default_on_shutdown
simulate ops = run echo ops (new echo descriptor silence)

-- The result of the first half of `test_process_result_compatibility`, before validation.
abbrev direct : ProcessResult
direct = record {
  outcome = task_completed;
  category = FailureCategory.none;
  text = some "direct text";
  artifacts = [];
  metadata = end;
  payload = none;
}

abbrev day : List (Operation ⊤)
day = initializes context tt ∷ starts ∷ sends hello ∷ wakes ∷ wakes ∷ shuts_down 0 ∷ []

-- The last message comes too late.
day-events :
    map (λ (e : MessageEnvelope). e.type) (simulate (sends hello ∷ day)).world.log
    ≡ "AGENT_STARTED" ∷ "ECHO_RECEIVED" ∷ "TASK_COMPLETED" ∷ "ECHO_RECEIVED" ∷ "TASK_COMPLETED"
      ∷ "AGENT_TERMINATED" ∷ []
unfolding simulate
day-events = refl

abbrev fresh : Agent ⊤ Bus
fresh = new echo descriptor silence

abbrev retired : Agent ⊤ Bus
retired = run echo day fresh

-- An agent that has just taken the message.
abbrev busy : Agent ⊤ Bus
busy = record (run echo (initializes context tt ∷ starts ∷ []) fresh) {
  mailbox = record { items = []; unfinished_tasks = 1 };
}

run-new-IsCoherent_example :
    IsCoherent (run echo day fresh) × ((run echo day fresh).state.status ≢ error)
run-new-IsCoherent_example = run-new-IsCoherent echo echo-Respects day descriptor silence

fresh-IsCoherent : IsCoherent fresh
fresh-IsCoherent = new-IsCoherent echo descriptor silence

perform-Performed_example :
    Performed echo (initializes context tt) fresh (perform echo (initializes context tt) fresh)
perform-Performed_example =
    perform-Performed echo echo-Respects (initializes context tt) fresh fresh-IsCoherent

abbrev started : Agent ⊤ Bus
started = run echo (initializes context tt ∷ starts ∷ sends hello ∷ wakes ∷ []) fresh

started-IsCoherent : IsCoherent started
started-IsCoherent = (run-new-IsCoherent echo echo-Respects _ descriptor silence).0

shutdown_ends_example : Shut echo started (shutdown echo 1 started)
shutdown_ends_example = shutdown_ends echo echo-Respects 0 started started-IsCoherent

launched_once_example :
    (initializations echo day fresh ≤ 1) × (successful_starts echo day fresh ≤ 1)
launched_once_example = launched_once echo echo-Respects day descriptor silence

retired-terminated : retired.state.status ≡ terminated
retired-terminated = unfold simulate in refl

terminated_absorbs_example :
    let b = run echo (sends hello ∷ shuts_down 0 ∷ []) retired in
    (b.state.status ≡ terminated)
    × (send hello b ≡ (raised (runtime_error send_refused), b))
    × (start echo b ≡ (raised (runtime_error (not_initialized terminated)), b))
    × (initialize echo context tt b ≡ (raised (runtime_error (not_uninitialized terminated)), b))
    × (wake echo b ≡ b)
terminated_absorbs_example =
    terminated_absorbs echo echo-Respects (sends hello ∷ shuts_down 0 ∷ []) retired hello context tt
      (run-new-IsCoherent echo echo-Respects day descriptor silence).0 retired-terminated

handle_message-deliver_example :
    let (v, b) = judge echo hello busy in
    handle_message echo hello busy ≡ finally (deliver echo hello v) (mark_done echo) b
handle_message-deliver_example = handle_message-deliver echo hello busy

handle_message_answers_example :
    Answered echo busy hello "TASK_COMPLETED"
      (echo_result no_str hello.payload)
      (handle_message echo hello busy)
handle_message_answers_example =
    handle_message_answers echo echo-Respects hello busy 0 "TASK_COMPLETED"
      (echo_result no_str hello.payload) (λ c e a. refl) refl (unfold simulate in refl)

echo_answers_example :
    (s : String) × Repeats no_str hello.payload s
    × Answered echo busy hello "TASK_COMPLETED"
        (plain_result task_completed (join "Echo: " s))
        (handle_message echo hello busy)
echo_answers_example =
    echo_answers no_str bus_runtime (λ c e a. refl) (λ a. refl) bus_runtime-Respects hello busy 0
      refl

sync_harmonizes_example :
    let s = sync_text_and_payload direct in
    IsSynced s.text s.payload
    × ((direct.text ≡ none) ⊎ (s.text ≡ direct.text))
    × ((direct.payload ≡ none) ⊎ (s.payload ≡ direct.payload))
    × ((direct.text ≢ none) × (direct.payload ≢ none) ⊎ (s.text ≡ payload_text s.payload))
    × (s.outcome ≡ direct.outcome)
    × (s.category ≡ direct.category)
    × (s.artifacts ≡ direct.artifacts)
    × (s.metadata ≡ direct.metadata)
    × (sync_text_and_payload s ≡ s)
sync_harmonizes_example = sync_harmonizes direct
