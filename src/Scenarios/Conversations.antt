-- ===== src/Scenarios/Conversations.antt =====
-- The theorem about `SDKURPAgent` at a package whose runs give one message and finish.
use unified_runtime_primitiv.Base.{
  ℕ, zero, suc, ◌≡◌, ◌≢◌, refl, String, Bool, true, false, none, some, List, [], ◌∷◌, ◌++◌,
}
use unified_runtime_primitiv.Data.{text, LastTaskOutcome, processing}
use unified_runtime_primitiv.Data.Sync.{plain_result}
use unified_runtime_primitiv.Exec.{⊤, pure}
use unified_runtime_primitiv.Exec.Keeps.{Keeps-pure}
use unified_runtime_primitiv.Agent.{
  Runtime, new, initialize, Operation, initializes, starts, wakes, run, step, perform, start,
  start_checked, wake, loop_test, announce, make_event, emit, default_check_start_preconditions,
  set_status, handle_message,
}
use unified_runtime_primitiv.Agent.Frame.{Leaves-order}
use unified_runtime_primitiv.Agent.Answers.{Answered}
use unified_runtime_primitiv.Sdk.{
  SdkFields, SdkUrpAgent, Sdk, set_fields, gather, response_of, last, sdk_agent, new_sdk,
  sdk_on_initialize, llm_of, choose_id, fresh_for,
}
use unified_runtime_primitiv.Sdk.Frame.{SdkRespects, set_fields-Leaves}
use unified_runtime_primitiv.Agent.Founding.{Saves-order}
use unified_runtime_primitiv.Sdk.Conversing.{SdkSaves, HasConversation, run-new_sdk-HasConversation}
use unified_runtime_primitiv.Sdk.Opening.{Initialised, initialize-Initialised}
use unified_runtime_primitiv.Sdk.Replies.{EndsAs, Said, sdk_answers}
use unified_runtime_primitiv.Scenarios.Bus.{descriptor, context, hello, no_str}

-- Messages are lists of texts, and the world is the status of the one conversation.
abbrev TestFields : Type 0
TestFields = SdkFields ⊤ ⊤ ⊤ (List String) ℕ

abbrev TestAgent : Type 0
TestAgent = SdkUrpAgent ⊤ ⊤ ⊤ ⊤ (List String) ℕ

abbrev quiet_runtime : Runtime ⊤ TestFields
quiet_runtime = record {
  uuid4 = λ f. ("id", f);
  utc_now = λ f. (0, f);
  call = λ c e. pure tt;
  others = pure tt;
}

abbrev same_number : ℕ → ℕ → Bool
same_number zero zero = true
same_number (suc m) (suc n) = same_number m n
same_number _ _ = false

abbrev one_reply : TestFields → TestFields
one_reply f = record f { llm_messages = f.llm_messages ++ ("Hi" ∷ " there" ∷ []) ∷ []; world = 1 }

abbrev test_sdk : Sdk ⊤ ⊤ ⊤ ⊤ (List String) ℕ String ℕ
test_sdk = record {
  runtime = quiet_runtime;
  str = no_str;
  truthy = λ v. true;
  getenv = λ name v. v;
  default_workspace = text "agent_workspace";
  makedirs = λ v. pure tt;
  make_llm = λ u v w. pure tt;
  make_agent = λ l. pure tt;
  parse_uuid = λ v. pure "c1";
  new_uuid = pure "c2";
  make_conversation = λ g v id. pure tt;
  send_text = λ k v. pure tt;
  run_conversation = λ k. set_fields one_reply;
  conversation_id = λ k w. "c1";
  execution_status = λ k w. w;
  same_status = same_number;
  paused = 0;
  finished = 1;
  stuck = 2;
  error = 3;
  content = λ m. m;
  item_text = λ t. some t;
}

test_sdk-Respects : SdkRespects test_sdk
test_sdk-Respects = record {
  runtime = record {
    call = λ c e. Keeps-pure Leaves-order tt;
    others = Keeps-pure Leaves-order tt;
  };
  makedirs = λ v. Keeps-pure Leaves-order tt;
  make_llm = λ u v w. Keeps-pure Leaves-order tt;
  make_agent = λ l. Keeps-pure Leaves-order tt;
  parse_uuid = λ v. Keeps-pure Leaves-order "c1";
  new_uuid = Keeps-pure Leaves-order "c2";
  make_conversation = λ g v id. Keeps-pure Leaves-order tt;
  send_text = λ k v. Keeps-pure Leaves-order tt;
  run_conversation = λ k. set_fields-Leaves one_reply;
}

abbrev fields : TestFields
fields = record {
  llm = some tt;
  agent = some tt;
  conversation = some tt;
  workspace_path = text "w";
  llm_messages = [];
  world = 0;
}

-- An agent that has just taken a message.
abbrev talking : TestAgent
talking = record (new (sdk_agent test_sdk) descriptor fields) {
  mailbox = record { items = []; unfinished_tasks = 1 };
}

abbrev asked : TestAgent
asked = set_status processing talking

abbrev replied : TestAgent
replied = (set_fields one_reply asked).1

response-replied : response_of test_sdk (last replied.world.llm_messages) ≡ "Hi there"
unfolding response_of gather new
response-replied = refl

sdk_answers_example :
    (outcome : LastTaskOutcome) × (type : String) × (s : String) × EndsAs test_sdk 1 outcome type
    × Said test_sdk replied.world.llm_messages s
    × Answered
        (sdk_agent test_sdk)
        talking
        hello
        type
        (plain_result outcome s)
        (handle_message (sdk_agent test_sdk) hello talking)
    × (s ≢ "")
unfolding new
sdk_answers_example =
    sdk_answers test_sdk test_sdk-Respects tt hello talking asked replied 0 refl refl refl refl refl
      (λ c e a. refl) refl

initialize-Initialised_example :
    Initialised test_sdk context
      (initialize (sdk_agent test_sdk) context tt (new_sdk test_sdk none 0))
unfolding new
initialize-Initialised_example =
    initialize-Initialised test_sdk test_sdk-Respects context tt (new_sdk test_sdk none 0) refl

test_sdk-Saves : SdkSaves test_sdk
test_sdk-Saves = record {
  uuid4 = λ f h. h;
  utc_now = λ f h. h;
  call = λ c e. Keeps-pure (Saves-order HasConversation) tt;
  others = Keeps-pure (Saves-order HasConversation) tt;
  send_text = λ k v. Keeps-pure (Saves-order HasConversation) tt;
  run_conversation = λ k. record { at = λ a h. h };
}

abbrev opening : List (Operation ⊤)
opening = initializes context tt ∷ starts ∷ wakes ∷ []

run-new_sdk-HasConversation_example :
    HasConversation (run (sdk_agent test_sdk) opening (new_sdk test_sdk none 0)).world
run-new_sdk-HasConversation_example =
    run-new_sdk-HasConversation test_sdk test_sdk-Saves test_sdk-Respects opening none 0 (
      unfold run step perform new initialize start start_checked wake loop_test announce make_event
        emit default_check_start_preconditions sdk_on_initialize llm_of choose_id fresh_for in
      tt)
