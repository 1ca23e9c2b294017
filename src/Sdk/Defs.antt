-- ===== src/Sdk/Defs.antt =====
-- The agent that runs a conversation of openhands.sdk. The package is a parameter: its
-- conversations, messages and statuses are types that the code does not look into.
use unified_runtime_primitiv.Base.{
  String, Bool, ◌||◌, Option, none, some, List, [], ◌∷◌, ◌++◌, join, ◌==◌, if◌then◌else◌,
}
use unified_runtime_primitiv.Data.{
  Value, Fields, end, text, dict, find_field, Payload, MessageEnvelope, ProcessResult, AgentContext,
  AgentDescriptor, LastTaskOutcome, waiting_for_user_input, task_failed, task_completed,
  FailureCategory, make_result,
}
use unified_runtime_primitiv.Exec.{
  Exec, Exception, value_error, other_error, ok, ⊤, pure, raise, modify, ◌>>=◌, ◌>>◌, try,
}
use unified_runtime_primitiv.Agent.{
  Agent, Runtime, Program, new, set_world, default_check_start_preconditions,
  default_check_preconditions, default_check_postconditions, default_on_shutdown,
}
use unified_runtime_primitiv.Sample.{extract_text}

-- The fields of the subclass, in the world of the base class's agent, and the rest of the program.
-- `L` are the LLMs, `G` the SDK's agents, `K` the conversations, `M` their messages.
pub record SdkFields (L G K M W : Type 0) : Type 0 where
  pub llm : Option L
  pub agent : Option G
  pub conversation : Option K
  pub workspace_path : Value
  pub llm_messages : List M
  pub world : W

abbrev pub SdkUrpAgent : (C L G K M W : Type 0) → Type 0
SdkUrpAgent C L G K M W = Agent C (SdkFields L G K M W)

-- `SDKURPAgent.__init__`: the descriptor, if none is given, and the fields.
abbrev pub sdk_descriptor : AgentDescriptor
sdk_descriptor = record {
  agent_id = "vhl.sdk_example.v1";
  name = "SDK Example Agent";
  version = "1.0";
  description = "";
  capabilities = "TERMINAL" ∷ "FILE_EDITOR" ∷ [];
  accepted_message_types = "MESSAGE" ∷ [];
  metadata = end;
}

abbrev pub or_sdk_descriptor : Option AgentDescriptor → AgentDescriptor
or_sdk_descriptor none = sdk_descriptor
or_sdk_descriptor (some d) = d

abbrev pub sdk_fields : {L G K M W : Type 0} → W → SdkFields L G K M W
sdk_fields w = record {
  llm = none;
  agent = none;
  conversation = none;
  workspace_path = Value.null;
  llm_messages = [];
  world = w;
}

-- What the class calls. `I` are the items of a message's content, `X` the execution statuses. A run
-- of a conversation goes on in a thread, and calls `_conversation_callback`.
pub record Sdk (C L G K M W I X : Type 0) : Type 0 where
  pub runtime : Runtime C (SdkFields L G K M W)
  pub str : Payload → String
  pub truthy : Value → Bool
  pub getenv : String → Value → Value
  pub default_workspace : Value
  pub makedirs : Value → Exec (SdkUrpAgent C L G K M W) ⊤
  pub make_llm : Value → Value → Value → Exec (SdkUrpAgent C L G K M W) L
  pub make_agent : L → Exec (SdkUrpAgent C L G K M W) G
  pub parse_uuid : Value → Exec (SdkUrpAgent C L G K M W) String
  pub new_uuid : Exec (SdkUrpAgent C L G K M W) String
  pub make_conversation : G → Value → String → Exec (SdkUrpAgent C L G K M W) K
  pub send_text : K → Value → Exec (SdkUrpAgent C L G K M W) ⊤
  pub run_conversation : K → Exec (SdkUrpAgent C L G K M W) ⊤
  pub conversation_id : K → W → String
  pub execution_status : K → W → X
  pub same_status : X → X → Bool
  pub paused : X
  pub finished : X
  pub stuck : X
  pub error : X
  pub content : M → List I
  pub item_text : I → Option String

-- `config.get(key, default)`
abbrev pub get_or : Value → String → Fields → Value
get_or default key fields = elim (find_field key fields) [ none ↦ default | some v ↦ v ]

-- `response += content_item.text` for an item that is a text.
abbrev pub add_text : String → Option String → String
add_text acc none = acc
add_text acc (some t) = join acc t

-- `messages[-1]`
abbrev pub last : {A : Type 0} → List A → Option A
last [] = none
last (a ∷ []) = some a
last (a ∷ b ∷ rest) = last (b ∷ rest)

abbrev pub or_default : String → String
or_default response = if response == "" then "No text response generated" else response

-- An assignment to fields of the subclass.
abbrev pub set_fields : {C W : Type 0} → (W → W) → Exec (Agent C W) ⊤
set_fields f = modify λ a. set_world (f a.world) a

module _ {C L G K M W I X : Type 0} (sdk : Sdk C L G K M W I X) where
  -- `_conversation_callback`, on the message that an event converts to, if it does.
  unfoldable pub conversation_callback : Option M → Exec (SdkUrpAgent C L G K M W) ⊤
  conversation_callback none = pure tt
  conversation_callback (some m) =
      set_fields λ f. record f { llm_messages = f.llm_messages ++ m ∷ [] }

  -- The id to resume with; one that does not parse is replaced by a fresh one.
  unfoldable pub fresh_for : Exception → Exec (SdkUrpAgent C L G K M W) String
  fresh_for (value_error t) = sdk.new_uuid
  fresh_for e = raise e

  unfoldable pub choose_id : Option Value → Exec (SdkUrpAgent C L G K M W) String
  unfolding fresh_for
  choose_id none = sdk.new_uuid
  choose_id (some v) = if sdk.truthy v then try (sdk.parse_uuid v) fresh_for else sdk.new_uuid

  unfoldable pub llm_of : Value → Exec (SdkUrpAgent C L G K M W) L
  llm_of (dict config) =
      sdk.make_llm (get_or (sdk.getenv "LLM_MODEL" (text "gpt-4o")) "model" config)
        (get_or (sdk.getenv "LLM_API_KEY" Value.null) "api_key" config)
        (get_or (sdk.getenv "LLM_BASE_URL" Value.null) "base_url" config)
  llm_of v = raise (other_error "AttributeError")

  unfoldable pub sdk_on_initialize : AgentContext → Exec (SdkUrpAgent C L G K M W) ⊤
  unfolding llm_of choose_id
  sdk_on_initialize context =
      let config = context.configuration in
      let path = get_or sdk.default_workspace "workspace_path" config in
      do
        set_fields λ f. record f { workspace_path = path }
        sdk.makedirs path
        llm ← llm_of (get_or (dict end) "llm_config" config)
        set_fields λ f. record f { llm = some llm }
        agent ← sdk.make_agent llm
        set_fields λ f. record f { agent = some agent }
        id ← choose_id (find_field "conversation_id" config)
        conversation ← sdk.make_conversation agent path id
        set_fields λ f. record f { conversation = some conversation }

  unfoldable pub id_of : Option K → W → String
  id_of none w = ""
  id_of (some k) w = sdk.conversation_id k w

  unfoldable pub get_conversation_id : SdkUrpAgent C L G K M W → String
  unfolding id_of
  get_conversation_id a = id_of a.world.conversation a.world.world

  -- An attribute of `None` is an error.
  unfoldable pub with_conversation :
      {A : Type 0}
      → (K → Exec (SdkUrpAgent C L G K M W) A)
      → Option K
      → Exec (SdkUrpAgent C L G K M W) A
  with_conversation f none = raise (other_error "AttributeError")
  with_conversation f (some k) = f k

  -- `self.conversation.…`
  unfoldable pub on_conversation :
      {A : Type 0} → (K → Exec (SdkUrpAgent C L G K M W) A) → Exec (SdkUrpAgent C L G K M W) A
  unfolding with_conversation
  on_conversation f a = with_conversation f a.world.conversation a

  unfoldable pub outcome_of : X → LastTaskOutcome
  outcome_of x =
      if sdk.same_status x sdk.paused
      then waiting_for_user_input
      else if sdk.same_status x sdk.finished
      then task_completed
      else if sdk.same_status x sdk.stuck || sdk.same_status x sdk.error
      then task_failed
      else LastTaskOutcome.none

  unfoldable pub gather : String → List I → String
  gather acc [] = acc
  gather acc (i ∷ is) = gather (add_text acc (sdk.item_text i)) is

  unfoldable pub response_of : Option M → String
  unfolding gather
  response_of none = "No response generated"
  response_of (some m) = or_default (gather "" (sdk.content m))

  unfoldable pub sdk_result : X → List M → ProcessResult
  unfolding make_result outcome_of response_of
  sdk_result x messages =
      make_result (outcome_of x) FailureCategory.none (some (response_of (last messages))) none

  -- The result of the conversation's run, once it has ended.
  abbrev pub read_result : K → Exec (SdkUrpAgent C L G K M W) ProcessResult
  read_result k a = (ok (sdk_result (sdk.execution_status k a.world.world) a.world.llm_messages), a)

  unfoldable pub sdk_process : MessageEnvelope → Exec (SdkUrpAgent C L G K M W) ProcessResult
  unfolding on_conversation sdk_result
  sdk_process message = do
    on_conversation (λ k. sdk.send_text k (extract_text sdk.str message.payload))
    on_conversation sdk.run_conversation
    on_conversation read_result

  abbrev pub sdk_agent : Program C (SdkFields L G K M W)
  sdk_agent = record {
    runtime = sdk.runtime;
    on_initialize = sdk_on_initialize;
    check_start_preconditions = default_check_start_preconditions;
    check_preconditions = default_check_preconditions;
    process = sdk_process;
    check_postconditions = default_check_postconditions;
    on_shutdown = default_on_shutdown;
  }

  abbrev pub new_sdk : Option AgentDescriptor → W → SdkUrpAgent C L G K M W
  new_sdk descriptor w = new sdk_agent (or_sdk_descriptor descriptor) (sdk_fields w)
