-- ===== src/Sdk/Frame.antt =====
-- What `SDKURPAgent` leaves alone.
use unified_runtime_primitiv.Base.{
  refl, String, Bool, true, false, Option, none, some, if◌then◌else◌,
}
use unified_runtime_primitiv.Data.{Value, dict, end, find_field, MessageEnvelope, AgentContext}
use unified_runtime_primitiv.Exec.{Exec, Exception, value_error, try}
use unified_runtime_primitiv.Exec.Keeps.{Keeps, Keeps-pure, Keeps-raise, Keeps-bind, Keeps-try}
use unified_runtime_primitiv.Agent.{
  default_check_start_preconditions, default_check_preconditions, default_check_postconditions,
  default_on_shutdown,
}
use unified_runtime_primitiv.Agent.Frame.{Leaves, Leaves-order, Grows-of, RuntimeRespects, Respects}
use unified_runtime_primitiv.Sample.{extract_text}
use unified_runtime_primitiv.Sdk.Defs.{
  SdkUrpAgent, set_fields, Sdk, choose_id, fresh_for, llm_of, get_or, sdk_on_initialize,
  with_conversation, on_conversation, read_result, sdk_process, sdk_agent,
}

module _ {C L G K M W I X : Type 0} (sdk : Sdk C L G K M W I X) where
  -- What the package does leaves the fields of the base class to the agent's methods.
  pub record SdkRespects : Type 0 where
    pub runtime : RuntimeRespects sdk.runtime
    pub makedirs : (v : Value) → Keeps Leaves (sdk.makedirs v)
    pub make_llm : (u v w : Value) → Keeps Leaves (sdk.make_llm u v w)
    pub make_agent : (l : L) → Keeps Leaves (sdk.make_agent l)
    pub parse_uuid : (v : Value) → Keeps Leaves (sdk.parse_uuid v)
    pub new_uuid : Keeps Leaves sdk.new_uuid
    pub make_conversation :
        (g : G) (v : Value) (id : String) → Keeps Leaves (sdk.make_conversation g v id)
    pub send_text : (k : K) (v : Value) → Keeps Leaves (sdk.send_text k v)
    pub run_conversation : (k : K) → Keeps Leaves (sdk.run_conversation k)

pub set_fields-Leaves : {C W : Type 0} (f : W → W) → Keeps Leaves (set_fields {C = C} f)
set_fields-Leaves f = record {
  at = λ a. record {
    grows = Grows-of a _ refl refl refl refl refl refl;
    same_status = refl;
    same_result = refl;
  };
}

module _ {C L G K M W I X : Type 0} (sdk : Sdk C L G K M W I X) (respects : SdkRespects sdk) where
  fresh_for-Leaves : (e : Exception) → Keeps Leaves (fresh_for sdk e)
  unfolding fresh_for
  fresh_for-Leaves (value_error t) = respects.new_uuid
  fresh_for-Leaves e = Keeps-raise Leaves-order _

  choose-Leaves :
      (b : Bool) (v : Value)
      → Keeps Leaves (if b then try (sdk.parse_uuid v) (fresh_for sdk) else sdk.new_uuid)
  choose-Leaves true v = Keeps-try Leaves-order _ _ (respects.parse_uuid v) fresh_for-Leaves
  choose-Leaves false v = respects.new_uuid

  choose_id-Leaves : (o : Option Value) → Keeps Leaves (choose_id sdk o)
  unfolding choose_id
  choose_id-Leaves none = respects.new_uuid
  choose_id-Leaves (some v) = choose-Leaves (sdk.truthy v) v

  llm_of-Leaves : (v : Value) → Keeps Leaves (llm_of sdk v)
  unfolding llm_of
  llm_of-Leaves (dict config) = respects.make_llm _ _ _
  llm_of-Leaves v = Keeps-raise Leaves-order _

  on_initialize-Leaves : (context : AgentContext) → Keeps Leaves (sdk_on_initialize sdk context)
  unfolding sdk_on_initialize
  on_initialize-Leaves context =
      let config = context.configuration in
      let path = get_or sdk.default_workspace "workspace_path" config in
      Keeps-bind Leaves-order _ _ (set_fields-Leaves (λ f. record f { workspace_path = path })) λ _.
        Keeps-bind Leaves-order _ _ (respects.makedirs path) λ _.
          Keeps-bind Leaves-order _ _ (llm_of-Leaves (get_or (dict end) "llm_config" config)) λ llm.
            Keeps-bind Leaves-order _ _ (set_fields-Leaves (λ f. record f { llm = some llm })) λ _.
              Keeps-bind Leaves-order _ _ (respects.make_agent llm) λ agent.
                Keeps-bind Leaves-order _ _
                  (set_fields-Leaves (λ f. record f { agent = some agent }))
                  λ _.
                    Keeps-bind Leaves-order _ _
                      (choose_id-Leaves (find_field "conversation_id" config))
                      λ id.
                        Keeps-bind Leaves-order _ _ (respects.make_conversation agent path id)
                          λ k. set_fields-Leaves (λ f. record f { conversation = some k })

  with_conversation-Leaves :
      {A : Type 0} (f : K → Exec (SdkUrpAgent C L G K M W) A) (o : Option K)
      → ((k : K) → Keeps Leaves (f k))
      → Keeps Leaves (with_conversation sdk f o)
  unfolding with_conversation
  with_conversation-Leaves f none h = Keeps-raise Leaves-order _
  with_conversation-Leaves f (some k) h = h k

  on_conversation-Leaves :
      {A : Type 0} (f : K → Exec (SdkUrpAgent C L G K M W) A)
      → ((k : K) → Keeps Leaves (f k))
      → Keeps Leaves (on_conversation sdk f)
  unfolding on_conversation
  on_conversation-Leaves f h = record {
    at = λ a. (with_conversation-Leaves f a.world.conversation h).at a;
  }

  process-Leaves : (m : MessageEnvelope) → Keeps Leaves (sdk_process sdk m)
  unfolding sdk_process
  process-Leaves m =
      Keeps-bind Leaves-order _ _
        (on_conversation-Leaves (λ k. sdk.send_text k (extract_text sdk.str m.payload))
          (λ k. respects.send_text k (extract_text sdk.str m.payload)))
        λ _.
          Keeps-bind Leaves-order _ _
            (on_conversation-Leaves sdk.run_conversation respects.run_conversation)
            λ _. on_conversation-Leaves (read_result sdk) (λ k. record { at = Leaves-order.same })

  pub sdk_agent-Respects : Respects (sdk_agent sdk)
  unfolding default_check_start_preconditions default_check_preconditions
      default_check_postconditions default_on_shutdown
  sdk_agent-Respects = record {
    runtime = respects.runtime;
    on_initialize = on_initialize-Leaves;
    check_start_preconditions = Keeps-pure Leaves-order _;
    check_preconditions = λ m. Keeps-pure Leaves-order _;
    process = process-Leaves;
    check_postconditions = λ m r. Keeps-pure Leaves-order _;
    on_shutdown = Keeps-pure Leaves-order tt;
  }
