-- ===== src/Sdk/Conversing.antt =====
-- An SDK agent that is in use has its conversation.
use unified_runtime_primitiv.Base.{◌≢◌, refl, sym, ap, ◌∙◌, String, Option, none, some, List}
use unified_runtime_primitiv.Data.{AgentDescriptor, MessageEnvelope, Payload, Value}
use unified_runtime_primitiv.Exec.{Exec, Result, ⊤}
use unified_runtime_primitiv.Exec.Keeps.{Keeps, Keeps-pure, Keeps-raise, Keeps-bind}
use unified_runtime_primitiv.Agent.{
  run, Operation, make_event, default_check_start_preconditions, default_check_preconditions,
  default_check_postconditions, default_on_shutdown,
}
use unified_runtime_primitiv.Agent.Founding.{Saves, Saves-order, Saves-modify}
use unified_runtime_primitiv.Agent.Founded.{IsUp, Founds, run-new-founded}
use unified_runtime_primitiv.Sample.{extract_text}
use unified_runtime_primitiv.Sdk.Defs.{
  SdkFields, SdkUrpAgent, Sdk, with_conversation, on_conversation, read_result, sdk_process,
  sdk_agent, new_sdk, or_sdk_descriptor, sdk_fields,
}
use unified_runtime_primitiv.Sdk.Frame.{SdkRespects, sdk_agent-Respects}
use unified_runtime_primitiv.Sdk.Opening.{on_initialize-Opened}

abbrev pub HasConversation : {L G K M W : Type 0} → SdkFields L G K M W → Type 0
HasConversation f = f.conversation ≢ none

-- Nothing outside the class takes the conversation away from it.
pub record SdkSaves {C L G K M W I X : Type 0} (sdk : Sdk C L G K M W I X) : Type 0 where
  pub uuid4 :
      (f : SdkFields L G K M W) → HasConversation f → HasConversation (sdk.runtime.uuid4 f).1
  pub utc_now :
      (f : SdkFields L G K M W) → HasConversation f → HasConversation (sdk.runtime.utc_now f).1
  pub call : (c : C) (e : MessageEnvelope) → Keeps (Saves HasConversation) (sdk.runtime.call c e)
  pub others : Keeps (Saves HasConversation) sdk.runtime.others
  pub send_text : (k : K) (v : Value) → Keeps (Saves HasConversation) (sdk.send_text k v)
  pub run_conversation : (k : K) → Keeps (Saves HasConversation) (sdk.run_conversation k)

module _ {C L G K M W I X : Type 0} (sdk : Sdk C L G K M W I X) (saves : SdkSaves sdk) where
  event-Saves :
      (type : String) (payload : Payload) (id correlation : Option String)
      → Keeps (Saves HasConversation) (make_event sdk.runtime type payload id correlation)
  unfolding make_event
  event-Saves type payload none correlation = record {
    at = λ a h. saves.utc_now _ (saves.uuid4 a.world h);
  }
  event-Saves type payload (some id) correlation = record { at = λ a h. saves.utc_now a.world h }

  with_conversation-Saves :
      {A : Type 0} (f : K → Exec (SdkUrpAgent C L G K M W) A) (o : Option K)
      → ((k : K) → Keeps (Saves HasConversation) (f k))
      → Keeps (Saves HasConversation) (with_conversation sdk f o)
  unfolding with_conversation
  with_conversation-Saves f none h = Keeps-raise (Saves-order HasConversation) _
  with_conversation-Saves f (some k) h = h k

  on_conversation-Saves :
      {A : Type 0} (f : K → Exec (SdkUrpAgent C L G K M W) A)
      → ((k : K) → Keeps (Saves HasConversation) (f k))
      → Keeps (Saves HasConversation) (on_conversation sdk f)
  unfolding on_conversation
  on_conversation-Saves f h = record {
    at = λ a. (with_conversation-Saves f a.world.conversation h).at a;
  }

  process-Saves : (m : MessageEnvelope) → Keeps (Saves HasConversation) (sdk_process sdk m)
  unfolding sdk_process
  process-Saves m =
      let order = Saves-order HasConversation in
      Keeps-bind order _ _
        (on_conversation-Saves (λ k. sdk.send_text k (extract_text sdk.str m.payload))
          (λ k. saves.send_text k (extract_text sdk.str m.payload)))
        λ _.
          Keeps-bind order _ _ (on_conversation-Saves sdk.run_conversation saves.run_conversation)
            λ _. on_conversation-Saves (read_result sdk) (λ k. record { at = λ a h. h })

  sdk_agent-Founds : Founds (sdk_agent sdk) HasConversation
  unfolding default_check_start_preconditions default_check_preconditions
      default_check_postconditions default_on_shutdown
  sdk_agent-Founds = record {
    saved = record {
      kept = record {
        by_bus = record {
          order = Saves-order HasConversation;
          make_event_keeps = event-Saves;
          call_keeps = saves.call;
        };
        set_result_keeps = λ r. Saves-modify HasConversation _ (λ a. refl);
        set_processing_keeps = Saves-modify HasConversation _ (λ a. refl);
        check_preconditions_keeps = λ m. Keeps-pure (Saves-order HasConversation) _;
        process_keeps = process-Saves;
        check_postconditions_keeps = λ m r. Keeps-pure (Saves-order HasConversation) _;
      };
      others_keep = saves.others;
      start_keeps = Keeps-pure (Saves-order HasConversation) _;
      shutdown_keeps = Keeps-pure (Saves-order HasConversation) tt;
    };
    founds = λ context a h.
        let o = on_initialize-Opened sdk context a h in
        let same = ap (λ (q : Result ⊤ × SdkUrpAgent C L G K M W). q.1.world.conversation) o.kept in
        λ e. let f = sym same ∙ e in cc;
  }

  -- If the package and the bus respect the agent's fields and take no conversation away
  -- (`SdkRespects`, `SdkSaves`): after any schedule of operations on a new SDK agent it has a
  -- conversation whenever its status is neither UNINITIALIZED nor TERMINATED.
  pub run-new_sdk-HasConversation :
      SdkRespects sdk
      → (ops : List (Operation C)) (d : Option AgentDescriptor) (w : W)
      → IsUp (run (sdk_agent sdk) ops (new_sdk sdk d w)).state.status
      → HasConversation (run (sdk_agent sdk) ops (new_sdk sdk d w)).world
  run-new_sdk-HasConversation respects ops d w =
      run-new-founded (sdk_agent sdk) (sdk_agent-Respects sdk respects) HasConversation
        sdk_agent-Founds ops (or_sdk_descriptor d) (sdk_fields w)
