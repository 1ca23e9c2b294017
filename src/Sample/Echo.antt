-- ===== src/Sample/Echo.antt =====
-- What `EchoAgent` leaves alone, and what it answers.
use unified_runtime_primitiv.Base.{
  ◌⊎◌, inl, inr, arith, ℕ, suc, ◌≡◌, refl, ◌∙◌, sym, ap, String, Option, none, some, join,
}
use unified_runtime_primitiv.Data.Sync.{payload_text, plain_result}
use unified_runtime_primitiv.Data.{
  Value, null, truth, object, array, process_result, text, Fields, find_field, Payload, value, dict,
  field, end, MessageEnvelope, ProcessResult, task_completed, processing,
}
use unified_runtime_primitiv.Exec.{Result, ok, raised, Exec, pure, continue, ◌>>◌}
use unified_runtime_primitiv.Exec.Keeps.{Keeps-pure, Keeps-bind}
use unified_runtime_primitiv.Agent.{
  Agent, Runtime, announce, set_status, handle_message, default_check_start_preconditions,
  default_check_preconditions, default_check_postconditions, default_on_shutdown,
}
use unified_runtime_primitiv.Agent.Frame.{Leaves-order, RuntimeRespects, Respects, announce-Leaves}
use unified_runtime_primitiv.Agent.Verdict.{answer, judge_process}
use unified_runtime_primitiv.Agent.Answers.{Delivers, announce-ok, Answered, handle_message_answers}
use unified_runtime_primitiv.Sample.{
  text_or, extract_text, shown, echo_result, echo_process, echo_agent,
}

continue-ok :
    {S A B : Type 0} (q : Result A × S) (f : A → Exec S B) (a : A) (b : B)
    → q.0 ≡ ok a
    → (f a q.1).0 ≡ ok b
    → (continue q f).0 ≡ ok b
continue-ok (ok a', s) f a b e h = ground arith
continue-ok (raised x, s) f a b e h = cc

pure-ok :
    {S A B : Type 0} (q : Result A × S) (b : B) (a : A)
    → q.0 ≡ ok a
    → (continue q (λ _. pure b)).0 ≡ ok b
pure-ok (ok a', s) b a e = refl
pure-ok (raised x, s) b a e = cc

abbrev pub IsNoText : Value → Type 0
IsNoText (text s) = ⊥
IsNoText _ = Unit

abbrev pub IsNoDict : Payload → Type 0
IsNoDict (value (dict fields)) = ⊥
IsNoDict _ = Unit

module _ (str : Payload → String) where
  -- What the answer to a payload repeats: the entry "text" of a dict that has one, and of anything
  -- else the whole; what is no text as `str` converts it.
  pub data Repeats : Payload → String → Type 0 where
    text_entry :
        (fields : Fields) (s : String)
        → find_field "text" fields ≡ some (text s)
        → Repeats (value (dict fields)) s
    other_entry :
        (fields : Fields) (v : Value)
        → find_field "text" fields ≡ some v
        → IsNoText v
        → Repeats (value (dict fields)) (str (value v))
    no_entry :
        (fields : Fields)
        → find_field "text" fields ≡ none
        → Repeats (value (dict fields)) (str (value (dict fields)))
    no_dict : (payload : Payload) → IsNoDict payload → Repeats payload (str payload)

  echoed_entry :
      (fields : Fields) (o : Option Value)
      → find_field "text" fields ≡ o
      → Repeats (value (dict fields)) (shown str (text_or str o (value (dict fields))))
  unfolding shown
  echoed_entry fields none e = no_entry fields e
  echoed_entry fields (some (text s)) e = text_entry fields s e
  echoed_entry fields (some null) e = other_entry fields null e tt
  echoed_entry fields (some (truth b)) e = other_entry fields (truth b) e tt
  echoed_entry fields (some (object n)) e = other_entry fields (object n) e tt
  echoed_entry fields (some (array vs)) e = other_entry fields (array vs) e tt
  echoed_entry fields (some (dict fs)) e = other_entry fields (dict fs) e tt

  echoed-Repeats : (payload : Payload) → Repeats payload (shown str (extract_text str payload))
  unfolding extract_text shown
  echoed-Repeats (value (dict fields)) = echoed_entry fields (find_field "text" fields) refl
  echoed-Repeats (value null) = no_dict _ tt
  echoed-Repeats (value (truth b)) = no_dict _ tt
  echoed-Repeats (value (text s)) = no_dict _ tt
  echoed-Repeats (value (object n)) = no_dict _ tt
  echoed-Repeats (value (array vs)) = no_dict _ tt
  echoed-Repeats (process_result r) = no_dict _ tt

module _ (str : Payload → String) {C W : Type 0} (rt : Runtime C W) where
  pub echo_agent-Respects : RuntimeRespects rt → Respects (echo_agent str rt)
  unfolding echo_process default_check_start_preconditions default_check_preconditions
      default_check_postconditions default_on_shutdown
  echo_agent-Respects respects = record {
    runtime = respects;
    on_initialize = λ context. Keeps-pure Leaves-order tt;
    check_start_preconditions = Keeps-pure Leaves-order _;
    check_preconditions = λ m. Keeps-pure Leaves-order _;
    process = λ m. Keeps-bind Leaves-order _ _ respects.others λ _.
        Keeps-bind Leaves-order _ _ (announce-Leaves rt respects "ECHO_RECEIVED" _)
          λ _. Keeps-pure Leaves-order (echo_result str m.payload);
    check_postconditions = λ m r. Keeps-pure Leaves-order _;
    on_shutdown = Keeps-pure Leaves-order tt;
  }

  -- What the echo says of a payload that is a dict: its entry "text", if that is a text; without
  -- such an entry the text that `str` gives of the whole. The legacy payload of the completed result
  -- holds the same text.
  pub echo_result_text :
      (fields : Fields) (s : String)
      → (find_field "text" fields ≡ some (text s))
        ⊎ ((find_field "text" fields ≡ none) × (s ≡ str (value (dict fields))))
      → let r = echo_result str (value (dict fields)) in
        (r.outcome ≡ task_completed)
        × (r.text ≡ some (join "Echo: " s))
        × (payload_text r.payload ≡ some (join "Echo: " s))
  unfolding echo_result extract_text shown
  echo_result_text fields s h = let e = said h in (refl, e, e)
    where
      said :
          (find_field "text" fields ≡ some (text s))
            ⊎ ((find_field "text" fields ≡ none) × (s ≡ str (value (dict fields))))
          → some (join "Echo: " (shown str (extract_text str (value (dict fields)))))
            ≡ some (join "Echo: " s)
      said (inl f) =
          ap (λ o. some (join "Echo: " (shown str (text_or str o (value (dict fields)))))) f
      said (inr (f, g)) =
          ap (λ o. some (join "Echo: " (shown str (text_or str o (value (dict fields)))))) f
          ∙ ap (λ t. some (join "Echo: " t)) (sym g)

  module _ (delivers : Delivers (echo_agent str rt))
      (resumes : (a : Agent C W) → (rt.others a).0 ≡ ok tt) where
    echo_process-ok :
        (m : MessageEnvelope) (a : Agent C W)
        → echo_process str rt m a ≡ (ok (echo_result str m.payload), (echo_process str rt m a).1)
    unfolding echo_process
    echo_process-ok m a =
        let spoken = value (dict (field "original_text" (extract_text str m.payload) end)) in
        let (r, b) = rt.others a in
        λ i. (
          continue-ok (r, b)
              (λ _. announce rt "ECHO_RECEIVED" spoken >> pure (echo_result str m.payload)) tt
              (echo_result str m.payload) (resumes a)
              (pure-ok (announce rt "ECHO_RECEIVED" spoken b) (echo_result str m.payload) tt
                (announce-ok (echo_agent str rt) delivers "ECHO_RECEIVED" spoken b))
              i,
          (echo_process str rt m a).1,
        )

    pub echo_answers_result :
        RuntimeRespects rt
        → (m : MessageEnvelope) (a : Agent C W) (n : ℕ) → a.mailbox.unfinished_tasks ≡ suc n
        → Answered
            (echo_agent str rt)
            a
            m
            "TASK_COMPLETED"
            (echo_result str m.payload)
            (handle_message (echo_agent str rt) m a)
    unfolding default_check_preconditions default_check_postconditions
    echo_answers_result respects m a n e =
        let c = set_status processing a in
        handle_message_answers (echo_agent str rt) (echo_agent-Respects respects) m a n
          "TASK_COMPLETED" (echo_result str m.payload) delivers e
          (unfold echo_result in
            ap
              (λ (q : Result ProcessResult × Agent C W).
                answer (judge_process (echo_agent str rt) m q).0)
              (echo_process-ok m c))

    -- `EchoAgent` answers every message: with a runtime that respects the agent's fields and whose
    -- callbacks and other tasks do not raise, a message that stands in the mailbox's count ends in
    -- an event TASK_COMPLETED, with a result that is recorded too and whose text is "Echo: " and what
    -- is to be repeated (`Repeats`): the entry "text" of a payload that is a dict with that entry,
    -- otherwise the text of the whole payload. Its outcome is TASK_COMPLETED, without a category,
    -- artifacts or metadata, and the legacy payload holds the same text.
    pub echo_answers :
        RuntimeRespects rt
        → (m : MessageEnvelope) (a : Agent C W) (n : ℕ) → a.mailbox.unfinished_tasks ≡ suc n
        → (s : String) × Repeats str m.payload s
          × Answered
              (echo_agent str rt)
              a
              m
              "TASK_COMPLETED"
              (plain_result task_completed (join "Echo: " s))
              (handle_message (echo_agent str rt) m a)
    unfolding echo_result
    echo_answers respects m a n e =
        (_, echoed-Repeats str m.payload, echo_answers_result respects m a n e)
