-- ===== src/Sdk/Replies.antt =====
-- What `SDKURPAgent` answers.
use unified_runtime_primitiv.Base.{
  ℕ, suc, ◌≡◌, refl, ◌∙◌, ap, ◌≢◌, String, Bool, true, false, Option, none, some, ◌==◌,
  if◌then◌else◌, eq_iff, arith, Bool-cases, inl, inr, ◌⊎◌, List, [], ◌∷◌, ◌++◌, join, sym,
}
use package.text.Mathlib.TextLemmas.{nil-append, append-nil, append_assoc}
use unified_runtime_primitiv.Data.{
  MessageEnvelope, ProcessResult, outcome_value, processing, LastTaskOutcome,
  waiting_for_user_input, task_completed, task_failed,
}
use unified_runtime_primitiv.Data.Sync.{plain_result}
use unified_runtime_primitiv.Exec.{Exec, Result, ok, ⊤, continue, ◌>>◌}
use unified_runtime_primitiv.Agent.{
  set_status, handle_message, default_check_preconditions, default_check_postconditions,
}
use unified_runtime_primitiv.Agent.Verdict.{answer, judge_process}
use unified_runtime_primitiv.Agent.Answers.{Delivers, Answered, handle_message_answers}
use unified_runtime_primitiv.Sample.{extract_text}
use unified_runtime_primitiv.Sdk.Defs.{
  SdkUrpAgent, Sdk, with_conversation, on_conversation, read_result, outcome_of, or_default, gather,
  add_text, response_of, last, sdk_result, sdk_process, sdk_agent,
}
use unified_runtime_primitiv.Sdk.Frame.{SdkRespects, sdk_agent-Respects}

or_default-full : (s : String) → or_default s ≢ ""
or_default-full s = chosen (s == "") refl
  where
    chosen : (b : Bool) → (s == "") ≡ b → (if b then "No text response generated" else s) ≢ ""
    chosen true e h = cc
    chosen false e h = ground (arith, eq_iff s "", e, h)

module _ {C L G K M W I X : Type 0} (sdk : Sdk C L G K M W I X) where
  response_of-full : (o : Option M) → response_of sdk o ≢ ""
  unfolding response_of
  response_of-full none h = cc
  response_of-full (some m) h = or_default-full (gather sdk "" (sdk.content m)) h

  on_conversation-some :
      {A : Type 0} (f : K → Exec (SdkUrpAgent C L G K M W) A) (k : K) (a : SdkUrpAgent C L G K M W)
      → a.world.conversation ≡ some k
      → on_conversation sdk f a ≡ f k a
  unfolding on_conversation with_conversation
  on_conversation-some f k a h = rw h refl

  sdk_process-ok :
      (k : K) (m : MessageEnvelope) (c b d : SdkUrpAgent C L G K M W)
      → c.world.conversation ≡ some k
      → sdk.send_text k (extract_text sdk.str m.payload) c ≡ (ok tt, b)
      → b.world.conversation ≡ some k
      → sdk.run_conversation k b ≡ (ok tt, d)
      → d.world.conversation ≡ some k
      → sdk_process sdk m c ≡ read_result sdk k d
  unfolding sdk_process
  sdk_process-ok k m c b d hc sent hb ran hd =
      ap
        (λ (q : Result ⊤ × SdkUrpAgent C L G K M W).
          continue q (λ _.
            on_conversation sdk sdk.run_conversation >> on_conversation sdk (read_result sdk)))
        (on_conversation-some (λ k. sdk.send_text k (extract_text sdk.str m.payload)) k c hc ∙ sent)
      ∙ ap
          (λ (q : Result ⊤ × SdkUrpAgent C L G K M W).
            continue q (λ _. on_conversation sdk (read_result sdk)))
          (on_conversation-some sdk.run_conversation k b hb ∙ ran)
      ∙ on_conversation-some (read_result sdk) k d hd

module _ {C L G K M W I X : Type 0} (sdk : Sdk C L G K M W I X) where
  -- Which outcome, and which type of event, answers a run that ends in the status `x`.
  pub data EndsAs (x : X) : LastTaskOutcome → String → Type 0 where
    pauses :
        sdk.same_status x sdk.paused ≡ true
        → EndsAs x waiting_for_user_input "WAITING_FOR_USER_INPUT"
    finishes :
        sdk.same_status x sdk.paused ≡ false
        → sdk.same_status x sdk.finished ≡ true
        → EndsAs x task_completed "TASK_COMPLETED"
    fails :
        sdk.same_status x sdk.paused ≡ false
        → sdk.same_status x sdk.finished ≡ false
        → (sdk.same_status x sdk.stuck ≡ true) ⊎ (sdk.same_status x sdk.error ≡ true)
        → EndsAs x task_failed "TASK_FAILED"
    ends_otherwise :
        sdk.same_status x sdk.paused ≡ false
        → sdk.same_status x sdk.finished ≡ false
        → sdk.same_status x sdk.stuck ≡ false
        → sdk.same_status x sdk.error ≡ false
        → EndsAs x LastTaskOutcome.none "NONE"

  -- The texts of a message, one behind the other; an item that is no text has none.
  abbrev pub text_of_item : Option String → String
  text_of_item none = ""
  text_of_item (some t) = t

  unfoldable pub text_of : List I → String
  text_of [] = ""
  text_of (i ∷ is) = join (text_of_item (sdk.item_text i)) (text_of is)

  -- What is answered to the messages that a conversation has given.
  pub data Said (messages : List M) : String → Type 0 where
    no_message : messages ≡ [] → Said messages "No response generated"
    no_text :
        (earlier : List M) (m : M)
        → messages ≡ earlier ++ m ∷ []
        → text_of (sdk.content m) ≡ ""
        → Said messages "No text response generated"
    last_text :
        (earlier : List M) (m : M)
        → messages ≡ earlier ++ m ∷ []
        → (text_of (sdk.content m) == "") ≡ false
        → Said messages (text_of (sdk.content m))

  add_text-join :
      (acc rest : String) (o : Option String)
      → join (add_text acc o) rest ≡ join acc (join (text_of_item o) rest)
  add_text-join acc rest none = ap (join acc) (sym (nil-append rest))
  add_text-join acc rest (some t) = append_assoc acc t rest

  gather-text_of : (acc : String) (is : List I) → gather sdk acc is ≡ join acc (text_of is)
  unfolding gather text_of
  gather-text_of acc [] = sym (append-nil acc)
  gather-text_of acc (i ∷ is) =
      gather-text_of (add_text acc (sdk.item_text i)) is
      ∙ add_text-join acc (text_of is) (sdk.item_text i)

  outcome_of-EndsAs : (x : X) → EndsAs x (outcome_of sdk x) (outcome_value (outcome_of sdk x))
  unfolding outcome_of
  outcome_of-EndsAs x = elim (Bool-cases (sdk.same_status x sdk.paused)) [
    | inl p ↦ rw p (pauses p)
    | inr p ↦ elim (Bool-cases (sdk.same_status x sdk.finished)) [
      | inl f ↦ rw (p, f) (finishes p f)
      | inr f ↦ elim (Bool-cases (sdk.same_status x sdk.stuck)) [
        | inl s ↦ rw (p, f, s) (fails p f (inl s))
        | inr s ↦ elim (Bool-cases (sdk.same_status x sdk.error)) [
          | inl e ↦ rw (p, f, s, e) (fails p f (inr e))
          | inr e ↦ rw (p, f, s, e) (ends_otherwise p f s e)
        ]
      ]
    ]
  ]

  last_split :
      (m : M) (ms : List M)
      → (earlier : List M) × (l : M) × (m ∷ ms ≡ earlier ++ l ∷ []) × (last (m ∷ ms) ≡ some l)
  last_split m [] = ([], m, refl, refl)
  last_split m (n ∷ ms) =
      let (earlier, l, e, f) = last_split n ms in (m ∷ earlier, l, ap (λ ns. m ∷ ns) e, f)

  spoken-Said :
      (messages earlier : List M) (l : M)
      → messages ≡ earlier ++ l ∷ []
      → Said messages (or_default (gather sdk "" (sdk.content l)))
  spoken-Said messages earlier l e =
      let s = text_of (sdk.content l) in
      let same : gather sdk "" (sdk.content l) ≡ s =
        gather-text_of "" (sdk.content l) ∙ nil-append s in
      rw same (elim (Bool-cases (s == "")) [
        | inl empty ↦ rw empty (no_text earlier l e ((eq_iff s "").0 empty))
        | inr full ↦ rw full (last_text earlier l e full)
      ])

  response_of-Said : (messages : List M) → Said messages (response_of sdk (last messages))
  unfolding response_of
  response_of-Said [] = no_message refl
  response_of-Said (m ∷ ms) =
      let (earlier, l, e, f) = last_split m ms in rw f (spoken-Said (m ∷ ms) earlier l e)

module _ {C L G K M W I X : Type 0} (sdk : Sdk C L G K M W I X) (respects : SdkRespects sdk) where
  -- If the package and the bus respect the agent's fields, the callbacks do not raise, and the
  -- agent has a conversation that takes the message's text and whose run returns, then a message
  -- that stands in the mailbox's count is answered, and the answer is recorded too. A run that ends
  -- PAUSED is answered by WAITING_FOR_USER_INPUT, one that ends FINISHED by TASK_COMPLETED, one that
  -- ends STUCK or ERROR by TASK_FAILED, and any other by an event of the type "NONE" (`EndsAs`). The
  -- text of the result is that of the texts of the last message which the conversation has ever
  -- given, or a notice where there is no message or no text (`Said`); it is never empty.
  pub sdk_answers :
      (k : K) (m : MessageEnvelope) (a b d : SdkUrpAgent C L G K M W) (n : ℕ)
      → a.world.conversation ≡ some k
      → sdk.send_text k (extract_text sdk.str m.payload) (set_status processing a) ≡ (ok tt, b)
      → b.world.conversation ≡ some k
      → sdk.run_conversation k b ≡ (ok tt, d)
      → d.world.conversation ≡ some k
      → Delivers (sdk_agent sdk)
      → a.mailbox.unfinished_tasks ≡ suc n
      → let x = sdk.execution_status k d.world.world in
        (outcome : LastTaskOutcome) × (type : String) × (s : String) × EndsAs sdk x outcome type
        × Said sdk d.world.llm_messages s
        × Answered
            (sdk_agent sdk)
            a
            m
            type
            (plain_result outcome s)
            (handle_message (sdk_agent sdk) m a)
        × (s ≢ "")
  unfolding default_check_preconditions default_check_postconditions
  sdk_answers k m a b d n ha sent hb ran hd delivers e =
      let x = sdk.execution_status k d.world.world in
      let messages = d.world.llm_messages in
      let result = sdk_result sdk x messages in
      let c = set_status processing a in
      (
        outcome_of sdk x,
        outcome_value (outcome_of sdk x),
        response_of sdk (last messages),
        outcome_of-EndsAs sdk x,
        response_of-Said sdk messages,
        unfold sdk_result in
            handle_message_answers (sdk_agent sdk) (sdk_agent-Respects sdk respects) m a n
              (outcome_value (outcome_of sdk x)) result delivers e
              (ap
                (λ (q : Result ProcessResult × SdkUrpAgent C L G K M W).
                  answer (judge_process (sdk_agent sdk) m q).0)
                (sdk_process-ok sdk k m c b d ha sent hb ran hd)),
        response_of-full sdk (last messages),
      )
