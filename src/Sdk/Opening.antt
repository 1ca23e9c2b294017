-- ===== src/Sdk/Opening.antt =====
-- What the initialisation of an SDK agent does: the conversation that it opens.
use unified_runtime_primitiv.Base.{
  ◌≡◌, refl, sym, subst, ◌∙◌, ap, String, Bool, true, false, Option, none, some, if◌then◌else◌,
}
use unified_runtime_primitiv.Data.{
  Value, dict, end, find_field, AgentContext, uninitialized, initialized,
}
use unified_runtime_primitiv.Exec.{
  Exec, Exception, value_error, Result, ok, raised, ⊤, continue, try, handle, modify,
}
use unified_runtime_primitiv.Agent.{set_status, initialize, initialize_at, set_callback}
use unified_runtime_primitiv.Sdk.Defs.{
  SdkUrpAgent, Sdk, get_or, choose_id, fresh_for, llm_of, set_fields, sdk_on_initialize, sdk_agent,
}
use unified_runtime_primitiv.Sdk.Frame.{SdkRespects, sdk_agent-Respects}

-- An action whose continuation returned has returned itself.
returned_first :
    {S A B : Type 0} (q : Result A × S) (f : A → Exec S B) (b : B)
    → (continue q f).0 ≡ ok b
    → (x : A) × (q ≡ (ok x, q.1)) × (continue q f ≡ f x q.1)
returned_first (ok x, s) f b e = (x, refl, refl)
returned_first (raised x, s) f b e = absurd cc

module _ {C L G K M W I X : Type 0} (sdk : Sdk C L G K M W I X) where
  -- How the id of the conversation comes about: none was asked for, or one that is not true for
  -- Python, and a fresh one was made; or the one that was asked for was parsed; or it is none, so a
  -- fresh one was made in its place.
  pub data ChosenId (asked : Option Value) (id : String) : Type 0 where
    fresh :
        (s t : SdkUrpAgent C L G K M W)
        → ((v : Value) → asked ≡ some v → sdk.truthy v ≡ false)
        → sdk.new_uuid s ≡ (ok id, t)
        → ChosenId asked id
    parsed :
        (v : Value) (s t : SdkUrpAgent C L G K M W)
        → asked ≡ some v
        → sdk.truthy v ≡ true
        → sdk.parse_uuid v s ≡ (ok id, t)
        → ChosenId asked id
    replaced :
        (v : Value) (reason : String) (s t u : SdkUrpAgent C L G K M W)
        → asked ≡ some v
        → sdk.truthy v ≡ true
        → sdk.parse_uuid v s ≡ (raised (value_error reason), t)
        → sdk.new_uuid t ≡ (ok id, u)
        → ChosenId asked id

  parsed_or_fresh :
      (v : Value) (id : String) (s t : SdkUrpAgent C L G K M W)
      (q : Result String × SdkUrpAgent C L G K M W)
      → sdk.truthy v ≡ true
      → sdk.parse_uuid v s ≡ q
      → handle q (fresh_for sdk) ≡ (ok id, t)
      → ChosenId (some v) id
  unfolding fresh_for
  parsed_or_fresh v id s t (ok x, u) b e h = parsed v s t refl b (e ∙ h)
  parsed_or_fresh v id s t (raised (value_error reason), u) b e h =
      replaced v reason s u t refl b e h
  parsed_or_fresh v id s t (raised x, u) b e h = absurd cc

  chosen_for :
      (b : Bool) (v : Value) (id : String) (s t : SdkUrpAgent C L G K M W)
      → sdk.truthy v ≡ b
      → (if b then try (sdk.parse_uuid v) (fresh_for sdk) else sdk.new_uuid) s ≡ (ok id, t)
      → ChosenId (some v) id
  chosen_for true v id s t e h = parsed_or_fresh v id s t (sdk.parse_uuid v s) e refl h
  chosen_for false v id s t e h =
      fresh s t (λ w same. let q : v ≡ w = cc in ap sdk.truthy (sym q) ∙ e) h

  chosen :
      (asked : Option Value) (id : String) (s t : SdkUrpAgent C L G K M W)
      → choose_id sdk asked s ≡ (ok id, t)
      → ChosenId asked id
  unfolding choose_id
  chosen none id s t h = fresh s t (λ v e. absurd cc) h
  chosen (some v) id s t h = chosen_for (sdk.truthy v) v id s t refl h

  -- An initialisation that returned has opened a conversation, in the workspace and with the id that
  -- were asked for, and has kept it.
  pub record Opened (context : AgentContext) (q : Result ⊤ × SdkUrpAgent C L G K M W) : Type 0 where
    pub agent : G
    pub id : String
    pub conversation : K
    pub before : SdkUrpAgent C L G K M W
    pub after : SdkUrpAgent C L G K M W
    pub chosen_id : ChosenId (find_field "conversation_id" context.configuration) id
    pub made :
        let path = get_or sdk.default_workspace "workspace_path" context.configuration in
        sdk.make_conversation agent path id before ≡ (ok conversation, after)
    pub kept : q ≡ set_fields (λ f. record f { conversation = some conversation }) after

  pub on_initialize-Opened :
      (context : AgentContext) (a : SdkUrpAgent C L G K M W)
      → (sdk_on_initialize sdk context a).0 ≡ ok tt
      → Opened context (sdk_on_initialize sdk context a)
  unfolding sdk_on_initialize
  on_initialize-Opened context a e0 =
      let config = context.configuration in
      let path = get_or sdk.default_workspace "workspace_path" config in
      let (_, _, c1) = returned_first (sdk.makedirs path _) _ tt e0 in
      let e1 = ap (λ q. q.0) (sym c1) ∙ e0 in
      let (llm, _, c2) =
        returned_first (llm_of sdk (get_or (dict end) "llm_config" config) _) _ tt e1 in
      let e2 = ap (λ q. q.0) (sym c2) ∙ e1 in
      let (g, _, c3) = returned_first (sdk.make_agent llm _) _ tt e2 in
      let e3 = ap (λ q. q.0) (sym c3) ∙ e2 in
      let (id, i, c4) =
        returned_first (choose_id sdk (find_field "conversation_id" config) _) _ tt e3 in
      let e4 = ap (λ q. q.0) (sym c4) ∙ e3 in
      let (k, made, c5) = returned_first (sdk.make_conversation g path id _) _ tt e4 in
      record {
        agent = g;
        id = id;
        conversation = k;
        before = _;
        after = _;
        chosen_id = chosen (find_field "conversation_id" config) id _ _ i;
        made = made;
        kept = c1 ∙ c2 ∙ c3 ∙ c4 ∙ c5;
      }

  -- How `initialize` of an agent that is not initialised ends: the conversation is open and the agent
  -- INITIALIZED; or the hook raised and the status is as before.
  pub data Initialised (context : AgentContext) (q : Result ⊤ × SdkUrpAgent C L G K M W)
      : Type 0 where
    opens :
        (o : Result ⊤ × SdkUrpAgent C L G K M W)
        → Opened context o
        → q ≡ (ok tt, set_status initialized o.1)
        → Initialised context q
    fails :
        (e : Exception) → q.0 ≡ raised e → q.1.state.status ≡ uninitialized → Initialised context q

  after_hook :
      (context : AgentContext) (o : Result ⊤ × SdkUrpAgent C L G K M W)
      → (o.0 ≡ ok tt → Opened context o)
      → o.1.state.status ≡ uninitialized
      → Initialised context (continue o (λ _. modify (set_status initialized)))
  after_hook context (ok _, b) h s = opens (ok tt, b) (h refl) refl
  after_hook context (raised e, b) h s = fails e refl s

module _ {C L G K M W I X : Type 0} (sdk : Sdk C L G K M W I X) (respects : SdkRespects sdk) where
  -- If the package and the bus respect the agent's fields: `initialize` of an SDK agent that is not
  -- initialised either returns, and then the agent is INITIALIZED and keeps a conversation that was
  -- made in the workspace asked for. Its id is the one asked for, parsed; or a fresh one, if none was
  -- asked for or a value that counts as false, or if the parsing gave a ValueError. Or a step raised,
  -- any other error of the parsing included: then the status is UNINITIALIZED still.
  pub initialize-Initialised :
      (context : AgentContext) (c : C) (a : SdkUrpAgent C L G K M W)
      → a.state.status ≡ uninitialized
      → Initialised sdk context (initialize (sdk_agent sdk) context c a)
  unfolding initialize set_callback
  initialize-Initialised context c a e =
      let b = record a { context = some context; emit_callback = some c } in
      let l = ((sdk_agent-Respects sdk respects).on_initialize context).at b in
      subst (λ s. Initialised sdk context (initialize_at (sdk_agent sdk) s context c a)) (sym e)
        (after_hook sdk context (sdk_on_initialize sdk context b)
          (on_initialize-Opened sdk context b) (l.same_status ∙ e))
