-- ===== src/Registry/Creation.antt =====
-- The specification of `create_agent`, and the hooks that fail.
use unified_runtime_primitiv.Base.{◌≡◌, refl, ◌∙◌, ap, String, List, [], ◌∷◌}
use unified_runtime_primitiv.Exec.{
  IsOrdinary, Returns, Exec, Exception, cancelled_error, base_exception, Result, ok, raised, ⊤,
  pure, continue, handle,
}
use unified_runtime_primitiv.Registry.Defs.{
  AgentFactory, Store, Wording, Calls, get_factory, log_error, run_hooks, after_factory,
  after_lookup, create_agent,
}

-- Every hook is called on the state that the one before it left, whatever it did.
pub notify : {S B : Type 0} → (B → Exec S ⊤) → List B → S → S
notify call [] s = s
notify call (hook ∷ hooks) s = notify call hooks (call hook s).1

logged : {S : Type 0} (r : Result ⊤) (s : S) → Returns r → handle (r, s) log_error ≡ (ok tt, s)
logged (ok _) s h = refl
logged (raised e) s h = logged_error e s h
  where
    logged_error : {S : Type 0} (e : Exception) (s : S) → IsOrdinary e → log_error e s ≡ (ok tt, s)
    logged_error cancelled_error s h = absurd h
    logged_error (base_exception t) s h = absurd h
    logged_error _ s h = refl

run_hooks-notify :
    {S B : Type 0} (call : B → Exec S ⊤) (hooks : List B) (s : S)
    → ((b : B) (t : S) → Returns (call b t).0)
    → run_hooks call hooks s ≡ (ok tt, notify call hooks s)
unfolding run_hooks notify
run_hooks-notify call [] s h = refl
run_hooks-notify {S} call (hook ∷ hooks) s h =
    let (r, t) = call hook s in
    ap (λ (q : Result ⊤ × S). continue q (λ _. run_hooks call hooks)) (logged r t (h hook s))
    ∙ run_hooks-notify call hooks t h

module _ (wording : Wording) {F H K W X A : Type 0} (calls : Calls F H K W X A) where
  abbrev made : String → X → Result A × Store F H K W → Result A × Store F H K W
  made name x (ok agent, s) =
      (ok agent, notify (λ hook. calls.call_post hook name agent x) s.registry.post_create_hooks s)
  made name x (raised e, s) = (raised e, s)

  abbrev obtained : String → X → Result (AgentFactory F) × Store F H K W → Result A × Store F H K W
  obtained name x (ok factory, s) = made name x (calls.call_factory factory.factory_func x s)
  obtained name x (raised e, s) = (raised e, s)

  -- All pre-create hooks are notified; the factory is looked up in the registry that they leave,
  -- and called; all post-create hooks that are registered by then are notified.
  abbrev pub creation : String → X → Store F H K W → Result A × Store F H K W
  creation name x s =
      let t = notify (λ hook. calls.call_pre hook name x) s.registry.pre_create_hooks s in
      obtained name x (get_factory wording name t)

  module _
      (pre_returns : (b : H) (n : String) (x : X) (s : Store F H K W)
        → Returns (calls.call_pre b n x s).0)
      (post_returns : (b : K) (n : String) (a : A) (x : X) (s : Store F H K W)
        → Returns (calls.call_post b n a x s).0) where
    made-eq :
        (name : String) (x : X) (q : Result A × Store F H K W)
        → continue q (after_factory calls name x) ≡ made name x q
    unfolding after_factory
    made-eq name x (ok agent, s) =
        ap (λ (q : Result ⊤ × Store F H K W). continue q (λ _. pure agent))
          (run_hooks-notify (λ hook. calls.call_post hook name agent x) s.registry.post_create_hooks
            s (λ b t. post_returns b name agent x t))
    made-eq name x (raised e, s) = refl

    obtained-eq :
        (name : String) (x : X) (q : Result (AgentFactory F) × Store F H K W)
        → continue q (after_lookup calls name x) ≡ obtained name x q
    unfolding after_lookup
    obtained-eq name x (ok factory, s) =
        made-eq name x (calls.call_factory factory.factory_func x s)
    obtained-eq name x (raised e, s) = refl

    -- If no hook raises a `BaseException`, a creation is this: all pre-create hooks are called in
    -- order, whatever they raise; the factory is looked up in the registry that they leave; an unknown
    -- name or a factory that raises ends the creation there; then all post-create hooks are called,
    -- and the agent is the one that the factory made.
    pub create_agent-creation :
        (name : String) (x : X) (s : Store F H K W)
        → create_agent wording calls name x s ≡ creation name x s
    unfolding create_agent
    create_agent-creation name x s =
        ap
          (λ (q : Result ⊤ × Store F H K W).
            continue q (λ _ t. continue (get_factory wording name t) (after_lookup calls name x)))
          (run_hooks-notify (λ hook. calls.call_pre hook name x) s.registry.pre_create_hooks s
            (λ b t. pre_returns b name x t))
        ∙ obtained-eq name x _
