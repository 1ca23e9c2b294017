-- ===== src/Scenarios/Registries.antt =====
-- The theorems about registries at small ones: factories, hooks and agents are numbers, and what is
-- called is logged.
use unified_runtime_primitiv.Base.{
  ℕ, zero, suc, ◌≡◌, refl, ◌+◌, String, true, List, [], ◌∷◌, ◌++◌, if◌then◌else◌, ◌==◌,
}
use unified_runtime_primitiv.Exec.{Returns, Result, ok, raised, value_error, ⊤, ◌>>◌}
use unified_runtime_primitiv.Registry.{
  AgentFactory, Store, Calls, global_wording, scoped_wording, empty_registry, set_factories,
  contains_name, size, get_registered_descriptors, get_factory, found_factory, register,
  register_if_absent, run_hooks, add_pre_create_hook, add_post_create_hook, registry_repr,
  comma_join, after_factory, after_lookup, create_agent,
}
use unified_runtime_primitiv.Registry.Global.{
  get_agent_factory, create_agent_globally, add_pre_create_hook_globally,
  add_post_create_hook_globally,
}
use unified_runtime_primitiv.Registry.Laws.{register_new}
use unified_runtime_primitiv.Registry.Creation.{creation, create_agent-creation}
use unified_runtime_primitiv.Registry.Runs.{
  RegistryCall, registers, registers_if_absent, adds_pre, call_all, registered_stays,
}
use unified_runtime_primitiv.Scenarios.Bus.{descriptor}

abbrev NatStore : Type 0
NatStore = Store ℕ ℕ ℕ (List ℕ)

abbrev logs : ℕ → NatStore → NatStore
logs n s = record s { world = s.world ++ n ∷ [] }

-- Hook 0 before a creation raises.
abbrev calls_before : ℕ → String → ℕ → NatStore → Result ⊤ × NatStore
calls_before zero name x s = (raised (value_error "hook"), logs 0 s)
calls_before h name x s = (ok tt, logs h s)

abbrev calls : Calls ℕ ℕ ℕ (List ℕ) ℕ ℕ
calls = record {
  call_factory = λ f x s. (ok (f + x), logs f s);
  call_pre = calls_before;
  call_post = λ k name a x s. (ok tt, logs (k + a) s);
}

abbrev blank : NatStore
blank = record { registry = empty_registry; world = [] }

abbrev echo_factory : AgentFactory ℕ
echo_factory = record { factory_func = 3; descriptor = descriptor }

abbrev stocked : NatStore
stocked = set_factories (("echo", echo_factory) ∷ []) blank

abbrev hooked : NatStore
hooked = record stocked {
  registry = record stocked.registry { pre_create_hooks = 0 ∷ 1 ∷ []; post_create_hooks = 7 ∷ [] };
}

-- A hook that raises stops neither the other hooks nor the creation.
hooked_creation :
    create_agent_globally calls "echo" 4 hooked
    ≡ (ok 7, record hooked { world = 0 ∷ 1 ∷ 3 ∷ 14 ∷ [] })
unfolding create_agent get_factory found_factory run_hooks after_factory after_lookup
hooked_creation = refl

-- The hooks are kept in the order in which they were added.
added_hooks :
    (add_pre_create_hook_globally 0
        >> add_pre_create_hook_globally 1
        >> add_post_create_hook_globally 7)
      stocked
    ≡ (ok tt, hooked)
unfolding add_pre_create_hook add_post_create_hook
added_hooks = refl

-- The text of a number, for small ones.
abbrev digit : ℕ → String
digit zero = "0"
digit (suc zero) = "1"
digit _ = "many"

shown : registry_repr digit stocked ≡ "AgentRegistry(size=1, registered_types=[echo])"
unfolding registry_repr size comma_join
shown = refl

unknown_creation : get_agent_factory "sdk" stocked ≡ (
  raised (
      value_error
        "Unknown agent type 'sdk'. Available types: echo. Use register_agent() to add custom agent types."),
  stocked,
)
unfolding get_factory found_factory global_wording
unknown_creation = refl

register_new_example :
    let t : NatStore = set_factories (("echo", echo_factory) ∷ []) blank in
    (register global_wording "echo" 3 descriptor blank ≡ (ok tt, t))
    × (register_if_absent "echo" 3 descriptor blank ≡ (ok true, t))
    × (get_factory global_wording "echo" t ≡ (ok echo_factory, t))
    × (contains_name "sdk" t ≡ (if "echo" == "sdk" then true else contains_name "sdk" blank))
    × (size t ≡ size blank + 1)
    × (get_registered_descriptors t ≡ get_registered_descriptors blank ++ descriptor ∷ [])
register_new_example =
    register_new global_wording "echo" "sdk" 3 descriptor blank (unfold contains_name in refl)

stocked_gives : get_factory scoped_wording "echo" stocked ≡ (ok echo_factory, stocked)
unfolding get_factory found_factory
stocked_gives = refl

before-Returns : (b : ℕ) (n : String) (x : ℕ) (s : NatStore) → Returns (calls.call_pre b n x s).0
before-Returns zero n x s = tt
before-Returns (suc b) n x s = tt

create_agent-creation_example :
    create_agent scoped_wording calls "echo" 4 hooked
    ≡ creation scoped_wording calls "echo" 4 hooked
create_agent-creation_example =
    create_agent-creation scoped_wording calls before-Returns (λ b n a x s. tt) "echo" 4 hooked

abbrev work : List (RegistryCall ℕ ℕ ℕ)
work = registers "sdk" 1 descriptor ∷ registers_if_absent "echo" 2 descriptor ∷ adds_pre 9 ∷ []

registered_stays_example :
    let t = call_all scoped_wording work stocked in
    get_factory scoped_wording "echo" t ≡ (ok echo_factory, t)
registered_stays_example =
    registered_stays scoped_wording "echo" echo_factory work stocked tt stocked_gives
