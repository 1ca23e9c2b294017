-- ===== src/Registry/Defs.antt =====
-- The registry's state, its methods and the creation of agents.

use unified_runtime_primitiv.Base.{
  ℕ, String, Bool, true, false, Option, none, some, List, [], ◌∷◌, ◌++◌, map, length, join,
  if◌then◌else◌,
}
use unified_runtime_primitiv.Base.Sorting.{sort_by}
use unified_runtime_primitiv.Base.Dict.{Dict, lookup, contains, insert, keys, values}
use unified_runtime_primitiv.Data.{AgentDescriptor}
use unified_runtime_primitiv.Exec.{
  Exec, Exception, value_error, cancelled_error, base_exception, ok, ⊤, pure, raise, gets, modify,
  ◌>>=◌, ◌>>◌, try,
}

-- `F` are the factory functions, `H` and `K` the hooks before and after a creation.
pub record AgentFactory (F : Type 0) : Type 0 where
  pub factory_func : F
  pub descriptor : AgentDescriptor

pub record Registry (F H K : Type 0) : Type 0 where
  pub factories : Dict (AgentFactory F)
  pub pre_create_hooks : List H
  pub post_create_hooks : List K

-- The registry and the rest of the program, which factories and hooks change.
pub record Store (F H K W : Type 0) : Type 0 where
  pub registry : Registry F H K
  pub world : W

-- Python's `sorted` on texts, and `", ".join`.
unfoldable pub sorted : List String → List String
unfolding sort_by
sorted = sort_by (λ s. s)

unfoldable pub comma_join : List String → String
comma_join [] = ""
comma_join (s ∷ []) = s
comma_join (s ∷ t ∷ ss) = join s (join ", " (comma_join (t ∷ ss)))

-- The list of names in an error message.
unfoldable pub available_list : List String → String
unfolding comma_join
available_list [] = "none registered"
available_list (s ∷ ss) = comma_join (s ∷ ss)

-- What is behind a scope's error messages, from the name and the available names.
pub record Wording : Type 0 where
  pub already_registered : String → String
  pub unknown_type : String → String → String

abbrev quoted : String → String
quoted name = join "'" (join name "'")

unfoldable pub global_wording : Wording
global_wording = record {
  already_registered = λ name. join "Agent factory " (join (quoted name) " already registered");
  unknown_type = λ name available. join "Unknown agent type " (
      join (quoted name) (
        join ". Available types: "
          (join available ". Use register_agent() to add custom agent types.")));
}

unfoldable pub scoped_wording : Wording
scoped_wording = record {
  already_registered = λ name.
      join "Agent factory " (join (quoted name) " already registered in this registry instance");
  unknown_type = λ name available. join "Unknown agent type " (
      join (quoted name)
        (join " in this registry instance. Available types: " (join available ".")));
}

-- `AgentRegistry.__init__`, and the module's globals.
abbrev pub empty_registry : {F H K : Type 0} → Registry F H K
empty_registry = record { factories = []; pre_create_hooks = []; post_create_hooks = [] }

module _ {F H K W : Type 0} where
  abbrev pub set_factories : Dict (AgentFactory F) → Store F H K W → Store F H K W
  set_factories d s = record s { registry = record s.registry { factories = d } }

  unfoldable pub contains_name : String → Store F H K W → Bool
  contains_name name s = contains name s.registry.factories

  unfoldable pub size : Store F H K W → ℕ
  size s = length s.registry.factories

  -- `AgentRegistry.__repr__`, over the text of a number.
  unfoldable pub registry_repr : (ℕ → String) → Store F H K W → String
  unfolding size comma_join
  registry_repr str s = join "AgentRegistry(size=" (
      join (str (size s))
        (join ", registered_types=[" (join (comma_join (keys s.registry.factories)) "])")))

  unfoldable pub clear : Exec (Store F H K W) ⊤
  clear = modify λ s. record s { registry = empty_registry }

  unfoldable pub add_pre_create_hook : H → Exec (Store F H K W) ⊤
  add_pre_create_hook hook = modify λ s. record s {
    registry = record s.registry { pre_create_hooks = s.registry.pre_create_hooks ++ hook ∷ [] };
  }

  unfoldable pub add_post_create_hook : K → Exec (Store F H K W) ⊤
  add_post_create_hook hook = modify λ s. record s {
    registry = record s.registry { post_create_hooks = s.registry.post_create_hooks ++ hook ∷ [] };
  }

  unfoldable pub get_registered_descriptors : Store F H K W → List AgentDescriptor
  get_registered_descriptors s = map (λ f. f.descriptor) (values s.registry.factories)

  abbrev add_factory : String → F → AgentDescriptor → Store F H K W → Store F H K W
  add_factory name f d s =
      set_factories (insert name (record { factory_func = f; descriptor = d }) s.registry.factories)
        s

  unfoldable pub register_if_absent : String → F → AgentDescriptor → Exec (Store F H K W) Bool
  register_if_absent name f d s =
      if contains name s.registry.factories
      then (ok false, s)
      else (ok true, add_factory name f d s)

module _ (wording : Wording) {F H K W : Type 0} where
  unfoldable pub register : String → F → AgentDescriptor → Exec (Store F H K W) ⊤
  register name f d s =
      if contains name s.registry.factories
      then raise (value_error (wording.already_registered name)) s
      else (ok tt, add_factory name f d s)

  unfoldable pub unknown_message : String → Store F H K W → String
  unfolding available_list sorted
  unknown_message name s =
      wording.unknown_type name (available_list (sorted (keys s.registry.factories)))

  unfoldable pub found_factory :
      Option (AgentFactory F) → String → Exec (Store F H K W) (AgentFactory F)
  unfolding unknown_message
  found_factory none name s = raise (value_error (unknown_message name s)) s
  found_factory (some f) name s = pure f s

  unfoldable pub get_factory : String → Exec (Store F H K W) (AgentFactory F)
  unfolding found_factory
  get_factory name s = found_factory (lookup name s.registry.factories) name s

-- What calling the factories and the hooks does: they are given the name, the agent and the other
-- arguments `X`, may raise, and may change the registry too.
pub record Calls (F H K W X A : Type 0) : Type 0 where
  pub call_factory : F → X → Exec (Store F H K W) A
  pub call_pre : H → String → X → Exec (Store F H K W) ⊤
  pub call_post : K → String → A → X → Exec (Store F H K W) ⊤

-- `except Exception: log`
abbrev pub log_error : {S : Type 0} → Exception → Exec S ⊤
log_error cancelled_error = raise cancelled_error
log_error (base_exception t) = raise (base_exception t)
log_error _ = pure tt

-- `for hook in hooks: try: hook(…) except Exception: log`
unfoldable pub run_hooks : {S B : Type 0} → (B → Exec S ⊤) → List B → Exec S ⊤
run_hooks call [] = pure tt
run_hooks call (hook ∷ hooks) = do try (call hook) log_error; run_hooks call hooks

module _ {F H K W X A : Type 0} (calls : Calls F H K W X A) where
  -- `create_agent`, once the factory has made the agent, and once the factory is found.
  unfoldable pub after_factory : String → X → A → Exec (Store F H K W) A
  after_factory name x agent = do
    post_hooks ← gets (λ s. s.registry.post_create_hooks)
    run_hooks (λ hook. calls.call_post hook name agent x) post_hooks
    pure agent

  unfoldable pub after_lookup : String → X → AgentFactory F → Exec (Store F H K W) A
  after_lookup name x factory = do
    agent ← calls.call_factory factory.factory_func x
    after_factory name x agent

-- Each list of hooks is copied when its turn comes.
unfoldable pub create_agent :
    Wording → {F H K W X A : Type 0} → Calls F H K W X A → String → X → Exec (Store F H K W) A
create_agent wording calls name x = do
  pre_hooks ← gets (λ s. s.registry.pre_create_hooks)
  run_hooks (λ hook. calls.call_pre hook name x) pre_hooks
  factory ← get_factory wording name
  after_lookup calls name x factory
