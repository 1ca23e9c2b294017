-- ===== src/Registry/Global.antt =====
-- The functions of the module urp/agent_registry.py, on its own registry.
use unified_runtime_primitiv.Base.{String, Bool, List}
use unified_runtime_primitiv.Data.{AgentDescriptor}
use unified_runtime_primitiv.Exec.{Exec, ⊤}
use unified_runtime_primitiv.Registry.Defs.{
  AgentFactory, Store, Calls, global_wording, register, register_if_absent, get_factory,
  get_registered_descriptors, create_agent, clear, add_pre_create_hook, add_post_create_hook,
}

module _ {F H K W : Type 0} where
  abbrev pub register_agent : String → F → AgentDescriptor → Exec (Store F H K W) ⊤
  register_agent = register global_wording

  abbrev pub register_agent_if_absent : String → F → AgentDescriptor → Exec (Store F H K W) Bool
  register_agent_if_absent = register_if_absent

  abbrev pub get_agent_factory : String → Exec (Store F H K W) (AgentFactory F)
  get_agent_factory = get_factory global_wording

  abbrev pub get_registered_agent_descriptors : Store F H K W → List AgentDescriptor
  get_registered_agent_descriptors = get_registered_descriptors

  abbrev pub add_pre_create_hook_globally : H → Exec (Store F H K W) ⊤
  add_pre_create_hook_globally = add_pre_create_hook

  abbrev pub add_post_create_hook_globally : K → Exec (Store F H K W) ⊤
  add_post_create_hook_globally = add_post_create_hook

  abbrev pub reset_registry_for_tests : Exec (Store F H K W) ⊤
  reset_registry_for_tests = clear

abbrev pub create_agent_globally :
    {F H K W X A : Type 0} → Calls F H K W X A → String → X → Exec (Store F H K W) A
create_agent_globally = create_agent global_wording
