-- ===== src/Scenarios/Tables.antt =====
-- The theorem about registries and their tables at a registry with one factory.
use unified_runtime_primitiv.Base.{ℕ, ◌≡◌, refl, true, false, some, List, [], ◌∷◌}
use unified_runtime_primitiv.Registry.{
  AgentFactory, Store, scoped_wording, empty_registry, set_factories, contains_name, get_factory,
  found_factory, register, register_if_absent, clear, add_pre_create_hook,
}
use unified_runtime_primitiv.Registry.Runs.{registers, registers_if_absent, clears, adds_pre}
use unified_runtime_primitiv.Registry.Table.{
  Request, calls, asks_contains, asks_factory, returned, told, gave, registry_step,
  registry_replies, table_replies, table_of,
}
use unified_runtime_primitiv.Registry.Refinement.{replies-refine}
use unified_runtime_primitiv.Scenarios.Bus.{descriptor}

abbrev echo : AgentFactory ℕ
echo = record { factory_func = 3; descriptor = descriptor }

abbrev stocked : Store ℕ ℕ ℕ ℕ
stocked = set_factories (("echo", echo) ∷ []) (record { registry = empty_registry; world = 0 })

abbrev requests : List (Request ℕ ℕ ℕ)
requests =
    calls (registers "echo" 4 descriptor)
    ∷ calls (registers_if_absent "sdk" 5 descriptor)
    ∷ asks_factory "echo"
    ∷ calls (adds_pre 1)
    ∷ calls clears
    ∷ asks_contains "sdk"
    ∷ []

replies :
    registry_replies scoped_wording requests stocked
    ≡ returned false
      ∷ told true
      ∷ gave (some echo)
      ∷ returned true
      ∷ returned true
      ∷ told false
      ∷ []
unfolding registry_replies registry_step register register_if_absent get_factory found_factory clear
    contains_name add_pre_create_hook
replies = refl

replies-refine_example :
    registry_replies scoped_wording requests stocked ≡ table_replies requests (table_of stocked)
replies-refine_example = replies-refine scoped_wording requests stocked
