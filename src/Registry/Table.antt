-- ===== src/Registry/Table.antt =====
-- What a registry promises: a table of factories in which no entry is ever replaced, whatever the
-- order in which it was filled, and two lists of hooks.
use unified_runtime_primitiv.Base.{
  String, Bool, true, false, Option, none, some, List, [], ◌∷◌, ◌++◌, ◌==◌, if◌then◌else◌,
}
use unified_runtime_primitiv.Exec.{Result, ok, raised}
use unified_runtime_primitiv.Base.Dict.{lookup}
use unified_runtime_primitiv.Registry.Defs.{
  AgentFactory, Store, Wording, contains_name, register, register_if_absent, get_factory, clear,
  add_pre_create_hook, add_post_create_hook,
}
use unified_runtime_primitiv.Registry.Runs.{
  RegistryCall, registers, registers_if_absent, adds_pre, adds_post, clears,
}

-- A call, or a question about a name.
pub data Request (F H K : Type 0) : Type 0 where
  calls : RegistryCall F H K → Request F H K
  asks_contains asks_factory : String → Request F H K

-- What comes back, but for the texts of errors: whether the call returned, a truth value, or a
-- factory if there is one.
pub data Reply (F : Type 0) : Type 0 where
  returned : Bool → Reply F
  told : Bool → Reply F
  gave : Option (AgentFactory F) → Reply F

pub record Table (F H K : Type 0) : Type 0 where
  pub entry : String → Option (AgentFactory F)
  pub pre : List H
  pub post : List K

abbrev pub is_some : {A : Type 0} → Option A → Bool
is_some none = false
is_some (some a) = true

module _ {F H K : Type 0} where
  abbrev pub empty_table : Table F H K
  empty_table = record { entry = λ name. none; pre = []; post = [] }

  -- Taken names are not replaced.
  abbrev pub with_entry :
      Option (AgentFactory F) → String → AgentFactory F → Table F H K → Bool × Table F H K
  with_entry none name g t =
      (true, record t { entry = λ n. if name == n then some g else t.entry n })
  with_entry (some h) name g t = (false, t)

  -- The same requests, on a table.
  unfoldable pub table_step : Request F H K → Table F H K → Reply F × Table F H K
  table_step (calls (registers name f d)) t =
      let (new, u) =
        with_entry (t.entry name) name (record { factory_func = f; descriptor = d }) t in
      (returned new, u)
  table_step (calls (registers_if_absent name f d)) t =
      let (new, u) =
        with_entry (t.entry name) name (record { factory_func = f; descriptor = d }) t in
      (told new, u)
  table_step (calls (adds_pre h)) t = (returned true, record t { pre = t.pre ++ h ∷ [] })
  table_step (calls (adds_post k)) t = (returned true, record t { post = t.post ++ k ∷ [] })
  table_step (calls clears) t = (returned true, empty_table)
  table_step (asks_contains name) t = (told (is_some (t.entry name)), t)
  table_step (asks_factory name) t = (gave (t.entry name), t)

  unfoldable pub table_replies : List (Request F H K) → Table F H K → List (Reply F)
  table_replies [] t = []
  table_replies (r ∷ rs) t = let (reply, u) = table_step r t in reply ∷ table_replies rs u

-- What comes back from a method of the registry.
abbrev pub has_returned : {A : Type 0} → Result A → Bool
has_returned (ok a) = true
has_returned (raised e) = false

abbrev pub answer_of : Result Bool → Bool
answer_of (ok b) = b
answer_of (raised e) = false

abbrev pub result_option : {A : Type 0} → Result A → Option A
result_option (ok a) = some a
result_option (raised e) = none

module _ (wording : Wording) {F H K W : Type 0} where
  -- The requests, on the registry.
  unfoldable pub registry_step : Request F H K → Store F H K W → Reply F × Store F H K W
  registry_step (calls (registers name f d)) s =
      let (r, t) = register wording name f d s in (returned (has_returned r), t)
  registry_step (calls (registers_if_absent name f d)) s =
      let (r, t) = register_if_absent name f d s in (told (answer_of r), t)
  registry_step (calls (adds_pre h)) s =
      let (r, t) = add_pre_create_hook h s in (returned (has_returned r), t)
  registry_step (calls (adds_post k)) s =
      let (r, t) = add_post_create_hook k s in (returned (has_returned r), t)
  registry_step (calls clears) s = let (r, t) = clear s in (returned (has_returned r), t)
  registry_step (asks_contains name) s = (told (contains_name name s), s)
  registry_step (asks_factory name) s =
      let (r, t) = get_factory wording name s in (gave (result_option r), t)

  unfoldable pub registry_replies : List (Request F H K) → Store F H K W → List (Reply F)
  registry_replies [] s = []
  registry_replies (r ∷ rs) s = let (reply, t) = registry_step r s in reply ∷ registry_replies rs t

-- The table that a registry stands for.
abbrev pub table_of : {F H K W : Type 0} → Store F H K W → Table F H K
table_of s = record {
  entry = λ name. lookup name s.registry.factories;
  pre = s.registry.pre_create_hooks;
  post = s.registry.post_create_hooks;
}
