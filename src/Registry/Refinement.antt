-- ===== src/Registry/Refinement.antt =====
-- A registry does what its table says.
use mathlib.Core.Path.{fun_ext}
use unified_runtime_primitiv.Base.{
  ◌≡◌, refl, sym, ◌∙◌, ap, String, Bool, true, false, Option, none, some, List, [], ◌∷◌,
  if◌then◌else◌, ◌==◌, arith, inl, inr, Option-cases,
}
use unified_runtime_primitiv.Base.Dict.{lookup, insert, lookup-insert}
use unified_runtime_primitiv.Data.{AgentDescriptor}
use unified_runtime_primitiv.Exec.{value_error, Result, ok, raised, ⊤}
use unified_runtime_primitiv.Registry.Defs.{
  AgentFactory, Store, Wording, contains_name, register, register_if_absent, get_factory,
  found_factory, clear, add_pre_create_hook, add_post_create_hook, set_factories,
}
use unified_runtime_primitiv.Registry.Runs.{
  registers, registers_if_absent, adds_pre, adds_post, clears,
}
use unified_runtime_primitiv.Registry.Table.{
  Request, calls, asks_contains, asks_factory, Reply, returned, told, gave, Table, with_entry,
  is_some, table_step, table_replies, has_returned, answer_of, result_option, registry_step,
  registry_replies, table_of,
}

contains-is_some :
    {A : Type 0} (o : Option A) → (elim o [ none ↦ false | some _ ↦ true ]) ≡ is_some o
contains-is_some none = refl
contains-is_some (some a) = refl

-- A registration in a table, where an entry for the name is known to be or not to be.
abbrev enters :
    {F H K : Type 0}
    → (Bool → Reply F)
    → Option (AgentFactory F)
    → String
    → AgentFactory F
    → Table F H K
    → Reply F × Table F H K
enters reply o name g t = let (new, u) = with_entry o name g t in (reply new, u)

module _ (wording : Wording) {F H K W : Type 0} where
  -- The reply to a request, and the table afterwards.
  abbrev seen : Reply F × Store F H K W → Reply F × Table F H K
  seen (reply, s) = (reply, table_of s)

  table-insert :
      (name : String) (g : AgentFactory F) (s : Store F H K W)
      → table_of (set_factories (insert name g s.registry.factories) s) ≡ record (table_of s) {
        entry = λ n. if name == n then some g else lookup n s.registry.factories;
      }
  table-insert name g s =
      ap (λ e. record (table_of s) { entry = e })
        (fun_ext λ n. lookup-insert name n g s.registry.factories)

  -- Registering a free name, and a taken one.
  register-free :
      (name : String) (f : F) (d : AgentDescriptor) (s : Store F H K W)
      → lookup name s.registry.factories ≡ none
      → let g : AgentFactory F = record { factory_func = f; descriptor = d } in
        let t = set_factories (insert name g s.registry.factories) s in
        (register wording name f d s ≡ (ok tt, t)) × (register_if_absent name f d s ≡ (ok true, t))
  unfolding register register_if_absent
  register-free name f d s free = ground arith

  register-taken :
      (name : String) (f : F) (d : AgentDescriptor) (s : Store F H K W) (h : AgentFactory F)
      → lookup name s.registry.factories ≡ some h
      → (register wording name f d s ≡ (raised (value_error (wording.already_registered name)), s))
        × (register_if_absent name f d s ≡ (ok false, s))
  unfolding register register_if_absent
  register-taken name f d s h taken = ground arith

  found-gave :
      (o : Option (AgentFactory F)) (name : String) (s : Store F H K W)
      → seen (let (r, t) = found_factory wording o name s in (gave (result_option r), t))
        ≡ (gave o, table_of s)
  unfolding found_factory
  found-gave none name s = refl
  found-gave (some g) name s = refl

  step-refines :
      (r : Request F H K) (s : Store F H K W)
      → seen (registry_step wording r s) ≡ table_step r (table_of s)
  unfolding registry_step table_step
  step-refines (calls (registers name f d)) s =
      let g : AgentFactory F = record { factory_func = f; descriptor = d } in
      elim (Option-cases (lookup name s.registry.factories)) [
        | inl free ↦
            ap (λ (q : Result ⊤ × Store F H K W). seen (returned (has_returned q.0), q.1))
              (register-free name f d s free).0
            ∙ ap (λ t. (returned true, t)) (table-insert name g s)
            ∙ ap (λ o. enters returned o name g (table_of s)) (sym free)
        | inr (h, taken) ↦
            ap (λ (q : Result ⊤ × Store F H K W). seen (returned (has_returned q.0), q.1))
              (register-taken name f d s h taken).0
            ∙ ap (λ o. enters returned o name g (table_of s)) (sym taken)
      ]
  step-refines (calls (registers_if_absent name f d)) s =
      let g : AgentFactory F = record { factory_func = f; descriptor = d } in
      elim (Option-cases (lookup name s.registry.factories)) [
        | inl free ↦
            ap (λ (q : Result Bool × Store F H K W). seen (told (answer_of q.0), q.1))
              (register-free name f d s free).1
            ∙ ap (λ t. (told true, t)) (table-insert name g s)
            ∙ ap (λ o. enters told o name g (table_of s)) (sym free)
        | inr (h, taken) ↦
            ap (λ (q : Result Bool × Store F H K W). seen (told (answer_of q.0), q.1))
              (register-taken name f d s h taken).1
            ∙ ap (λ o. enters told o name g (table_of s)) (sym taken)
      ]
  step-refines (calls (adds_pre h)) s = unfold add_pre_create_hook in refl
  step-refines (calls (adds_post k)) s = unfold add_post_create_hook in refl
  step-refines (calls clears) s = unfold clear in refl
  step-refines (asks_contains name) s =
      unfold contains_name in
      ap (λ b. (told b, table_of s)) (contains-is_some (lookup name s.registry.factories))
  step-refines (asks_factory name) s =
      unfold get_factory in found-gave (lookup name s.registry.factories) name s

  -- Whatever is requested of a registry, it replies what the table replies for which it stands: so
  -- registries that stand for the same table, whatever the order of their entries, cannot be told
  -- apart by these requests.
  pub replies-refine :
      (rs : List (Request F H K)) (s : Store F H K W)
      → registry_replies wording rs s ≡ table_replies rs (table_of s)
  unfolding registry_replies table_replies
  replies-refine [] s = refl
  replies-refine (r ∷ rs) s =
      let (reply, t) = registry_step wording r s in
      ap (λ xs. reply ∷ xs) (replies-refine rs t)
      ∙ ap (λ (q : Reply F × Table F H K). q.0 ∷ table_replies rs q.1) (step-refines r s)
