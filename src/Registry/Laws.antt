-- ===== src/Registry/Laws.antt =====
-- Registration: what a call of `register` or `register_if_absent` changes, and what it keeps.
use mathlib.Core.List.{map-append}
use text.Mathlib.TextPositions.{eq_refl}
use unified_runtime_primitiv.Base.{
  ◌+◌, ◌≡◌, sym, ◌∙◌, ap, String, true, false, some, [], ◌∷◌, ◌++◌, length-append, arith, ◌==◌,
  if◌then◌else◌,
}
use unified_runtime_primitiv.Base.Dict.{lookup, insert_new, lookup-insert, contains-lookup}
use unified_runtime_primitiv.Data.{AgentDescriptor}
use unified_runtime_primitiv.Exec.{value_error, ok, raised}
use unified_runtime_primitiv.Registry.Defs.{
  AgentFactory, Store, Wording, set_factories, contains_name, size, get_registered_descriptors,
  register_if_absent, register, get_factory,
}

module _ (wording : Wording) {F H K W : Type 0} where
  -- A name that is not taken: `register` and `register_if_absent` return, and both append the
  -- factory to the registry and leave all else. Then its name gives this factory, every name is
  -- contained that was or is the new one, the size is one more, and the descriptor comes last.
  pub register_new :
      (name other : String) (f : F) (d : AgentDescriptor) (s : Store F H K W)
      → contains_name name s ≡ false
      → let factory : AgentFactory F = record { factory_func = f; descriptor = d } in
        let t : Store F H K W = set_factories (s.registry.factories ++ (name, factory) ∷ []) s in
        (register wording name f d s ≡ (ok tt, t))
        × (register_if_absent name f d s ≡ (ok true, t))
        × (get_factory wording name t ≡ (ok factory, t))
        × (contains_name other t ≡ (if name == other then true else contains_name other s))
        × (size t ≡ size s + 1)
        × (get_registered_descriptors t ≡ get_registered_descriptors s ++ d ∷ [])
  unfolding register register_if_absent get_factory contains_name size get_registered_descriptors
  register_new name other f d s h =
      let factory : AgentFactory F = record { factory_func = f; descriptor = d } in
      let d₀ = s.registry.factories in
      let free = contains-lookup name d₀ h in
      let e = insert_new name factory d₀ free in
      let later : (n : String)
          → lookup n (d₀ ++ (name, factory) ∷ [])
            ≡ (if name == n then some factory else lookup n d₀) =
        λ n. ap (lookup n) (sym e) ∙ lookup-insert name n factory d₀ in
      (
        rw (h, e),
        rw (h, e),
        rw (later name, eq_refl name),
        ground (arith, later other),
        length-append d₀ ((name, factory) ∷ []),
        simp map-append,
      )

  -- A taken name: `register` raises, `register_if_absent` returns false, and neither changes
  -- anything; the name still gives the factory that was registered.
  register_taken :
      (name : String) (f : F) (d : AgentDescriptor) (s : Store F H K W) (g : AgentFactory F)
      → get_factory wording name s ≡ (ok g, s)
      → (register wording name f d s ≡ (raised (value_error (wording.already_registered name)), s))
        × (register_if_absent name f d s ≡ (ok false, s))
        × (contains_name name s ≡ true)
  unfolding register register_if_absent get_factory contains_name
  register_taken name f d s g h = ground arith
