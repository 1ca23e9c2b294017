-- ===== src/Registry/Runs.antt =====
-- Sequences of calls on a registry.
use unified_runtime_primitiv.Base.{
  ◌≡◌, refl, ap, String, Bool, true, false, some, List, [], ◌∷◌, arith, if◌then◌else◌, eq_iff,
}
use unified_runtime_primitiv.Base.Dict.{lookup, contains, insert, lookup-insert, contains-lookup}
use unified_runtime_primitiv.Data.{AgentDescriptor}
use unified_runtime_primitiv.Exec.{ok}
use unified_runtime_primitiv.Registry.Defs.{
  AgentFactory, Store, Wording, register_if_absent, register, found_factory, get_factory, clear,
  add_pre_create_hook, add_post_create_hook,
}

pub data RegistryCall (F H K : Type 0) : Type 0 where
  registers registers_if_absent : String → F → AgentDescriptor → RegistryCall F H K
  adds_pre : H → RegistryCall F H K
  adds_post : K → RegistryCall F H K
  clears : RegistryCall F H K

-- A property of the state after a call that tests a condition first.
if-state :
    {S A : Type 0} (P : S → Type 0) (b : Bool) (x y : A × S)
    → (b ≡ true → P x.1)
    → (b ≡ false → P y.1)
    → P (if b then x else y).1
if-state P true x y hx hy = hx refl
if-state P false x y hx hy = hy refl

module _ (wording : Wording) {F H K W : Type 0} where
  unfoldable pub call : RegistryCall F H K → Store F H K W → Store F H K W
  call (registers name f d) s = (register wording name f d s).1
  call (registers_if_absent name f d) s = (register_if_absent name f d s).1
  call (adds_pre h) s = (add_pre_create_hook h s).1
  call (adds_post k) s = (add_post_create_hook k s).1
  call clears s = (clear s).1

  unfoldable pub call_all : List (RegistryCall F H K) → Store F H K W → Store F H K W
  call_all [] s = s
  call_all (c ∷ cs) s = call_all cs (call c s)

-- No call of the list is a `clear`.
abbrev pub KeepsAll : {F H K : Type 0} → List (RegistryCall F H K) → Type 0
KeepsAll [] = Unit
KeepsAll (clears ∷ cs) = ⊥
KeepsAll (c ∷ cs) = KeepsAll cs

module _ (wording : Wording) {F H K W : Type 0} (name : String) (g : AgentFactory F) where
  abbrev Has : Store F H K W → Type 0
  Has s = lookup name s.registry.factories ≡ some g

  register-Has :
      (n : String) (f : F) (d : AgentDescriptor) (s : Store F H K W)
      → Has s
      → Has (register wording n f d s).1 × Has (register_if_absent n f d s).1
  unfolding register register_if_absent
  register-Has n f d s h = (
    if-state Has (contains n s.registry.factories) _ _ (λ e. h) kept,
    if-state Has (contains n s.registry.factories) _ _ (λ e. h) kept,
  )
    where
      kept :
          contains n s.registry.factories ≡ false
          → lookup name
              (insert n (record { factory_func = f; descriptor = d }) s.registry.factories)
            ≡ some g
      kept e = ground (
        arith,
        h,
        contains-lookup n s.registry.factories e,
        eq_iff n name,
        lookup-insert n name (record { factory_func = f; descriptor = d }) s.registry.factories,
      )

  get_factory-Has : (s : Store F H K W) → get_factory wording name s ≡ (ok g, s) → Has s
  unfolding get_factory
  get_factory-Has s h = ground arith

  call_all-Has :
      (cs : List (RegistryCall F H K)) (s : Store F H K W)
      → KeepsAll cs
      → Has s
      → Has (call_all wording cs s)
  unfolding call_all call add_pre_create_hook add_post_create_hook
  call_all-Has [] s k h = h
  call_all-Has (registers n f d ∷ cs) s k h = call_all-Has cs _ k (register-Has n f d s h).0
  call_all-Has (registers_if_absent n f d ∷ cs) s k h =
      call_all-Has cs _ k (register-Has n f d s h).1
  call_all-Has (adds_pre x ∷ cs) s k h = call_all-Has cs _ k h
  call_all-Has (adds_post x ∷ cs) s k h = call_all-Has cs _ k h
  call_all-Has (clears ∷ cs) s k h = absurd k

  -- A factory that is registered under a name is what `get_factory` gives for it after any calls that
  -- do not clear the registry: it is never replaced.
  pub registered_stays :
      (cs : List (RegistryCall F H K)) (s : Store F H K W)
      → KeepsAll cs
      → get_factory wording name s ≡ (ok g, s)
      → let t = call_all wording cs s in get_factory wording name t ≡ (ok g, t)
  unfolding get_factory
  registered_stays cs s k h =
      let t = call_all wording cs s in
      ap (λ o. found_factory wording o name t) (call_all-Has cs s k (get_factory-Has s h))
