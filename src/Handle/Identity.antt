-- ===== src/Handle/Identity.antt =====
-- When the text of a key identifies it.
use Prim.Native.Char.{Char}
use Prim.Native.String.{[], ◌∷◌}
use package.text.Mathlib.TextLemmas.{
  nil-append, cons-append, head-eq_of_cons-eq, tail-eq_of_cons-eq,
}
use mathlib.Core.Path.{ap₂}
use unified_runtime_primitiv.Base.{◌↔◌, ◌≡◌, refl, sym, ◌∙◌, ap, ◌≢◌, String, join}
use unified_runtime_primitiv.Handle.Defs.{AgentKey, key_text, AgentHandle, handle_key, to_dict}

abbrev colon : Char
colon = ":"

-- No character of the text is a colon.
abbrev pub HasNoColon : String → Type 0
HasNoColon [] = Unit
HasNoColon (c ∷ s) = (c ≢ colon) × HasNoColon s

colon-append : (u : String) → join ":" u ≡ colon ∷ u
colon-append u = cons-append colon [] u ∙ ap (λ t. colon ∷ t) (nil-append u)

-- A colon behind no text, and behind a text that begins with another character.
after_none : (u : String) → join [] (join ":" u) ≡ colon ∷ u
after_none u = nil-append (join ":" u) ∙ colon-append u

joined-same :
    (s t u v : String)
    → HasNoColon s
    → HasNoColon t
    → join s (join ":" u) ≡ join t (join ":" v)
    → (s ≡ t) × (u ≡ v)
joined-same [] [] u v h k e = (refl, tail-eq_of_cons-eq (sym (after_none u) ∙ e ∙ after_none v))
joined-same [] (d ∷ t) u v h k e =
    absurd (k.0 (sym (head-eq_of_cons-eq (sym (after_none u) ∙ e ∙ cons-append d t _))))
joined-same (c ∷ s) [] u v h k e =
    absurd (h.0 (head-eq_of_cons-eq (sym (cons-append c s _) ∙ e ∙ after_none v)))
joined-same (c ∷ s) (d ∷ t) u v h k e =
    let f : c ∷ join s (join ":" u) ≡ d ∷ join t (join ":" v) =
      sym (cons-append c s _) ∙ e ∙ cons-append d t _ in
    let (same, rest) = joined-same s t u v h.1 k.1 (tail-eq_of_cons-eq f) in
    (ap₂ (λ x y. x ∷ y) (head-eq_of_cons-eq f) same, rest)

key_text-injective :
    (k l : AgentKey)
    → HasNoColon k.agent_type
    → HasNoColon l.agent_type
    → key_text k ≡ key_text l
    → k ≡ l
unfolding key_text
key_text-injective k l h g e =
    let (type, name) = joined-same k.agent_type l.agent_type k.module_name l.module_name h g e in
    ap₂ (λ t n. record { agent_type = t; module_name = n }) type name

module _ {C W : Type 0} where
  -- Of two handles whose agent types have no colon in them, whatever their module names: their
  -- snapshots give the same text for the key exactly when the handles have the same key.
  pub to_dict-key :
      (h k : AgentHandle C W)
      → HasNoColon (handle_key h).agent_type
      → HasNoColon (handle_key k).agent_type
      → ((to_dict h).key ≡ (to_dict k).key) ↔ (handle_key h ≡ handle_key k)
  unfolding to_dict
  to_dict-key h k free_h free_k =
      (key_text-injective (handle_key h) (handle_key k) free_h free_k, ap key_text)
