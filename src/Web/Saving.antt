-- ===== src/Web/Saving.antt =====
-- The list of conversations after a save.
use unified_runtime_primitiv.Base.{
  ◌≡◌, refl, sym, ◌∙◌, ap, ◌≢◌, String, Bool, true, false, Option, none, some, List, [], ◌∷◌, arith,
  ◌==◌, if◌then◌else◌, eq_iff, Bool-cases, inl, inr,
}
use unified_runtime_primitiv.Data.{Value, text, Fields, end, field, find_field}
use unified_runtime_primitiv.Exec.{Result, ok}
use unified_runtime_primitiv.Web.Conversations.{
  Files, saved, set_field, is_text, rename_at, rename_in, with_entry, loaded, list_conversations,
  save_conversation,
}

abbrev pub has_id : String → Option Value → Bool
has_id id none = false
has_id id (some v) = is_text id v

-- The name that the list gives for a conversation.
abbrev pub name_listed : String → List Fields → Option Value
name_listed id [] = none
name_listed id (c ∷ cs) =
    if has_id id (find_field "id" c) then find_field "name" c else name_listed id cs

-- Every conversation has an id.
abbrev pub AllHaveId : List Fields → Type 0
AllHaveId [] = Unit
AllHaveId (c ∷ cs) = (find_field "id" c ≢ none) × AllHaveId cs

pub find_field-set_field :
    (k j : String) (v : Value) (d : Fields)
    → find_field j (set_field k v d) ≡ (if k == j then some v else find_field j d)
find_field-set_field k j v end = refl
find_field-set_field k j v (field i w d) =
    ground (arith, eq_iff k j, eq_iff i k, eq_iff i j, find_field-set_field k j v d)

is_text-same : (id j : String) (v : Value) → is_text id v ≡ true → is_text j v ≡ (id == j)
is_text-same id j (text t) h = ap (λ s. s == j) ((eq_iff t id).0 h)
is_text-same id j v h = absurd cc

-- What renaming in `cs` has done.
pub record Renamed (id name : String) (cs : List Fields) (q : Result (Bool × List Fields))
    : Type 0 where
  pub updated : Bool
  pub list : List Fields
  pub returns : q ≡ ok (updated, list)
  pub listed :
      (j : String)
      → name_listed j (with_entry id name updated list)
        ≡ (if id == j then some (text name) else name_listed j cs)

with_entry-cons :
    (id name : String) (b : Bool) (c : Fields) (cs : List Fields)
    → with_entry id name b (c ∷ cs) ≡ c ∷ with_entry id name b cs
with_entry-cons id name true c cs = refl
with_entry-cons id name false c cs = refl

same_listed :
    {A : Type 0} (b : Bool) (x y z : A)
    → (if b then x else z) ≡ (if b then x else if b then y else z)
same_listed true x y z = refl
same_listed false x y z = refl

other_listed :
    {A : Type 0} (id j : String) (v : Value) (x y z w : A)
    → is_text id v ≡ false
    → w ≡ (if id == j then x else z)
    → (if is_text j v then y else w) ≡ (if id == j then x else if is_text j v then y else z)
other_listed id j v x y z w other h = elim (Bool-cases (id == j)) [
  | inl same ↦ rw (h, same, ap (λ k. is_text k v) (sym ((eq_iff id j).0 same)) ∙ other) refl
  | inr differs ↦ rw (h, differs) refl
]

rename_at-Renamed :
    (o : Option Value) (id name : String) (c : Fields) (cs : List Fields)
    (rest : Result (Bool × List Fields))
    → find_field "id" c ≡ o
    → o ≢ none
    → Renamed id name cs rest
    → Renamed id name (c ∷ cs) (rename_at o id name c cs rest)
rename_at-Renamed none id name c cs rest e h r = absurd (h refl)
rename_at-Renamed (some v) id name c cs rest e h r = elim (Bool-cases (is_text id v)) [
  | inl same ↦ rw same (record {
    updated = true;
    list = set_field "name" (text name) c ∷ cs;
    returns = refl;
    listed = λ j.
        rw
          (
            find_field-set_field "name" "id" (text name) c,
            find_field-set_field "name" "name" (text name) c,
            e,
            is_text-same id j v same,
          )
          (same_listed (id == j) _ _ _);
  })
  | inr other ↦
      rw (other, r.returns)
        (record {
          updated = r.updated;
          list = c ∷ r.list;
          returns = refl;
          listed = λ j.
              rw (with_entry-cons id name r.updated c r.list)
                (rw e (other_listed id j v _ _ _ _ other (r.listed j)));
        })
]

pub rename_in-Renamed :
    (id name : String) (cs : List Fields) → AllHaveId cs → Renamed id name cs (rename_in id name cs)
unfolding rename_in
rename_in-Renamed id name [] h = record {
  updated = false;
  list = [];
  returns = refl;
  listed = λ j. refl;
}
rename_in-Renamed id name (c ∷ cs) h =
    rename_at-Renamed (find_field "id" c) id name c cs _ refl h.0 (rename_in-Renamed id name cs h.1)

module _ {S : Type 0} (files : Files S) where
  -- Saving a conversation whose id is not empty, in a workspace whose list gives every conversation
  -- an id, returns. Afterwards the list that is read back names the conversation as asked, whether
  -- it was listed before or not, and names every other as before. Of the file system it is asked
  -- that what is written is read back, and that making a directory keeps the file.
  pub save-list_conversations :
      ((w : String) (cs : List Fields) (s : S) → files.read w (files.write w cs s) ≡ some cs)
      → ((w : String) (s : S) → files.read w (files.makedirs w s) ≡ files.read w s)
      → (id name workspace other : String) (s : S) → (id == "") ≡ false
      → AllHaveId (list_conversations files workspace s)
      → let (r, t) = save_conversation files (some id) name workspace s in
        (r ≡ ok (saved id name))
        × (name_listed other (list_conversations files workspace t) ≡ (
            if id == other
            then some (text name)
            else name_listed other (list_conversations files workspace s)))
  unfolding save_conversation list_conversations
  save-list_conversations written kept id name workspace other s active h =
      let r = rename_in-Renamed id name (loaded (files.read workspace s)) h in
      rw (active, kept workspace s, r.returns)
        (
          refl,
          ap (λ o. name_listed other (loaded o))
                (written workspace (with_entry id name r.updated r.list)
                  (files.makedirs workspace s))
              ∙ r.listed other,
        )
