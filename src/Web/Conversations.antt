-- ===== src/Web/Conversations.antt =====
-- `save_conversation` and `list_conversations`. The file of a workspace holds a list of JSON
-- objects; the file system is a parameter, whose calls do not raise.
use unified_runtime_primitiv.Base.{
  String, Bool, true, false, Option, none, some, List, [], ◌∷◌, ◌++◌, ◌==◌, if◌then◌else◌,
}
use unified_runtime_primitiv.Data.{Value, text, Fields, end, field, find_field}
use unified_runtime_primitiv.Exec.{Exec, other_error, Result, ok, raised}

-- `S` are the states of the file system; a file is named by the workspace that it belongs to.
pub record Files (S : Type 0) : Type 0 where
  pub makedirs : String → S → S
  pub read : String → S → Option (List Fields)
  pub write : String → List Fields → S → S

pub data SaveResponse : Type 0 where
  refused : String → SaveResponse
  saved : String → String → SaveResponse

-- `d[key] = value`
abbrev pub set_field : String → Value → Fields → Fields
set_field key v end = field key v end
set_field key v (field name w fields) =
    if name == key then field name v fields else field name w (set_field key v fields)

-- `v == id`
abbrev pub is_text : String → Value → Bool
is_text id (text t) = t == id
is_text id v = false

abbrev pub keep : Fields → Result (Bool × List Fields) → Result (Bool × List Fields)
keep c (ok (updated, cs)) = ok (updated, c ∷ cs)
keep c (raised e) = raised e

abbrev pub rename_at :
    Option Value
    → String
    → String
    → Fields
    → List Fields
    → Result (Bool × List Fields)
    → Result (Bool × List Fields)
rename_at none id name c cs rest = raised (other_error "KeyError")
rename_at (some v) id name c cs rest =
    if is_text id v then ok (true, set_field "name" (text name) c ∷ cs) else keep c rest

-- The loop: the first conversation with the id gets the name; then it breaks.
unfoldable pub rename_in : String → String → List Fields → Result (Bool × List Fields)
rename_in id name [] = ok (false, [])
rename_in id name (c ∷ cs) =
    let rest = rename_in id name cs in rename_at (find_field "id" c) id name c cs rest

abbrev pub new_conversation : String → String → Fields
new_conversation id name = field "id" (text id) (field "name" (text name) end)

-- `if not updated: conversations.append(…)`
abbrev pub with_entry : String → String → Bool → List Fields → List Fields
with_entry id name true cs = cs
with_entry id name false cs = cs ++ new_conversation id name ∷ []

abbrev pub loaded : Option (List Fields) → List Fields
loaded none = []
loaded (some cs) = cs

module _ {S : Type 0} (files : Files S) where
  unfoldable pub list_conversations : String → S → List Fields
  list_conversations workspace s = loaded (files.read workspace s)

  abbrev pub dump :
      String → String → String → Result (Bool × List Fields) → S → Result SaveResponse × S
  dump workspace id name (ok (updated, cs)) s =
      (ok (saved id name), files.write workspace (with_entry id name updated cs) s)
  dump workspace id name (raised e) s = (raised e, s)

  -- Of the host: no id if there is no agent, or one without `get_conversation_id`.
  unfoldable pub save_conversation : Option String → String → String → Exec S SaveResponse
  unfolding rename_in list_conversations
  save_conversation none name workspace s =
      (ok (refused "Agent does not support conversation persistence"), s)
  save_conversation (some id) name workspace s =
      let t = files.makedirs workspace s in
      if id == ""
      then (ok (refused "No active conversation"), s)
      else dump workspace id name (rename_in id name (list_conversations workspace t)) t
