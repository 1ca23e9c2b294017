-- ===== src/Scenarios/Saves.antt =====
-- The theorem about saved conversations at a file system with one file.
use unified_runtime_primitiv.Base.{
  ◌≡◌, refl, Option, none, some, List, [], ◌∷◌, ◌==◌, if◌then◌else◌,
}
use unified_runtime_primitiv.Data.{text, Fields}
use unified_runtime_primitiv.Exec.{ok}
use unified_runtime_primitiv.Web.{
  Files, saved, new_conversation, rename_in, list_conversations, save_conversation,
}
use unified_runtime_primitiv.Web.Saving.{name_listed, save-list_conversations}

abbrev pub one_file : Files (Option (List Fields))
one_file = record { makedirs = λ w s. s; read = λ w s. s; write = λ w cs s. some cs }

abbrev pub two_saved : Option (List Fields)
two_saved = some (new_conversation "c1" "first" ∷ new_conversation "c2" "second" ∷ [])

renamed : save_conversation one_file (some "c2") "other" "w" two_saved ≡ (
  ok (saved "c2" "other"),
  some (new_conversation "c1" "first" ∷ new_conversation "c2" "other" ∷ []),
)
unfolding save_conversation list_conversations rename_in
renamed = refl

appended :
    save_conversation one_file (some "c1") "first" "w" none
    ≡ (ok (saved "c1" "first"), some (new_conversation "c1" "first" ∷ []))
unfolding save_conversation list_conversations rename_in
appended = refl

save-list_conversations_example :
    let (r, t) = save_conversation one_file (some "c2") "other" "w" two_saved in
    (r ≡ ok (saved "c2" "other"))
    × (name_listed "c1" (list_conversations one_file "w" t) ≡ (
        if "c2" == "c1"
        then some (text "other")
        else name_listed "c1" (list_conversations one_file "w" two_saved)))
save-list_conversations_example =
    save-list_conversations one_file (λ w cs s. refl) (λ w s. refl) "c2" "other" "w" "c1" two_saved
      refl (unfold list_conversations in (λ e. cc, (λ e. cc, tt)))
