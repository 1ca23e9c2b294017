-- ===== src/Web/Console/Keeping.antt =====
-- The page after its conversation was saved.
use mathlib.Core.List.{Mem, mem-cons_self, mem-cons_of_mem}
use package.text.Mathlib.TextPositions.{eq_refl}
use unified_runtime_primitiv.Base.{
  ◌≡◌, refl, sym, subst, ◌∙◌, ap, ℕ, String, Bool, true, false, Option, none, some, List, [], ◌∷◌,
  ◌++◌, join, ◌==◌, if◌then◌else◌, eq_iff, Bool-cases, inl, inr,
}
use unified_runtime_primitiv.Data.{Value, text, Fields, find_field}
use unified_runtime_primitiv.Exec.{Result, ok, raised, ⊤}
use unified_runtime_primitiv.Web.Conversations.{
  Files, set_field, is_text, keep, rename_at, rename_in, with_entry, loaded, list_conversations,
  save_conversation,
}
use unified_runtime_primitiv.Web.Browsing.{Directories}
use unified_runtime_primitiv.Web.Endpoints.{Platform, active_conversation}
use unified_runtime_primitiv.Web.Saving.{
  AllHaveId, has_id, name_listed, find_field-set_field, rename_in-Renamed,
}
use unified_runtime_primitiv.Web.Console.Defs.{
  Choice, Browser, Tab, choice_of, with_choice, choices, load_conversations, after_save,
  save_current_conversation,
}
use unified_runtime_primitiv.Web.Console.Site.{Site, site_backend, save_active}

-- Every conversation has a text for its id.
abbrev pub HasTextId : Fields → Type 0
HasTextId c = (id : String) × (find_field "id" c ≡ some (text id))

abbrev pub AllHaveTextId : List Fields → Type 0
AllHaveTextId [] = Unit
AllHaveTextId (c ∷ cs) = HasTextId c × AllHaveTextId cs

AllHaveTextId-AllHaveId : (cs : List Fields) → AllHaveTextId cs → AllHaveId cs
AllHaveTextId-AllHaveId [] h = tt
AllHaveTextId-AllHaveId (c ∷ cs) ((id, e), h) = (λ n. cc, AllHaveTextId-AllHaveId cs h)

-- What the list is then that is written.
abbrev WritesTextIds : String → String → Result (Bool × List Fields) → Type 0
WritesTextIds id name (ok (updated, cs)) = AllHaveTextId (with_entry id name updated cs)
WritesTextIds id name (raised e) = Unit

keep-WritesTextIds :
    (id name : String) (c : Fields) (r : Result (Bool × List Fields))
    → HasTextId c
    → WritesTextIds id name r
    → WritesTextIds id name (keep c r)
keep-WritesTextIds id name c (ok (true, cs)) h k = (h, k)
keep-WritesTextIds id name c (ok (false, cs)) h k = (h, k)
keep-WritesTextIds id name c (raised e) h k = tt

renamed-HasTextId :
    (name : String) (c : Fields) → HasTextId c → HasTextId (set_field "name" (text name) c)
renamed-HasTextId name c (id, e) = (id, find_field-set_field "name" "id" (text name) c ∙ e)

rename_at-WritesTextIds :
    (o : Option Value) (id name : String) (c : Fields) (cs : List Fields)
    (r : Result (Bool × List Fields))
    → HasTextId c
    → AllHaveTextId cs
    → WritesTextIds id name r
    → WritesTextIds id name (rename_at o id name c cs r)
rename_at-WritesTextIds none id name c cs r h hs k = tt
rename_at-WritesTextIds (some v) id name c cs r h hs k = elim (Bool-cases (is_text id v)) [
  | inl same ↦ rw same (renamed-HasTextId name c h, hs)
  | inr other ↦ rw other (keep-WritesTextIds id name c r h k)
]

rename_in-WritesTextIds :
    (id name : String) (cs : List Fields)
    → AllHaveTextId cs
    → WritesTextIds id name (rename_in id name cs)
unfolding rename_in
rename_in-WritesTextIds id name [] h = ((id, refl), tt)
rename_in-WritesTextIds id name (c ∷ cs) (h, hs) =
    rename_at-WritesTextIds (find_field "id" c) id name c cs (rename_in id name cs) h hs
      (rename_in-WritesTextIds id name cs hs)

module _ (browser : Browser) where
  -- The option for a conversation.
  abbrev pub option_for : String → Value → Choice
  option_for id name = record {
    value = id;
    label = join (browser.shown (some name)) (join " (" (join (browser.short id) ")"));
  }

  listed_first :
      (b : Bool) (id j : String) (v : Value) (o rest : Option Value) (r : List Choice × Bool)
      → (j == id) ≡ b
      → (if j == id then o else rest) ≡ some v
      → (rest ≡ some v → Mem (option_for id v) r.0)
      → Mem (option_for id v) (with_choice browser (choice_of browser (some (text j)) o) r).0
  listed_first true id j v o rest (cs, done) same e later =
      let found : o ≡ some v = ap (λ x. if x then o else rest) (sym same) ∙ e in
      let this : option_for id v ≡ record {
        value = j;
        label = join (browser.shown o) (join " (" (join (browser.short j) ")"));
      } =
        rw (found, (eq_iff j id).0 same) refl in
      rw this mem-cons_self
  listed_first false id j v o rest (cs, done) other e later =
      mem-cons_of_mem _ (later (ap (λ x. if x then o else rest) (sym other) ∙ e))

  -- A conversation that is listed under a name is an option with that name.
  listed-Mem :
      (id : String) (v : Value) (cs : List Fields)
      → AllHaveTextId cs
      → name_listed id cs ≡ some v
      → Mem (option_for id v) (choices browser cs).0
  unfolding choices
  listed-Mem id v [] h e = absurd cc
  listed-Mem id v (c ∷ cs) ((j, f), hs) e =
      let name = find_field "name" c in
      let found : (if j == id then name else name_listed id cs) ≡ some v =
        ap (λ o. if has_id id o then name else name_listed id cs) (sym f) ∙ e in
      rw f (
        listed_first (j == id) id j v name (name_listed id cs) (choices browser cs) refl found
          (listed-Mem id v cs hs))

  choices_done : (cs : List Fields) → AllHaveTextId cs → (choices browser cs).1 ≡ true
  unfolding choices
  choices_done [] h = refl
  choices_done (c ∷ cs) ((j, f), hs) = rw f (choices_done cs hs)

module _ (browser : Browser) {X D : Type 0} (platform : Platform X) (files : Files D)
    (directories : Directories) (n : ℕ) where
  -- What a handler of the page does on the site.
  abbrev save_here : Tab (Site X D) → Result ⊤ × Tab (Site X D)
  save_here = save_current_conversation browser (site_backend platform files directories n)

  -- Of the file system it is asked that what is written is read back, and that making a directory
  -- keeps the file. If the server's agent has a conversation, with an id that is not empty, a name
  -- was entered, and the list of the workspace gives every conversation a text for its id: saving
  -- from the page returns, says so in the console, and among the options to resume is then this
  -- conversation, under the new name; the first option is selected. There is no alert.
  pub save_current_conversation_offers :
      ((w : String) (cs : List Fields) (s : D) → files.read w (files.write w cs s) ≡ some cs)
      → ((w : String) (s : D) → files.read w (files.makedirs w s) ≡ files.read w s)
      → (id : String) (tab : Tab (Site X D)) → (tab.page.save_name == "") ≡ false
      → active_conversation platform tab.server.server ≡ some id
      → (id == "") ≡ false
      → AllHaveTextId (list_conversations files tab.page.workspace_path tab.server.files)
      → let q = save_here tab in
        let name = tab.page.save_name in
        (q.0 ≡ ok tt)
        × (q.1.page.log
            ≡ tab.page.log
              ++ record { message = join "Conversation saved as: " name; type = "event" } ∷ [])
        × (q.1.page.alerts ≡ tab.page.alerts)
        × (q.1.page.resume_conversation ≡ "")
        × Mem (option_for browser id (text name)) q.1.page.resume_options
  unfolding save_current_conversation save_active save_conversation after_save load_conversations
      list_conversations
  save_current_conversation_offers written kept id tab named active has_id h =
      let name = tab.page.save_name in
      let w = tab.page.workspace_path in
      let cs = loaded (files.read w tab.server.files) in
      let r = rename_in-Renamed id name cs (AllHaveTextId-AllHaveId cs h) in
      let after = with_entry id name r.updated r.list in
      let texts : AllHaveTextId after =
        subst (WritesTextIds id name) r.returns (rename_in-WritesTextIds id name cs h) in
      let listed : name_listed id after ≡ some (text name) =
        r.listed id ∙ ap (λ b. if b then some (text name) else name_listed id cs) (eq_refl id) in
      let options = listed-Mem browser id (text name) after texts listed in
      rw (named, active, has_id, kept w tab.server.files, r.returns)
        (rw (written w after (files.makedirs w tab.server.files)) (
          rw (choices_done browser after texts)
            (refl, refl, refl, refl, mem-cons_of_mem _ options)))
