-- ===== src/Web/Console/Handlers.antt =====
-- The picker of the workspace, and the handlers that start the agent, send it messages and show its
-- events.
use unified_runtime_primitiv.Base.{
  String, List, true, false, Option, none, some, [], join, ◌==◌, if◌then◌else◌, map,
}
use unified_runtime_primitiv.Data.{text, dict, field, end, Fields, find_field, Payload, value}
use unified_runtime_primitiv.Exec.{Exec, ok, ⊤, pure, raise, gets, ◌>>=◌, ◌>>◌}
use unified_runtime_primitiv.Web.Browsing.{Item, BrowseResponse, error, listing}
use unified_runtime_primitiv.Web.Console.Defs.{
  Choice, Page, Backend, Browser, Tab, type_error, edit, fetch, spawn, add_log, alert,
  update_status, load_conversations,
}

-- All items of a listing are directories, so each gets the picture of one.
abbrev pub dir_choice : Item → Choice
dir_choice item = record { value = item.path; label = join "📁 " item.name }

abbrev pub show_dirs : String → String → List Choice → Page → Page
show_dirs path title dirs p = record p {
  browsing_path = path;
  picker_title = title;
  dir_list = dirs;
}

-- An empty text of an error counts as none. Then there is neither a path, which is written
-- "undefined" wherever it is used, nor a list, on which the handler fails.
unfoldable pub show_listing : {S : Type 0} → BrowseResponse → Exec (Tab S) ⊤
show_listing (error t) =
    if t == "" then (do edit (show_dirs "undefined" "" []); raise type_error) else alert t
show_listing (listing path items) = edit (show_dirs path path (map dir_choice items))

-- `conversationId || null`
abbrev pub text_or_null : String → Option String
text_or_null t = if t == "" then none else some t

-- `{ text: text }`
abbrev pub text_payload : String → Payload
text_payload t = value (dict (field "text" (text t) end))

module _ {S : Type 0} where
  unfoldable pub close_picker : Exec (Tab S) ⊤
  close_picker = edit λ p. record p { picker_open = false }

module _ {S : Type 0} (backend : Backend S) where
  unfoldable pub browse : String → Exec (Tab S) ⊤
  unfolding show_listing
  browse path = do response ← fetch (backend.browse path); show_listing response

  unfoldable pub open_picker : Exec (Tab S) ⊤
  unfolding browse
  open_picker = do
    edit λ p. record p { picker_open = true }
    path ← gets (λ tab. tab.page.browsing_path)
    spawn (browse path)

  -- `sendMessage`, which does not look at the answer.
  unfoldable pub send_message : Exec (Tab S) ⊤
  send_message tab =
      let t = tab.page.message_input in
      if t == ""
      then (ok tt, tab)
      else (do
        add_log (join "Sending: " t) "message"
        spawn (fetch (backend.message "MESSAGE" (text_payload t)))
        edit λ p. record p { message_input = "" })
          tab

module _ (browser : Browser) {S : Type 0} (backend : Backend S) where
  unfoldable pub select_current_dir : Exec (Tab S) ⊤
  unfolding close_picker load_conversations
  select_current_dir = do
    edit λ p. record p { workspace_path = p.browsing_path }
    close_picker
    spawn (load_conversations browser backend)

  unfoldable pub after_init : String → String → Exec (Tab S) ⊤
  unfolding load_conversations update_status
  after_init agent_type agent_id = do
    add_log (join "Agent initialized: " agent_id) "event"
    if agent_type == "sdk" then spawn (load_conversations browser backend) else pure tt
    spawn (update_status browser backend)

  -- `initAgent`
  unfoldable pub init_agent : Exec (Tab S) ⊤
  unfolding after_init
  init_agent = do
    p ← gets (λ tab. tab.page)
    add_log
        (join "Initializing " (join p.agent_type (join " agent at " (join p.workspace_path "..."))))
        "message"
    id ← fetch (backend.init p.agent_type p.workspace_path (text_or_null p.resume_conversation))
    after_init p.agent_type id

  -- `ws.onmessage`, on the object that was sent.
  unfoldable pub on_message : Fields → Exec (Tab S) ⊤
  unfolding update_status
  on_message event = do
    add_log
        (join "Event Received: " (
          join (browser.shown (find_field "type" event))
            (join " - " (browser.stringify (find_field "payload" event)))))
        "event"
    spawn (update_status browser backend)
