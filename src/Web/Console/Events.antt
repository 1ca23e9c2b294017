-- ===== src/Web/Console/Events.antt =====
-- What happens to the page: what is entered and clicked, the timers, the messages of the web socket,
-- and what the server does for others.
use unified_runtime_primitiv.Base.{
  ℕ, String, Bool, true, false, List, [], ◌∷◌, ◌==◌, ◌||◌, ◌&&◌, if◌then◌else◌,
}
use unified_runtime_primitiv.Data.{Fields}
use unified_runtime_primitiv.Exec.{Exec, ⊤, pure, modify}
use unified_runtime_primitiv.Web.Conversations.{Files}
use unified_runtime_primitiv.Web.Browsing.{Directories}
use unified_runtime_primitiv.Web.Endpoints.{Platform}
use unified_runtime_primitiv.Web.Requests.{ServerCall, server_step}
use unified_runtime_primitiv.Web.Console.Defs.{
  Choice, Page, Backend, Browser, Tab, edit, update_status, load_conversations,
  save_current_conversation,
}
use unified_runtime_primitiv.Web.Console.Handlers.{
  close_picker, browse, open_picker, send_message, select_current_dir, init_agent, on_message,
}
use unified_runtime_primitiv.Web.Console.Site.{Site, site_backend}

-- The first are what is entered; `chooses_agent_type` says whether it is the SDK agent. Then come the
-- buttons, in the order of the page, the two timers, the web socket, and what others do.
pub data PageEvent : Type 0 where
  enters_workspace_path enters_save_name enters_message : String → PageEvent
  chooses_agent_type : Bool → PageEvent
  chooses_conversation : String → PageEvent
  clicks_browse clicks_refresh clicks_initialize clicks_save : PageEvent
  clicks_dir : String → PageEvent
  clicks_cancel clicks_select_dir clicks_send : PageEvent
  status_is_due conversations_are_due : PageEvent
  receives : Fields → PageEvent
  serves : ServerCall → PageEvent

-- Some of the choices has this value.
abbrev pub has_value : String → List Choice → Bool
has_value v [] = false
has_value v (c ∷ cs) = c.value == v || has_value v cs

abbrev pub agent_type_of : Bool → String
agent_type_of true = "sdk"
agent_type_of false = "echo"

-- Only an option that there is can be selected.
abbrev pub choose : String → Page → Page
choose id p = if has_value id p.resume_options then record p { resume_conversation = id } else p

module _ {S : Type 0} where
  -- What is not shown cannot be clicked.
  abbrev pub if_shown : (Page → Bool) → Exec (Tab S) ⊤ → Exec (Tab S) ⊤
  if_shown shown m tab = if shown tab.page then m tab else pure tt tab

module _ (browser : Browser) {X D : Type 0} (platform : Platform X) (files : Files D)
    (directories : Directories) (n : ℕ) where
  abbrev pub backend : Backend (Site X D)
  backend = site_backend platform files directories n

  unfoldable pub page_action : PageEvent → Exec (Tab (Site X D)) ⊤
  page_action (enters_workspace_path t) = edit λ p. record p { workspace_path = t }
  page_action (enters_save_name t) = edit λ p. record p { save_name = t }
  page_action (enters_message t) = edit λ p. record p { message_input = t }
  page_action (chooses_agent_type sdk) = edit λ p. record p { agent_type = agent_type_of sdk }
  page_action (chooses_conversation id) = edit (choose id)
  page_action clicks_browse = open_picker backend
  page_action clicks_refresh =
      if_shown (λ p. p.conversation_section) (load_conversations browser backend)
  page_action clicks_initialize = init_agent browser backend
  page_action clicks_save =
      if_shown (λ p. p.active_section) (save_current_conversation browser backend)
  page_action (clicks_dir path) =
      if_shown (λ p. p.picker_open && has_value path p.dir_list) (browse backend path)
  page_action clicks_cancel = if_shown (λ p. p.picker_open) close_picker
  page_action clicks_select_dir = if_shown (λ p. p.picker_open) (select_current_dir browser backend)
  page_action clicks_send = send_message backend
  page_action status_is_due = update_status browser backend
  page_action conversations_are_due = load_conversations browser backend
  page_action (receives event) = on_message browser backend event
  page_action (serves c) = modify λ tab. record tab {
    server = record tab.server { server = server_step platform c tab.server.server };
  }

  -- What a handler raises ends only the handler.
  unfoldable pub page_run : List PageEvent → Tab (Site X D) → Tab (Site X D)
  page_run [] tab = tab
  page_run (e ∷ es) tab = page_run es (page_action e tab).1
