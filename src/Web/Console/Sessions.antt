-- ===== src/Web/Console/Sessions.antt =====
-- Sessions on the page.

use unified_runtime_primitiv.Base.{
  ℕ, suc, ◌≡◌, refl, sym, subst, String, Option, none, some, List, [], ◌∷◌, ◌++◌, ◌==◌, ◌&&◌,
}
use unified_runtime_primitiv.Exec.{Result, pure}
use unified_runtime_primitiv.Exec.Keeps.{Keeps, Keeps-pure, Keeps-bind}
use unified_runtime_primitiv.Agent.Frame.{Leaves, Respects}
use unified_runtime_primitiv.Web.Conversations.{Files}
use unified_runtime_primitiv.Web.Browsing.{Directories}
use unified_runtime_primitiv.Web.Endpoints as Endpoints
use unified_runtime_primitiv.Web.Endpoints.{ServerFields, Server, unhosted, Platform}
use unified_runtime_primitiv.Web.Serving.{ServedIsCoherent, init_agent-Initialized}
use unified_runtime_primitiv.Web.Requests.{
  posts_message, server_step, left_server, Initialized-ServedIsCoherent,
  server_step-ServedIsCoherent,
}
use unified_runtime_primitiv.Web.Console.Defs.{Line, Page, Backend, Browser, Tab, initial_page}
use unified_runtime_primitiv.Web.Console.Handlers.{
  text_or_null, text_payload, send_message, after_init, init_agent,
}
use unified_runtime_primitiv.Web.Console.Site.{Site, answered_by, site_backend}
use unified_runtime_primitiv.Web.Console.Events.{
  PageEvent, enters_workspace_path, enters_save_name, enters_message, chooses_agent_type,
  chooses_conversation, clicks_browse, clicks_refresh, clicks_initialize, clicks_save, clicks_dir,
  clicks_cancel, clicks_select_dir, clicks_send, status_is_due, conversations_are_due, receives,
  serves, has_value, agent_type_of, choose, page_action, page_run,
}
use unified_runtime_primitiv.Web.Console.Forming.{
  agent_type_of_cases, choose-log, choose-IsFormed, initial_page-IsFormed, IsFormed, Extends-refl,
  Proceeds, Proceeds-order, fetch-Proceeds, spawn-Proceeds, gets-Proceeds, edit_beside-Proceeds,
  add_log-Proceeds,
}
use unified_runtime_primitiv.Web.Console.Acting.{
  Kept, if-Proceeds, if-Kept, if_shown-Kept, update_status-Kept, load_conversations-Kept,
  save_current_conversation-Kept, browse-Kept, open_picker-Kept, close_picker-Kept,
  select_current_dir-Kept, on_message-Kept,
}
use unified_runtime_primitiv.Web.Console.Starting.{Starts, init_agent-Starts}

module _ (browser : Browser) {X D : Type 0} (platform : Platform X) (files : Files D)
    (directories : Directories) (n : ℕ) (others : Keeps Leaves platform.others)
    (sdk : Respects platform.sdk_class) where
  abbrev here : Backend (Site X D)
  here = site_backend platform files directories n

  answered_by-server :
      {A : Type 0} (site : Site X D) (o : Option (Result A × Server X))
      → (answered_by platform files directories site o).1.server ≡ left_server site.server o
  answered_by-server site none = refl
  answered_by-server site (some q) = refl

  send_message-Kept : Kept (send_message here)
  unfolding send_message server_step
  send_message-Kept = record {
    at = λ s.
        let t = s.page.message_input in
        let payload = text_payload t in
        if-Proceeds (t == "") (pure tt) _ s (Keeps-pure Proceeds-order tt) (
          Keeps-bind Proceeds-order _ _ (add_log-Proceeds _ _) λ _.
            Keeps-bind Proceeds-order _ _
              (spawn-Proceeds _ (
                fetch-Proceeds (here.message "MESSAGE" payload) λ site h.
                  server_step-ServedIsCoherent platform others sdk (posts_message "MESSAGE" payload)
                    site.server h))
              λ _.
                edit_beside-Proceeds (λ p. record p { message_input = "" }) (λ p. refl) (λ p h. h));
  }

  after_init-Kept : (agent_type id : String) → Kept (after_init browser here agent_type id)
  unfolding after_init
  after_init-Kept agent_type id = Keeps-bind Proceeds-order _ _ (add_log-Proceeds _ _) λ _.
      Keeps-bind Proceeds-order _ _
        (if-Kept (agent_type == "sdk") _ _
          (spawn-Proceeds _ (load_conversations-Kept browser platform files directories n))
          (Keeps-pure Proceeds-order tt))
        λ _. spawn-Proceeds _ (update_status-Kept browser platform files directories n)

  init-ServedIsCoherent :
      (p : Page) (site : Site X D)
      → ServedIsCoherent site.server
      → ServedIsCoherent
          (here.init p.agent_type p.workspace_path
            (text_or_null p.resume_conversation)
            site).1.server
  init-ServedIsCoherent p site h =
      let id = text_or_null p.resume_conversation in
      let start =
        Endpoints.init_agent platform (suc n) p.agent_type p.workspace_path id site.server in
      subst ServedIsCoherent (sym (answered_by-server site start)) (
        Initialized-ServedIsCoherent platform n (p.agent_type == "echo") site.server start (
          init_agent-Initialized platform others sdk n p.agent_type p.workspace_path id site.server
            h))

  init_agent-Kept : Kept (init_agent browser here)
  unfolding init_agent
  init_agent-Kept = Keeps-bind Proceeds-order _ _ (gets-Proceeds λ tab. tab.page) λ p.
      Keeps-bind Proceeds-order _ _ (add_log-Proceeds _ _) λ _.
        Keeps-bind Proceeds-order _ _
          (fetch-Proceeds
            (here.init p.agent_type p.workspace_path (text_or_null p.resume_conversation))
            λ site h. init-ServedIsCoherent p site h)
          λ id. after_init-Kept p.agent_type id

  page_action-Kept : (e : PageEvent) → Kept (page_action browser platform files directories n e)
  unfolding page_action
  page_action-Kept (enters_workspace_path t) =
      edit_beside-Proceeds (λ p. record p { workspace_path = t }) (λ p. refl) (λ p h. h)
  page_action-Kept (enters_save_name t) =
      edit_beside-Proceeds (λ p. record p { save_name = t }) (λ p. refl) (λ p h. h)
  page_action-Kept (enters_message t) =
      edit_beside-Proceeds (λ p. record p { message_input = t }) (λ p. refl) (λ p h. h)
  page_action-Kept (chooses_agent_type sdk) =
      edit_beside-Proceeds (λ p. record p { agent_type = agent_type_of sdk }) (λ p. refl)
        λ p h. record {
          saved_options = h.saved_options;
          offers_new = h.offers_new;
          selects = h.selects;
          has_type = agent_type_of_cases sdk;
          nested = h.nested;
          status_text = h.status_text;
          shows_status = h.shows_status;
        }
  page_action-Kept (chooses_conversation id) =
      edit_beside-Proceeds (choose id) (λ p. choose-log (has_value id p.resume_options) id p)
        λ p h. choose-IsFormed (has_value id p.resume_options) id p refl h
  page_action-Kept clicks_browse = open_picker-Kept browser platform files directories n
  page_action-Kept clicks_refresh =
      if_shown-Kept (λ p. p.conversation_section) _
        (load_conversations-Kept browser platform files directories n)
  page_action-Kept clicks_initialize = init_agent-Kept
  page_action-Kept clicks_save =
      if_shown-Kept (λ p. p.active_section) _
        (save_current_conversation-Kept browser platform files directories n)
  page_action-Kept (clicks_dir path) =
      if_shown-Kept (λ p. p.picker_open && has_value path p.dir_list) _
        (browse-Kept browser platform files directories n path)
  page_action-Kept clicks_cancel =
      if_shown-Kept (λ p. p.picker_open) _ (close_picker-Kept browser platform files directories n)
  page_action-Kept clicks_select_dir =
      if_shown-Kept (λ p. p.picker_open) _
        (select_current_dir-Kept browser platform files directories n)
  page_action-Kept clicks_send = send_message-Kept
  page_action-Kept status_is_due = update_status-Kept browser platform files directories n
  page_action-Kept conversations_are_due =
      load_conversations-Kept browser platform files directories n
  page_action-Kept (receives event) = on_message-Kept browser platform files directories n event
  page_action-Kept (serves c) = record {
    at = λ s. record {
      page = Extends-refl s.page;
      server = server_step-ServedIsCoherent platform others sdk c s.server.server;
    };
  }

  page_run-Proceeds :
      (es : List PageEvent) (tab : Tab (Site X D))
      → Proceeds tab (page_run browser platform files directories n es tab)
  unfolding page_run
  page_run-Proceeds [] tab = Proceeds-order.same tab
  page_run-Proceeds (e ∷ es) tab =
      Proceeds-order.then tab _ _ ((page_action-Kept e).at tab) (page_run-Proceeds es _)

  -- If `SDKURPAgent` and the tasks beside the agent's respect its fields (`Respects`, `Leaves`):
  -- after any sequence of events on a page that was opened over a new server, what others ask of the
  -- server in between included, the page is formed (`IsFormed`): the options begin with the one for
  -- a new conversation and one of them is selected, the agent type is "echo" or "sdk", the active
  -- conversation is shown only beside the options, and the status follows its label. The server's
  -- agent is coherent. Whatever happens then, the lines of the console stay; and a start of the
  -- agent ends as `Starts` says.
  pub page_run-IsFormed :
      (es fs : List PageEvent) (fields : ServerFields X) (stored : D)
      → let run = page_run browser platform files directories n in
        let opened : Tab (Site X D) = record {
          page = initial_page;
          server = record { server = unhosted fields; files = stored };
        } in
        let tab = run es opened in
        IsFormed tab.page
        × ServedIsCoherent tab.server.server
        × ((lines : List Line) × ((run fs tab).page.log ≡ tab.page.log ++ lines))
        × Starts browser platform files directories n tab.page (init_agent browser here tab)
  page_run-IsFormed es fs fields stored =
      let opened : Tab (Site X D) = record {
        page = initial_page;
        server = record { server = unhosted fields; files = stored };
      } in
      let before = page_run-Proceeds es opened in
      let tab = page_run browser platform files directories n es opened in
      let after = page_run-Proceeds fs tab in
      let coherent = before.server tt in
      (
        before.page.forms initial_page-IsFormed,
        coherent,
        (after.page.lines, after.page.log),
        init_agent-Starts browser platform files directories n others sdk tab coherent,
      )
