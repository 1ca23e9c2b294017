-- ===== src/Web/Console/Starting.antt =====
-- The page's start of an agent.
use unified_runtime_primitiv.Base.{
  ◌≡◌, refl, subst, ℕ, suc, String, Bool, true, false, Option, some, List, [], ◌∷◌, ◌++◌, join,
  ◌==◌, Bool-cases, inl, inr,
}
use unified_runtime_primitiv.Exec.{Exception, Result, ok, raised, ⊤}
use unified_runtime_primitiv.Exec.Keeps.{Keeps}
use unified_runtime_primitiv.Agent.{AgentView}
use unified_runtime_primitiv.Agent.Frame.{Leaves, Respects}
use unified_runtime_primitiv.Web.Conversations.{Files}
use unified_runtime_primitiv.Web.Browsing.{Directories}
use unified_runtime_primitiv.Web.Endpoints as Endpoints
use unified_runtime_primitiv.Web.Endpoints.{
  Server, hosts, Platform, descriptor_for, StateResponse, online, get_state,
}
use unified_runtime_primitiv.Web.Serving.{
  ServedIsCoherent, Initialized, old_stays, launches, init_agent-Initialized,
}
use unified_runtime_primitiv.Web.Answers.{ShowsWaiting, init_agent-get_state}
use unified_runtime_primitiv.Web.Console.Defs.{
  Line, Choice, Page, Backend, Browser, Tab, text_or_else, status_line, ends, load_conversations,
  update_status,
}
use unified_runtime_primitiv.Web.Console.Handlers.{text_or_null, after_init, init_agent}
use unified_runtime_primitiv.Web.Console.Site.{Site, site_backend}

module _ {X : Type 0} where
  -- Initialising always ends.
  Initialized-some :
      (platform : Platform X) (n : ℕ) (before : Server X) (is_echo : Bool)
      (outcome : Option (Result String × Server X))
      → Initialized platform n before is_echo outcome
      → (r : Result String) × (server : Server X) × (outcome ≡ some (r, server))
  Initialized-some platform n before is_echo outcome
        (old_stays x old host b a s held shut h stop e) =
      (_, _, e)
  Initialized-some platform n before is_echo outcome (launches (ok _) host e d l ended) = (_, _, e)
  Initialized-some platform n before is_echo outcome (launches (raised x) host e d l ended) =
      (_, _, e)

abbrev initializing : Page → Line
initializing p = record {
  message =
      join "Initializing " (join p.agent_type (join " agent at " (join p.workspace_path "...")));
  type = "message";
}

abbrev initialized_as : String → Line
initialized_as id = record { message = join "Agent initialized: " id; type = "event" }

module _ (browser : Browser) {X D : Type 0} (platform : Platform X) (files : Files D)
    (directories : Directories) (n : ℕ) where
  -- The page shows the agent that was started, which waits.
  pub record ShowsAgent (before : Page) (answer : String) (tab : Tab (Site X D)) : Type 0 where
    pub view : AgentView
    pub id : Option String
    pub waits : get_state platform tab.server.server ≡ online view "WAITING" id
    pub log : tab.page.log ≡ (before.log ++ initializing before ∷ []) ++ initialized_as answer ∷ []
    pub status : tab.page.status ≡ status_line "WAITING" (browser.number_text view.mailbox_size)
    pub active : tab.page.active_section ≡ (before.agent_type == "sdk")
    pub active_id :
        (before.agent_type == "sdk") ≡ true → tab.page.active_id ≡ text_or_else id "None"

  -- How the start of an agent ends on the page.
  pub data Starts (before : Page) (q : Result ⊤ × Tab (Site X D)) : Type 0 where
    shows :
        (answer : String)
        → answer ≡ (descriptor_for (before.agent_type == "echo")).agent_id
        → q.0 ≡ ok tt
        → ShowsAgent before answer q.1
        → Starts before q
    fails :
        (x : Exception)
        → q.0 ≡ raised x
        → q.1.page ≡ record before { log = before.log ++ initializing before ∷ [] }
        → Starts before q

  abbrev here : Backend (Site X D)
  here = site_backend platform files directories n

  -- The page when the request is sent.
  abbrev asking : Page → Page
  asking p = record p { log = p.log ++ initializing p ∷ [] }

  ends_same : (b : Bool) {S : Type 0} (s : S) → (ends browser b s).1 ≡ s
  ends_same true s = refl
  ends_same false s = refl

  -- Whether or not the loop over the conversations comes to its end, it only changes the options.
  load_conversations_options :
      (tab : Tab (Site X D))
      → (convs : List Choice) × ((load_conversations browser here tab).1 ≡ record tab {
        page = record tab.page { resume_options = convs; resume_conversation = "" };
      })
  unfolding load_conversations
  load_conversations_options tab = (_, ends_same _ _)

  update_status-ShowsAgent :
      (before : Page) (answer : String) (tab : Tab (Site X D))
      → tab.page.agent_type ≡ before.agent_type
      → tab.page.log ≡ (asking before).log ++ initialized_as answer ∷ []
      → ShowsWaiting platform tab.server.server
      → ShowsAgent before answer (update_status browser here tab).1
  unfolding update_status
  update_status-ShowsAgent before answer tab same logs (v, id, e) = record {
    view = v;
    id = id;
    waits = e;
    log = rw e logs;
    status = rw e refl;
    active = rw (e, same) refl;
    active_id = λ sdk. rw (e, same, sdk) refl;
  }

  after_init-ShowsAgent :
      (before : Page) (answer : String) (site : Site X D)
      → ShowsWaiting platform site.server
      → let q =
          after_init browser here before.agent_type answer
            (record { page = asking before; server = site }) in
        (q.0 ≡ ok tt) × ShowsAgent before answer q.1
  unfolding after_init
  after_init-ShowsAgent before answer site waits =
      let p = record (asking before) { log = (asking before).log ++ initialized_as answer ∷ [] } in
      let tab : Tab (Site X D) = record { page = p; server = site } in
      elim (Bool-cases (before.agent_type == "sdk")) [
        | inl sdk ↦
            let (convs, loads) = load_conversations_options tab in
            rw (sdk, loads)
              (
                refl,
                update_status-ShowsAgent before answer
                    (record tab {
                      page = record p { resume_options = convs; resume_conversation = "" };
                    })
                    refl refl waits,
              )
        | inr other ↦ rw other (refl, update_status-ShowsAgent before answer tab refl refl waits)
      ]

  init_agent-Starts-answer :
      (tab : Tab (Site X D)) (r : Result String) (after : Server X)
      → Endpoints.init_agent platform
          (suc n)
          tab.page.agent_type
          tab.page.workspace_path
          (text_or_null tab.page.resume_conversation)
          tab.server.server
        ≡ some (r, after)
      → ((answer : String)
          → r ≡ ok answer
          → (answer ≡ (descriptor_for (tab.page.agent_type == "echo")).agent_id)
            × ShowsWaiting platform after)
      → Starts tab.page (init_agent browser here tab)
  unfolding init_agent
  init_agent-Starts-answer tab (raised x) after e h = rw e (fails x refl refl)
  init_agent-Starts-answer tab (ok answer) after e h =
      let (same, waits) = h answer refl in
      let (done, shows_it) =
        after_init-ShowsAgent tab.page answer (record tab.server { server = after }) waits in
      rw e (shows answer same done shows_it)

  -- If `SDKURPAgent` and the tasks beside the agent's respect its fields (`Respects`, `Leaves`), and
  -- the server's host, if there is one, holds no agent or a coherent one: the page's start of an
  -- agent writes that it initialises the type that is selected. Either the request fails, and then
  -- the page shows nothing else; or it returns, the console has the agent id of that class too, the
  -- status is WAITING with the size of the mailbox as `/agent/state` now gives them, and the section
  -- of the active conversation is shown just for an SDK agent, with its conversation's id.
  pub init_agent-Starts :
      Keeps Leaves platform.others
      → Respects platform.sdk_class
      → (tab : Tab (Site X D)) → ServedIsCoherent tab.server.server
      → Starts tab.page (init_agent browser here tab)
  init_agent-Starts others sdk tab h =
      let p = tab.page in
      let id = text_or_null p.resume_conversation in
      let start =
        Endpoints.init_agent platform (suc n) p.agent_type p.workspace_path id tab.server.server in
      let (r, after, e) =
        Initialized-some platform n tab.server.server (p.agent_type == "echo") start (
          init_agent-Initialized platform others sdk n p.agent_type p.workspace_path id
            tab.server.server h) in
      init_agent-Starts-answer tab r after e λ answer same.
        init_agent-get_state platform others sdk n p.agent_type p.workspace_path id answer
          tab.server.server after h (subst (λ (s : Result String). start ≡ some (s, after)) same e)
