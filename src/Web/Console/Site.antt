-- ===== src/Web/Console/Site.antt =====
-- The server's endpoints behind the page.
use unified_runtime_primitiv.Base.{ℕ, suc, String, Option, none, some}
use unified_runtime_primitiv.Exec.{Exec, other_error, Result, ok, raised}
use unified_runtime_primitiv.Web.Conversations.{
  Files, SaveResponse, list_conversations, save_conversation,
}
use unified_runtime_primitiv.Web.Browsing.{Directories, browse_directory}
use unified_runtime_primitiv.Web.Endpoints.{
  Server, Platform, init_agent, post_message, get_state, active_conversation,
}
use unified_runtime_primitiv.Web.Console.Defs.{Backend}

-- The server and its file system.
pub record Site (X D : Type 0) : Type 0 where
  pub server : Server X
  pub files : D

module _ {X D : Type 0} (platform : Platform X) (files : Files D) (directories : Directories) where
  abbrev pub with_server : {A : Type 0} → Site X D → Result A × Server X → Result A × Site X D
  with_server site (r, server) = (r, record site { server = server })

  -- A request without an answer: for the page it is one that fails.
  abbrev pub answered_by :
      {A : Type 0} → Site X D → Option (Result A × Server X) → Result A × Site X D
  answered_by site none = (raised (other_error "no answer"), site)
  answered_by site (some q) = with_server site q

  -- `save_conversation`, on the conversation that the host's agent has.
  unfoldable pub save_active : String → String → Exec (Site X D) SaveResponse
  save_active name workspace site =
      let id = active_conversation platform site.server in
      let (r, files') = save_conversation files id name workspace site.files in
      (r, record site { files = files' })

  -- The shutdown of an old agent may wait for `n + 1` runs of its loop.
  abbrev pub site_backend : ℕ → Backend (Site X D)
  site_backend n = record {
    state = λ site. (ok (get_state platform site.server), site);
    conversations = λ workspace site. (ok (list_conversations files workspace site.files), site);
    save = save_active;
    browse = λ path site. (browse_directory directories path, site);
    init = λ agent_type workspace id site.
        answered_by site (init_agent platform (suc n) agent_type workspace id site.server);
    message =
        λ type payload site. with_server site (post_message platform type payload site.server);
  }
