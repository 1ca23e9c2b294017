-- ===== src/Scenarios/Pages.antt =====
-- The theorems about the page, over the server of the other scenarios and a file system with one
-- file.
use mathlib.Core.List.{Mem}
use unified_runtime_primitiv.Base.{
  none, ℕ, ◌≡◌, refl, true, false, String, Option, some, List, [], ◌∷◌, ◌++◌, join,
}
use unified_runtime_primitiv.Data.{Value, text, end, Fields}
use unified_runtime_primitiv.Exec.{ok}
use unified_runtime_primitiv.Exec.Keeps.{Keeps-pure}
use unified_runtime_primitiv.Agent.Frame.{Leaves-order}
use unified_runtime_primitiv.Host.{holds}
use unified_runtime_primitiv.Host.Writing.{notes_of}
use unified_runtime_primitiv.Web.{
  new_conversation, list_conversations, active_conversation, Server, ServedHost, hosts,
  echo_descriptor,
}
use unified_runtime_primitiv.Web.Console.{
  Browser, Page, Tab, initial_page, choices, init_agent, save_current_conversation, send_message,
}
use unified_runtime_primitiv.Web.Console.{
  Line, load_conversations, PageEvent, enters_save_name, enters_message, chooses_agent_type,
  chooses_conversation, clicks_refresh, clicks_initialize, clicks_save, clicks_send, status_is_due,
  conversations_are_due, serves, page_action, page_run,
}
use unified_runtime_primitiv.Web.Requests.{posts_init, runs_agent}
use unified_runtime_primitiv.Web.Serving.{ServedIsCoherent}
use unified_runtime_primitiv.Web.Console.Forming.{IsFormed}
use unified_runtime_primitiv.Web.Console.Sessions.{page_run-IsFormed}
use unified_runtime_primitiv.Web.Console.Site.{Site, site_backend}
use unified_runtime_primitiv.Web.Console.Keeping.{option_for, save_current_conversation_offers}
use unified_runtime_primitiv.Web.Console.Sending.{Reaches, send_message-Reaches}
use unified_runtime_primitiv.Web.Console.Starting.{Starts, init_agent-Starts}
use unified_runtime_primitiv.Scenarios.Folders.{work}
use unified_runtime_primitiv.Scenarios.Saves.{one_file, two_saved}
use unified_runtime_primitiv.Scenarios.Served.{
  platform-IsQuietPlatform, loaded, loaded-IsLive, loaded-bound,
}
use unified_runtime_primitiv.Scenarios.Servers.{platform, sdk-Respects, fresh}

abbrev name_text : Option Value → String
name_text (some (text t)) = t
name_text _ = "undefined"

abbrev browser : Browser
browser = record {
  number_text = λ n. "0";
  shown = name_text;
  stringify = name_text;
  short = λ id. id;
}

abbrev Open : Type 0
Open = Tab (Site ℕ (Option (List Fields)))

abbrev opened : Page → Server ℕ → Open
opened page server = record { page = page; server = record { server = server; files = two_saved } }

-- The second conversation has no id: the loop fails on it.
half_shown :
    choices browser (new_conversation "c1" "first" ∷ end ∷ [])
    ≡ (record { value = "c1"; label = "first (c1)" } ∷ [], false)
unfolding choices
half_shown = refl

abbrev loaded_host : ServedHost ℕ
loaded_host = record { descriptor = echo_descriptor; held = holds loaded }

-- The server's agent is taken for one of the other class, which has a conversation.
abbrev naming : Open
naming = opened (record initial_page { save_name = "renamed" }) (hosts false loaded_host)

save_current_conversation_offers_example :
    let q = save_current_conversation browser (site_backend platform one_file work 0) naming in
    (q.0 ≡ ok tt)
    × (q.1.page.log
        ≡ initial_page.log
          ++ record { message = join "Conversation saved as: " "renamed"; type = "event" } ∷ [])
    × (q.1.page.alerts ≡ [])
    × (q.1.page.resume_conversation ≡ "")
    × Mem (option_for browser "c1" (text "renamed")) q.1.page.resume_options
save_current_conversation_offers_example =
    save_current_conversation_offers browser platform one_file work 0 (λ w cs s. refl) (λ w s. refl)
      "c1" naming refl (unfold active_conversation in refl) refl
      (unfold list_conversations in (("c1", refl), (("c2", refl), tt)))

abbrev typing : Open
typing = opened (record initial_page { message_input = "hi" }) (hosts true loaded_host)

send_message-Reaches_example :
    let q = send_message (site_backend platform one_file work 0) typing in
    (q.0 ≡ ok tt)
    × (q.1.page.log
        ≡ initial_page.log ++ record { message = join "Sending: " "hi"; type = "message" } ∷ [])
    × (q.1.page.message_input ≡ "")
    × Reaches platform "hi" loaded.mailbox.items (notes_of loaded) q.1.server.server
send_message-Reaches_example =
    send_message-Reaches platform one_file work 0 platform-IsQuietPlatform typing loaded_host loaded
      refl refl refl loaded-IsLive loaded-bound

abbrev new_tab : Open
new_tab = opened initial_page fresh

init_agent-Starts_example :
    Starts browser platform one_file work 0 initial_page
      (init_agent browser (site_backend platform one_file work 0) new_tab)
init_agent-Starts_example =
    init_agent-Starts browser platform one_file work 0 (Keeps-pure Leaves-order tt) sdk-Respects
      new_tab tt

-- A value that is no option is not selected.
chosen :
    let choices_made =
      conversations_are_due ∷ chooses_conversation "c2" ∷ chooses_conversation "c9" ∷ [] in
    (page_run browser platform one_file work 0 choices_made new_tab).page.resume_conversation ≡ "c2"
unfolding page_run page_action load_conversations list_conversations choices
chosen = refl

abbrev morning : List PageEvent
morning =
    serves (posts_init 0 "echo" "./agent_workspace" none)
    ∷ status_is_due
    ∷ enters_message "hi"
    ∷ clicks_send
    ∷ serves runs_agent
    ∷ chooses_agent_type true
    ∷ clicks_initialize
    ∷ chooses_conversation "c1"
    ∷ []

abbrev evening : List PageEvent
evening = clicks_refresh ∷ enters_save_name "later" ∷ clicks_save ∷ clicks_initialize ∷ []

page_run-IsFormed_example :
    let run = page_run browser platform one_file work 0 in
    let tab = run morning new_tab in
    IsFormed tab.page
    × ServedIsCoherent tab.server.server
    × ((lines : List Line) × ((run evening tab).page.log ≡ tab.page.log ++ lines))
    × Starts browser platform one_file work 0 tab.page
        (init_agent browser (site_backend platform one_file work 0) tab)
page_run-IsFormed_example =
    page_run-IsFormed browser platform one_file work 0 (Keeps-pure Leaves-order tt) sdk-Respects
      morning evening (record { event_log = []; rest = 0 }) two_saved
