-- ===== src/Web/Console/Defs.antt =====
-- The script of the page: what it shows, and its handlers over the server's endpoints.
use unified_runtime_primitiv.Base.{
  ℕ, String, Bool, true, false, Option, none, some, List, [], ◌∷◌, ◌++◌, join, ◌==◌, not, ◌&&◌,
  if◌then◌else◌,
}
use unified_runtime_primitiv.Data.{Value, text, Fields, find_field, Payload}
use unified_runtime_primitiv.Exec.{
  Exec, Exception, other_error, ok, ⊤, pure, raise, gets, modify, ◌>>=◌, ◌>>◌,
}
use unified_runtime_primitiv.Web.Conversations.{SaveResponse, saved, refused}
use unified_runtime_primitiv.Web.Browsing.{BrowseResponse}
use unified_runtime_primitiv.Web.Endpoints.{StateResponse, offline, online}

-- A line of the console, without the time in front of it, and its class.
pub record Line : Type 0 where
  pub message : String
  pub type : String

-- An option of the select element, or a directory of the picker: its value and its text.
pub record Choice : Type 0 where
  pub value : String
  pub label : String

-- What the elements of the page show and hold, and the alerts that there were.
pub record Page : Type 0 where
  pub log : List Line
  pub alerts : List String
  pub status : String
  pub agent_type : String
  pub workspace_path : String
  pub resume_options : List Choice
  pub resume_conversation : String
  pub conversation_section : Bool
  pub active_section : Bool
  pub active_id : String
  pub save_name : String
  pub message_input : String
  pub browsing_path : String
  pub picker_open : Bool
  pub picker_title : String
  pub dir_list : List Choice

-- The server's endpoints as the page calls them. `raised` is an answer whose status is an error.
pub record Backend (S : Type 0) : Type 0 where
  pub state : Exec S StateResponse
  pub conversations : String → Exec S (List Fields)
  pub save : String → String → Exec S SaveResponse
  pub browse : String → Exec S BrowseResponse
  pub init : String → String → Option String → Exec S String
  pub message : String → Payload → Exec S String

-- What a template makes of a number, and of an entry of a JSON object; `JSON.stringify`; and the
-- first eight characters of a text.
pub record Browser : Type 0 where
  pub number_text : ℕ → String
  pub shown : Option Value → String
  pub stringify : Option Value → String
  pub short : String → String

pub record Tab (S : Type 0) : Type 0 where
  pub page : Page
  pub server : S

abbrev pub new_option : Choice
new_option = record { value = ""; label = "-- New Conversation --" }

-- The page when it has been loaded.
abbrev pub initial_page : Page
initial_page = record {
  log = record { message = "Connecting to URP Runtime Kernel..."; type = "event" } ∷ [];
  alerts = [];
  status = "Agent Status: Starting...";
  agent_type = "echo";
  workspace_path = "./agent_workspace";
  resume_options = new_option ∷ [];
  resume_conversation = "";
  conversation_section = false;
  active_section = false;
  active_id = "None";
  save_name = "";
  message_input = "";
  browsing_path = ".";
  picker_open = false;
  picker_title = "";
  dir_list = [];
}

-- `a || b` of texts.
abbrev pub text_or_else : Option String → String → String
text_or_else none other = other
text_or_else (some t) other = if t == "" then other else t

abbrev pub type_error : Exception
type_error = other_error "TypeError"

module _ {S : Type 0} where
  abbrev pub edit : (Page → Page) → Exec (Tab S) ⊤
  edit f = modify λ tab. record tab { page = f tab.page }

  -- A request, and its answer.
  abbrev pub fetch : {A : Type 0} → Exec S A → Exec (Tab S) A
  fetch request tab = let (r, s) = request tab.server in (r, record tab { server = s })

  -- A call that is not awaited: what it raises stops nothing else.
  abbrev pub spawn : {A : Type 0} → Exec (Tab S) A → Exec (Tab S) ⊤
  spawn m tab = (ok tt, (m tab).1)

  abbrev pub add_log : String → String → Exec (Tab S) ⊤
  add_log message type =
      edit λ p. record p { log = p.log ++ record { message = message; type = type } ∷ [] }

  abbrev pub alert : String → Exec (Tab S) ⊤
  alert message = edit λ p. record p { alerts = p.alerts ++ message ∷ [] }

-- `Agent Status: … | Mailbox: …`
abbrev pub status_line : String → String → String
status_line status size = join "Agent Status: " (join status (join " | Mailbox: " size))

-- The options are set anew, which selects the first.
abbrev pub offer : List Choice → Page → Page
offer convs p = record p { resume_options = new_option ∷ convs; resume_conversation = "" }

module _ (browser : Browser) where
  abbrev pub show_state : StateResponse → Page → Page
  show_state offline p = record p {
    status = status_line "OFFLINE" "undefined";
    conversation_section = p.agent_type == "sdk";
    active_section = false;
  }
  show_state (online view status id) p =
      let is_sdk = p.agent_type == "sdk" in
      let is_active = not (status == "OFFLINE") && is_sdk in
      record p {
        status = status_line status (browser.number_text view.mailbox_size);
        conversation_section = is_sdk;
        active_section = is_active;
        active_id = if is_active then text_or_else id "None" else p.active_id;
      }

  -- `c.id.substring(0,8)` fails on what is no text.
  abbrev pub choice_of : Option Value → Option Value → Option Choice
  choice_of (some (text id)) name = some (record {
    value = id;
    label = join (browser.shown name) (join " (" (join (browser.short id) ")"));
  })
  choice_of _ name = none

  -- The options up to the first conversation on which the loop fails, and whether it comes to its
  -- end.
  abbrev pub with_choice : Option Choice → List Choice × Bool → List Choice × Bool
  with_choice none rest = ([], false)
  with_choice (some c) (cs, done) = (c ∷ cs, done)

  unfoldable pub choices : List Fields → List Choice × Bool
  choices [] = ([], true)
  choices (c ∷ cs) = with_choice (choice_of (find_field "id" c) (find_field "name" c)) (choices cs)

  abbrev pub ends : Bool → {S : Type 0} → Exec S ⊤
  ends true = pure tt
  ends false = raise type_error

  module _ {S : Type 0} (backend : Backend S) where
    unfoldable pub update_status : Exec (Tab S) ⊤
    update_status = do state ← fetch backend.state; edit (show_state state)

    unfoldable pub load_conversations : Exec (Tab S) ⊤
    unfolding choices
    load_conversations = do
      workspace ← gets (λ tab. tab.page.workspace_path)
      convs ← fetch (backend.conversations workspace)
      edit (offer (choices convs).0)
      ends (choices convs).1

    unfoldable pub after_save : String → SaveResponse → Exec (Tab S) ⊤
    unfolding load_conversations
    after_save name (saved id n) = do
      add_log (join "Conversation saved as: " name) "event"
      spawn load_conversations
    after_save name (refused message) = alert message

    unfoldable pub save_current_conversation : Exec (Tab S) ⊤
    unfolding after_save
    save_current_conversation tab =
        let name = tab.page.save_name in
        if name == ""
        then alert "Please enter a name" tab
        else (fetch (backend.save name tab.page.workspace_path) >>= after_save name) tab
