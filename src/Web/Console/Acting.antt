-- ===== src/Web/Console/Acting.antt =====
-- What the handlers of the page keep.
use unified_runtime_primitiv.Base.{
  ℕ, ◌≡◌, refl, sym, String, Bool, true, false, [], append-nil, join, ◌==◌, ◌&&◌, not,
  if◌then◌else◌, map,
}
use unified_runtime_primitiv.Data.{Fields}
use unified_runtime_primitiv.Exec.{Exec, ⊤, pure}
use unified_runtime_primitiv.Exec.Keeps.{Keeps, Keeps-pure, Keeps-raise, Keeps-bind}
use unified_runtime_primitiv.Web.Conversations.{Files, SaveResponse, saved, refused}
use unified_runtime_primitiv.Web.Browsing.{Directories, BrowseResponse, error, listing}
use unified_runtime_primitiv.Web.Endpoints.{Platform, StateResponse, offline, online}
use unified_runtime_primitiv.Web.Console.Defs.{
  Page, Backend, Browser, Tab, offer, type_error, choices, ends, show_state, update_status,
  load_conversations, after_save, save_current_conversation,
}
use unified_runtime_primitiv.Web.Console.Handlers.{
  dir_choice, show_dirs, show_listing, close_picker, browse, open_picker, select_current_dir,
  on_message,
}
use unified_runtime_primitiv.Web.Console.Events.{if_shown}
use unified_runtime_primitiv.Web.Console.Forming.{
  Extends, Proceeds, Proceeds-order, edit-Proceeds, fetch-Proceeds, spawn-Proceeds, gets-Proceeds,
  edit_beside-Proceeds, add_log-Proceeds, alert-Proceeds,
}
use unified_runtime_primitiv.Web.Console.Site.{Site, save_active, site_backend}

right_holds : (a b : Bool) → (a && b) ≡ true → b ≡ true
right_holds true b h = h
right_holds false b h = absurd cc

module _ (browser : Browser) where
  show_state-Extends : (state : StateResponse) (p : Page) → Extends p (show_state browser state p)
  show_state-Extends offline p = record {
    lines = [];
    log = sym (append-nil p.log);
    forms = λ h. record {
      saved_options = h.saved_options;
      offers_new = h.offers_new;
      selects = h.selects;
      has_type = h.has_type;
      nested = λ e. absurd cc;
      status_text = join "OFFLINE" (join " | Mailbox: " "undefined");
      shows_status = refl;
    };
  }
  show_state-Extends (online view status id) p = record {
    lines = [];
    log = sym (append-nil p.log);
    forms = λ h. record {
      saved_options = h.saved_options;
      offers_new = h.offers_new;
      selects = h.selects;
      has_type = h.has_type;
      nested = right_holds (not (status == "OFFLINE")) (p.agent_type == "sdk");
      status_text = join status (join " | Mailbox: " (browser.number_text view.mailbox_size));
      shows_status = refl;
    };
  }

module _ {X D : Type 0} where
  abbrev pub Kept : {A : Type 0} → Exec (Tab (Site X D)) A → Type 0
  Kept = Keeps Proceeds

  ends-Kept : (browser : Browser) (b : Bool) → Kept (ends browser b)
  ends-Kept browser true = Keeps-pure Proceeds-order tt
  ends-Kept browser false = Keeps-raise Proceeds-order type_error

  pub if-Proceeds :
      (b : Bool) {A : Type 0} (m k : Exec (Tab (Site X D)) A) (s : Tab (Site X D))
      → Kept m
      → Kept k
      → Proceeds s (if b then m s else k s).1
  if-Proceeds true m k s h g = h.at s
  if-Proceeds false m k s h g = g.at s

  pub if-Kept :
      (b : Bool) {A : Type 0} (m k : Exec (Tab (Site X D)) A)
      → Kept m
      → Kept k
      → Kept (if b then m else k)
  if-Kept true m k h g = h
  if-Kept false m k h g = g

  pub if_shown-Kept :
      (shown : Page → Bool) (m : Exec (Tab (Site X D)) ⊤) → Kept m → Kept (if_shown shown m)
  if_shown-Kept shown m h = record {
    at = λ s. if-Proceeds (shown s.page) m (pure tt) s h (Keeps-pure Proceeds-order tt);
  }

module _ (browser : Browser) {X D : Type 0} (platform : Platform X) (files : Files D)
    (directories : Directories) (n : ℕ) where
  abbrev here : Backend (Site X D)
  here = site_backend platform files directories n

  pub update_status-Kept : Kept (update_status browser here)
  unfolding update_status
  update_status-Kept =
      Keeps-bind Proceeds-order _ _ (fetch-Proceeds here.state λ s h. h)
        λ state. edit-Proceeds _ (show_state-Extends browser state)

  pub load_conversations-Kept : Kept (load_conversations browser here)
  unfolding load_conversations
  load_conversations-Kept =
      Keeps-bind Proceeds-order _ _ (gets-Proceeds λ tab. tab.page.workspace_path) λ workspace.
        Keeps-bind Proceeds-order _ _ (fetch-Proceeds (here.conversations workspace) λ s h. h)
          λ convs.
            Keeps-bind Proceeds-order _ _
              (edit-Proceeds (offer (choices browser convs).0) λ p. record {
                lines = [];
                log = sym (append-nil p.log);
                forms = λ h. record {
                  saved_options = (choices browser convs).0;
                  offers_new = refl;
                  selects = refl;
                  has_type = h.has_type;
                  nested = h.nested;
                  status_text = h.status_text;
                  shows_status = h.shows_status;
                };
              })
              λ _. ends-Kept browser (choices browser convs).1

  after_save-Kept : (name : String) (r : SaveResponse) → Kept (after_save browser here name r)
  unfolding after_save
  after_save-Kept name (saved id t) =
      Keeps-bind Proceeds-order _ _ (add_log-Proceeds _ _)
        λ _. spawn-Proceeds _ load_conversations-Kept
  after_save-Kept name (refused message) = alert-Proceeds message

  pub save_current_conversation-Kept : Kept (save_current_conversation browser here)
  unfolding save_current_conversation save_active
  save_current_conversation-Kept = record {
    at = λ s.
        let name = s.page.save_name in
        if-Proceeds (name == "") _ _ s (alert-Proceeds "Please enter a name") (
          Keeps-bind Proceeds-order _ _
            (fetch-Proceeds (here.save name s.page.workspace_path) λ site h. h)
            (after_save-Kept name));
  }

  show_listing-Kept : (r : BrowseResponse) → Kept {X = X} {D = D} (show_listing r)
  unfolding show_listing
  show_listing-Kept (error t) =
      if-Kept (t == "") _ _
        (Keeps-bind Proceeds-order _ _
          (edit_beside-Proceeds (show_dirs "undefined" "" []) (λ p. refl) (λ p h. h))
          λ _. Keeps-raise Proceeds-order type_error)
        (alert-Proceeds t)
  show_listing-Kept (listing path items) =
      edit_beside-Proceeds (show_dirs path path (map dir_choice items)) (λ p. refl) (λ p h. h)

  pub browse-Kept : (path : String) → Kept (browse here path)
  unfolding browse
  browse-Kept path =
      Keeps-bind Proceeds-order _ _ (fetch-Proceeds (here.browse path) λ s h. h) show_listing-Kept

  pub open_picker-Kept : Kept (open_picker here)
  unfolding open_picker
  open_picker-Kept =
      Keeps-bind Proceeds-order _ _
        (edit_beside-Proceeds (λ p. record p { picker_open = true }) (λ p. refl) (λ p h. h))
        λ _.
          Keeps-bind Proceeds-order _ _ (gets-Proceeds λ tab. tab.page.browsing_path)
            λ path. spawn-Proceeds _ (browse-Kept path)

  pub close_picker-Kept : Kept {A = ⊤} (close_picker {S = Site X D})
  unfolding close_picker
  close_picker-Kept =
      edit_beside-Proceeds (λ p. record p { picker_open = false }) (λ p. refl) (λ p h. h)

  pub select_current_dir-Kept : Kept (select_current_dir browser here)
  unfolding select_current_dir
  select_current_dir-Kept =
      Keeps-bind Proceeds-order _ _
        (edit_beside-Proceeds (λ p. record p { workspace_path = p.browsing_path }) (λ p. refl)
          (λ p h. h))
        λ _.
          Keeps-bind Proceeds-order _ _ close_picker-Kept
            λ _. spawn-Proceeds _ load_conversations-Kept

  pub on_message-Kept : (event : Fields) → Kept (on_message browser here event)
  unfolding on_message
  on_message-Kept event =
      Keeps-bind Proceeds-order _ _ (add_log-Proceeds _ _) λ _. spawn-Proceeds _ update_status-Kept
