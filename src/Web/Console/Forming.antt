-- ===== src/Web/Console/Forming.antt =====
-- What holds of the page and the server whatever happens to them.
use unified_runtime_primitiv.Base.{
  ◌≡◌, refl, sym, ◌∙◌, ap, String, Bool, true, false, List, [], ◌∷◌, ◌++◌, append-nil, append_assoc,
  join, if◌then◌else◌, ◌⊎◌, inl, inr,
}
use unified_runtime_primitiv.Exec.{Exec, gets}
use unified_runtime_primitiv.Exec.Keeps.{Keeps, Preorder}
use unified_runtime_primitiv.Web.Serving.{ServedIsCoherent}
use unified_runtime_primitiv.Web.Console.Defs.{
  initial_page, Line, Choice, Page, Tab, new_option, edit, fetch, spawn, add_log, alert,
}
use unified_runtime_primitiv.Web.Console.Events.{has_value, agent_type_of}
use unified_runtime_primitiv.Web.Console.Site.{Site}

-- What the elements show together: the options begin with the one for a new conversation, and the
-- one that is selected is among them; the type is one of the two; the active conversation is shown
-- only beside the options; the status follows its label.
pub record Shows (options : List Choice) (selected agent_type : String) (section active : Bool)
    (status : String) : Type 0 where
  pub saved_options : List Choice
  pub offers_new : options ≡ new_option ∷ saved_options
  pub selects : has_value selected options ≡ true
  pub has_type : (agent_type ≡ "echo") ⊎ (agent_type ≡ "sdk")
  pub nested : active ≡ true → section ≡ true
  pub status_text : String
  pub shows_status : status ≡ join "Agent Status: " status_text

abbrev pub IsFormed : Page → Type 0
IsFormed p =
    Shows p.resume_options p.resume_conversation p.agent_type p.conversation_section
      p.active_section p.status

pub agent_type_of_cases : (sdk : Bool) → (agent_type_of sdk ≡ "echo") ⊎ (agent_type_of sdk ≡ "sdk")
agent_type_of_cases true = inr refl
agent_type_of_cases false = inl refl

pub choose-log :
    (b : Bool) (id : String) (p : Page)
    → (if b then record p { resume_conversation = id } else p).log ≡ p.log
choose-log true id p = refl
choose-log false id p = refl

pub choose-IsFormed :
    (b : Bool) (id : String) (p : Page)
    → has_value id p.resume_options ≡ b
    → IsFormed p
    → IsFormed (if b then record p { resume_conversation = id } else p)
choose-IsFormed true id p e h = record {
  saved_options = h.saved_options;
  offers_new = h.offers_new;
  selects = e;
  has_type = h.has_type;
  nested = h.nested;
  status_text = h.status_text;
  shows_status = h.shows_status;
}
choose-IsFormed false id p e h = h

pub initial_page-IsFormed : IsFormed initial_page
initial_page-IsFormed = record {
  saved_options = [];
  offers_new = refl;
  selects = refl;
  has_type = inl refl;
  nested = λ e. absurd cc;
  status_text = "Starting...";
  shows_status = refl;
}

-- What the page showed in its console stays, and a formed page stays one.
pub record Extends (p q : Page) : Type 0 where
  pub lines : List Line
  pub log : q.log ≡ p.log ++ lines
  pub forms : IsFormed p → IsFormed q

pub Extends-refl : (p : Page) → Extends p p
Extends-refl p = record { lines = []; log = sym (append-nil p.log); forms = λ h. h }

Extends-trans : (p q r : Page) → Extends p q → Extends q r → Extends p r
Extends-trans p q r h k = record {
  lines = h.lines ++ k.lines;
  log = k.log ∙ ap (λ l. l ++ k.lines) h.log ∙ append_assoc p.log h.lines k.lines;
  forms = λ f. k.forms (h.forms f);
}

-- The page extends, and a coherent server stays coherent.
pub record Proceeds {X D : Type 0} (s t : Tab (Site X D)) : Type 0 where
  pub page : Extends s.page t.page
  pub server : ServedIsCoherent s.server.server → ServedIsCoherent t.server.server

module _ {X D : Type 0} where
  pub Proceeds-order : Preorder (Proceeds {X = X} {D = D})
  Proceeds-order = record {
    same = λ s. record { page = Extends-refl s.page; server = λ h. h };
    then = λ s t u g h. record {
      page = Extends-trans s.page t.page u.page g.page h.page;
      server = λ k. h.server (g.server k);
    };
  }

  pub edit-Proceeds :
      (f : Page → Page) → ((p : Page) → Extends p (f p)) → Keeps (Proceeds {X = X} {D = D}) (edit f)
  edit-Proceeds f h = record { at = λ s. record { page = h s.page; server = λ k. k } }

  pub fetch-Proceeds :
      {A : Type 0} (request : Exec (Site X D) A)
      → ((s : Site X D) → ServedIsCoherent s.server → ServedIsCoherent (request s).1.server)
      → Keeps (Proceeds {X = X} {D = D}) (fetch request)
  fetch-Proceeds request h = record {
    at = λ s. record { page = Extends-refl s.page; server = h s.server };
  }

  pub spawn-Proceeds :
      {A : Type 0} (m : Exec (Tab (Site X D)) A) → Keeps Proceeds m → Keeps Proceeds (spawn m)
  spawn-Proceeds m k = record { at = k.at }

  pub gets-Proceeds : {A : Type 0} (f : Tab (Site X D) → A) → Keeps Proceeds (gets f)
  gets-Proceeds f = record { at = Proceeds-order.same }

  -- An edit of what neither the console nor the invariant speaks of.
  pub edit_beside-Proceeds :
      (f : Page → Page)
      → ((p : Page) → (f p).log ≡ p.log)
      → ((p : Page) → IsFormed p → IsFormed (f p))
      → Keeps (Proceeds {X = X} {D = D}) (edit f)
  edit_beside-Proceeds f same forms =
      edit-Proceeds f
        λ p. record { lines = []; log = same p ∙ sym (append-nil p.log); forms = forms p }

  pub add_log-Proceeds :
      (message type : String) → Keeps (Proceeds {X = X} {D = D}) (add_log message type)
  add_log-Proceeds message type = edit-Proceeds _ λ p. record {
    lines = record { message = message; type = type } ∷ [];
    log = refl;
    forms = λ h. h;
  }

  pub alert-Proceeds : (message : String) → Keeps (Proceeds {X = X} {D = D}) (alert message)
  alert-Proceeds message =
      edit_beside-Proceeds (λ p. record p { alerts = p.alerts ++ message ∷ [] }) (λ p. refl)
        (λ p h. h)
