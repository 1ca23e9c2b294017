-- ===== src/Web/Echoing.antt =====
-- The server with an `EchoAgent`, from its mailbox to the client of a web socket.
use mathlib.Core.Path.{ap₂}
use unified_runtime_primitiv.Base.{◌≡◌, refl, suc, true, some, List, [], ◌∷◌, ◌++◌, map, length}
use unified_runtime_primitiv.Data.{MessageEnvelope, Value}
use unified_runtime_primitiv.Exec.{Result, ok, raised, ⊤}
use unified_runtime_primitiv.Exec.Keeps.{Keeps}
use unified_runtime_primitiv.Agent.Frame.{Leaves}
use unified_runtime_primitiv.Agent.Opening.{Opens}
use unified_runtime_primitiv.Agent.Taking.{run_task}
use unified_runtime_primitiv.Agent.Draining.{IsLive}
use unified_runtime_primitiv.Host.{holds}
use unified_runtime_primitiv.Host.Queue.{IsQuiet}
use unified_runtime_primitiv.Host.Writing.{note_of, notes_of}
use unified_runtime_primitiv.Sample.Quiet.{IsQuietEnvironment}
use unified_runtime_primitiv.Sample.Hosted.{echoes_of, run_task-echoes}
use unified_runtime_primitiv.Web.Endpoints.{
  ServedHost, ServedAgent, hosts, Platform, class_of, log_dump, log_event, server_environment,
}
use unified_runtime_primitiv.Web.Socket.{waiting, websocket_endpoint}
use unified_runtime_primitiv.Web.Serving.{log_dump-Leaves}
use unified_runtime_primitiv.Web.Delivery.{DumpsTo, leaving, unread, websocket_endpoint-Delivery}
use unified_runtime_primitiv.Web.Logging.{all_handed_on}

-- No dump raises, and the tasks beside the agent's return and leave to it what is its own, but for
-- messages that they send; they take no event and ask for no shutdown.
pub record IsQuietPlatform {X : Type 0} (platform : Platform X) : Type 0 where
  pub dump : MessageEnvelope → Value
  pub dumps : (e : MessageEnvelope) → platform.model_dump e ≡ ok (dump e)
  pub others : (a : ServedAgent X) → IsQuiet a (platform.others a)
  pub others_leave : Keeps Leaves platform.others
  pub others_open : Keeps Opens platform.others

module _ {X : Type 0} (platform : Platform X) where
  log_dump-Opens : (r : Result Value) (a : ServedAgent X) → Opens a (log_dump platform r a).1
  log_dump-Opens (ok dump) a = record { opens = λ h. h }
  log_dump-Opens (raised e) a = record { opens = λ h. h }

  log_dump-IsQuiet :
      (r : Result Value) (dump : Value) (a : ServedAgent X)
      → r ≡ ok dump
      → IsQuiet a (log_dump platform r a)
  log_dump-IsQuiet (ok v) dump a e = record {
    returns = refl;
    same_events = refl;
    same_callback = refl;
  }
  log_dump-IsQuiet (raised x) dump a e = absurd cc

module _ {X : Type 0} (platform : Platform X) (quiet : IsQuietPlatform platform) where
  pub server-IsQuietEnvironment : IsQuietEnvironment (server_environment platform)
  unfolding log_event
  server-IsQuietEnvironment = record {
    calls =
        λ c e a. log_dump-IsQuiet platform (platform.model_dump e) (quiet.dump e) a (quiet.dumps e);
    others = quiet.others;
    call_leaves = λ c e. record { at = log_dump-Leaves platform (platform.model_dump e) };
    others_leave = quiet.others_leave;
    call_opens = λ c e. record { at = log_dump-Opens platform (platform.model_dump e) };
    others_open = quiet.others_open;
  }

  all_dump : (events : List MessageEnvelope) → DumpsTo platform events (map quiet.dump events)
  all_dump [] = refl
  all_dump (e ∷ events) = ap₂ (λ r rs. r ∷ rs) (quiet.dumps e) (all_dump events)

  -- If no dump raises, the other tasks do not interfere (`IsQuietPlatform`) and the client of a web
  -- socket stays: the server's host holds an `EchoAgent` that is bound to it and whose loop waits.
  -- Once the agent's task has run as often as messages waited, the socket that goes on sends the
  -- dumps of all events that wait in the host, and waits for another. These events are those that
  -- had been waiting, and then for each message, in the order of the mailbox, ECHO_RECEIVED with
  -- the message's text and TASK_COMPLETED with the echo and the message's correlation id.
  pub websocket_endpoint-echoes :
      (send_text : List Value → Value → Result ⊤)
      (connected : (sent : List Value) (v : Value) → send_text sent v ≡ ok tt) (a : ServedAgent X)
      (host : ServedHost X) (sent : List Value)
      → IsLive a
      → a.emit_callback ≡ some tt
      → host.held ≡ holds (run_task (class_of platform true) (length a.mailbox.items) a)
      → (map note_of (unread host) ≡ notes_of a ++ echoes_of platform.str a.mailbox.items)
        × (websocket_endpoint platform send_text (suc (length (unread host))) sent (hosts true host)
            ≡ (waiting, sent ++ map quiet.dump (unread host), hosts true (leaving [] host)))
  websocket_endpoint-echoes send_text connected a host sent live bound held =
      let (still, wrote) =
        run_task-echoes platform.str (server_environment platform) server-IsQuietEnvironment a live
          bound in
      (
        rw held wrote,
        all_handed_on platform send_text connected true host (unread host)
            (map quiet.dump (unread host)) sent _ (all_dump (unread host))
            (websocket_endpoint-Delivery platform send_text true host sent),
      )
