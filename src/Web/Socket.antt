-- ===== src/Web/Socket.antt =====
-- `websocket_endpoint`: the loop that hands the host's events to a client.
use mathlib.Core.Option
use unified_runtime_primitiv.Base.{
  ℕ, zero, suc, Option, none, some, List, [], ◌∷◌, ◌++◌, ◌==◌, if◌then◌else◌,
}
use unified_runtime_primitiv.Data.{Value}
use unified_runtime_primitiv.Exec.{Exception, other_error, Result, ok, raised, ⊤, continue}
use unified_runtime_primitiv.Host.{get_next_event}
use unified_runtime_primitiv.Web.Endpoints.{Server, unhosted, hosts, Platform, around_server}

-- How far the loop has come: it waits for an event for ever, its rounds are used up, the client has
-- gone, or an error has ended it.
pub data SocketEnd : Type 0 where
  waiting going disconnected : SocketEnd
  failed : Exception → SocketEnd

-- `except WebSocketDisconnect: pass`
unfoldable pub closing : Exception → SocketEnd
closing (other_error t) =
    if t == "WebSocketDisconnect" then disconnected else failed (other_error t)
closing e = failed e

module _ {X : Type 0} (platform : Platform X) where
  -- The next event as `model_dump` gives it; `none` if it waits for ever.
  unfoldable pub next_dump : Server X → Option (Result Value × Server X)
  next_dump (unhosted f) = some (raised (other_error "AttributeError"), unhosted f)
  next_dump (hosts is_echo host) =
      Option.map
        (λ q. around_server is_echo (continue q (λ event k. (platform.model_dump event, k))))
        (get_next_event none host)

  -- `send_text` is the client's connection: what comes of sending a dump after those sent before.
  module _ (send_text : List Value → Value → Result ⊤) where
    abbrev pub after_send :
        (List Value → Server X → SocketEnd × List Value × Server X)
        → List Value
        → Value
        → Server X
        → Result ⊤
        → SocketEnd × List Value × Server X
    after_send more sent dump server (ok _) = more (sent ++ dump ∷ []) server
    after_send more sent dump server (raised e) = (closing e, sent, server)

    abbrev pub pushed :
        (List Value → Server X → SocketEnd × List Value × Server X)
        → List Value
        → Server X
        → Option (Result Value × Server X)
        → SocketEnd × List Value × Server X
    pushed more sent server none = (waiting, sent, server)
    pushed more sent server (some (raised e, t)) = (closing e, sent, t)
    pushed more sent server (some (ok dump, t)) = after_send more sent dump t (send_text sent dump)

    -- At most `n` rounds, after `sent`.
    unfoldable pub websocket_endpoint :
        ℕ → List Value → Server X → SocketEnd × List Value × Server X
    unfolding next_dump closing
    websocket_endpoint zero sent server = (going, sent, server)
    websocket_endpoint (suc n) sent server =
        pushed (websocket_endpoint n) sent server (next_dump server)
