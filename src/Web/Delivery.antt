-- ===== src/Web/Delivery.antt =====
-- Which events a web socket hands to its client.
use mathlib.Core.Logic.{⊎_map}
use unified_runtime_primitiv.Base.{
  ◌≡◌, refl, sym, ◌∙◌, ap, ◌⊎◌, inl, inr, suc, Bool, some, List, [], ◌∷◌, ◌++◌, map, length,
  append-nil, append_assoc,
}
use unified_runtime_primitiv.Data.{MessageEnvelope, Value}
use unified_runtime_primitiv.Exec.{Exception, Result, ok, raised, ⊤}
use unified_runtime_primitiv.Mailbox.{drop_items}
use unified_runtime_primitiv.Host.{Held, idle, holds, hold, fields_of, get_next_event, next_from}
use unified_runtime_primitiv.Web.Endpoints.{ServerFields, ServedHost, Server, hosts, Platform}
use unified_runtime_primitiv.Web.Socket.{
  SocketEnd, waiting, closing, next_dump, after_send, pushed, websocket_endpoint,
}

module _ {X : Type 0} where
  -- The events that wait in the host.
  abbrev pub unread : ServedHost X → List MessageEnvelope
  unread host = (fields_of host.held).event_queue.items

  abbrev left_held : List MessageEnvelope → Held ⊤ (ServerFields X) → Held ⊤ (ServerFields X)
  left_held rest s =
      let f = fields_of s in hold (record f { event_queue = drop_items rest f.event_queue }) s

  -- The host when only `rest` is left in its event queue.
  abbrev pub leaving : List MessageEnvelope → ServedHost X → ServedHost X
  leaving rest host = record host { held = left_held rest host.held }

  left_again :
      (rest more : List MessageEnvelope) (s : Held ⊤ (ServerFields X))
      → left_held rest (left_held more s) ≡ left_held rest s
  left_again rest more (idle f) = refl
  left_again rest more (holds a) = refl

  unread_left :
      (rest : List MessageEnvelope) (s : Held ⊤ (ServerFields X))
      → (fields_of (left_held rest s)).event_queue.items ≡ rest
  unread_left rest (idle f) = refl
  unread_left rest (holds a) = refl

  left_nothing :
      (s : Held ⊤ (ServerFields X)) → (fields_of s).event_queue.items ≡ [] → s ≡ left_held [] s
  left_nothing (idle f) h =
      ap (λ items. idle (record f { event_queue = drop_items items f.event_queue })) h
  left_nothing (holds a) h =
      let f = a.world in
      ap (λ items. hold (record f { event_queue = drop_items items f.event_queue }) (holds a)) h

  -- An end after one more dump, told from before it.
  end_cons :
      (end : SocketEnd) (is_echo : Bool) (sent values : List Value) (dump : Value)
      (rest more : List MessageEnvelope) (host : ServedHost X)
      (q : SocketEnd × List Value × Server X)
      → q ≡ (end, (sent ++ dump ∷ []) ++ values, hosts is_echo (leaving rest (leaving more host)))
      → q ≡ (end, sent ++ dump ∷ values, hosts is_echo (leaving rest host))
  end_cons end is_echo sent values dump rest more host q e =
      let a = append_assoc sent (dump ∷ []) values in
      let l = left_again rest more host.held in e ∙ cc

module _ {X : Type 0} (platform : Platform X) where
  -- `values` are the dumps of `events`.
  abbrev pub DumpsTo : List MessageEnvelope → List Value → Type 0
  DumpsTo events values = map platform.model_dump events ≡ map ok values

module _ {X : Type 0} (platform : Platform X) (send_text : List Value → Value → Result ⊤) where
  -- What the loop does when `events` wait: it hands on all and waits for another, or the dump or the
  -- sending of one raised, and then it has handed on those before it and those behind it still wait.
  pub data Delivery (is_echo : Bool) (host : ServedHost X) (events : List MessageEnvelope)
      (sent : List Value) (q : SocketEnd × List Value × Server X) : Type 0 where
    hands_on :
        (values : List Value)
        → DumpsTo platform events values
        → q ≡ (waiting, sent ++ values, hosts is_echo (leaving [] host))
        → Delivery is_echo host events sent q
    stops :
        (before : List MessageEnvelope) (event : MessageEnvelope) (rest : List MessageEnvelope)
        (values : List Value) (e : Exception)
        → events ≡ before ++ event ∷ rest
        → DumpsTo platform before values
        → (platform.model_dump event ≡ raised e)
          ⊎ ((dump : Value) × (platform.model_dump event ≡ ok dump)
              × (send_text (sent ++ values) dump ≡ raised e))
        → q ≡ (closing e, sent ++ values, hosts is_echo (leaving rest host))
        → Delivery is_echo host events sent q

  Delivery-cons :
      (is_echo : Bool) (host : ServedHost X) (event : MessageEnvelope)
      (events : List MessageEnvelope) (sent : List Value) (dump : Value)
      (q : SocketEnd × List Value × Server X)
      → platform.model_dump event ≡ ok dump
      → Delivery is_echo (leaving events host) events (sent ++ dump ∷ []) q
      → Delivery is_echo host (event ∷ events) sent q
  Delivery-cons is_echo host event events sent dump q d (hands_on values ds e) =
      hands_on (dump ∷ values) (cc) (end_cons waiting is_echo sent values dump [] events host q e)
  Delivery-cons is_echo host event events sent dump q d (stops before x rest values e es ds why r) =
      stops (event ∷ before) x rest (dump ∷ values) e (ap (λ xs. event ∷ xs) es) (cc)
        (⊎_map (λ w. w)
          (λ (v, dumped, sending). (
            v,
            dumped,
            ap (λ xs. send_text xs v) (sym (append_assoc sent (dump ∷ []) values)) ∙ sending,
          ))
          why)
        (end_cons (closing e) is_echo sent values dump rest events host q r)

  module _ (is_echo : Bool) (event : MessageEnvelope) (events : List MessageEnvelope)
      (host : ServedHost X) (sent : List Value) where
    -- The rest of the loop.
    abbrev on : List Value → Server X → SocketEnd × List Value × Server X
    on = websocket_endpoint platform send_text (suc (length events))

    abbrev RestDelivers : Value → Type 0
    RestDelivers dump =
        Delivery is_echo (leaving events host) events (sent ++ dump ∷ [])
          (on (sent ++ dump ∷ []) (hosts is_echo (leaving events host)))

    sent_on :
        (dump : Value) (r : Result ⊤)
        → platform.model_dump event ≡ ok dump
        → send_text sent dump ≡ r
        → RestDelivers dump
        → Delivery is_echo host
            (event ∷ events)
            sent
            (after_send platform send_text on sent dump (hosts is_echo (leaving events host)) r)
    sent_on dump (ok _) d s rest = Delivery-cons is_echo host event events sent dump _ d rest
    sent_on dump (raised e) d s rest =
        stops [] event events [] e refl refl
          (inr (dump, d, ap (λ xs. send_text xs dump) (append-nil sent) ∙ s))
          (rw (append-nil sent) refl)

    dumped_on :
        (r : Result Value)
        → platform.model_dump event ≡ r
        → ((dump : Value) → RestDelivers dump)
        → Delivery is_echo host (event ∷ events) sent (
            pushed platform send_text on sent
              (hosts is_echo host)
              (some (r, hosts is_echo (leaving events host))))
    dumped_on (ok dump) d rest = sent_on dump (send_text sent dump) d refl (rest dump)
    dumped_on (raised e) d rest =
        stops [] event events [] e refl refl (inl d) (rw (append-nil sent) refl)

  deliver :
      (is_echo : Bool) (events : List MessageEnvelope) (host : ServedHost X) (sent : List Value)
      → unread host ≡ events
      → Delivery is_echo host events sent
          (websocket_endpoint platform send_text (suc (length events)) sent (hosts is_echo host))
  unfolding websocket_endpoint next_dump get_next_event next_from
  deliver is_echo [] host sent h =
      let same = left_nothing host.held h in hands_on [] refl (rw (h, append-nil sent) cc)
  deliver is_echo (event ∷ events) host sent h = rw h (
      dumped_on is_echo event events host sent (platform.model_dump event) refl (λ dump.
        deliver is_echo events (leaving events host) (sent ++ dump ∷ [])
          (unread_left events host.held)))

  -- If `n` events wait when the loop of a web socket comes to its next round, then `n + 1` rounds
  -- bring it to an end or to waiting. It hands on the dumps of all, each once and in the order of the
  -- queue, and waits for another, the queue empty. Or the dump or the sending of one raised: then it
  -- has handed on those before it and has ended, quietly if the client had gone, and those behind it
  -- are still in the queue, but the one is lost. The host is as before but for its queue.
  pub websocket_endpoint-Delivery :
      (is_echo : Bool) (host : ServedHost X) (sent : List Value)
      → Delivery is_echo host (unread host) sent (
          websocket_endpoint platform send_text
            (suc (length (unread host)))
            sent
            (hosts is_echo host))
  websocket_endpoint-Delivery is_echo host sent = deliver is_echo (unread host) host sent refl
