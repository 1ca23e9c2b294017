-- ===== src/Web/Logging.antt =====
-- The event log beside what a web socket hands on.
use mathlib.Core.List.{map-append}
use unified_runtime_primitiv.Base.{
  ◌≡◌, refl, sym, subst, ◌∙◌, ap, inl, inr, suc, Bool, some, List, [], ◌∷◌, ◌++◌, map, length,
  append-nil, append_assoc,
}
use unified_runtime_primitiv.Data.{MessageEnvelope, Value, null}
use unified_runtime_primitiv.Exec.{Exception, Result, ok, raised, ⊤}
use unified_runtime_primitiv.Host.{host_runtime, holds, internal_emit_handler, call_external}
use unified_runtime_primitiv.Agent.{emit, emit_to}
use unified_runtime_primitiv.Host.Queue.{returned, events_of, emit_all}
use unified_runtime_primitiv.Web.Endpoints.{
  ServedHost, ServedAgent, Server, hosts, Platform, world_of, server_environment, log_event,
}
use unified_runtime_primitiv.Web.Socket.{SocketEnd, waiting, websocket_endpoint}
use unified_runtime_primitiv.Web.Delivery.{
  Delivery, hands_on, stops, DumpsTo, leaving, unread, websocket_endpoint-Delivery,
}

-- A dump out of a list of results that are all dumps.
abbrev value_of : Result Value → Value
value_of (ok v) = v
value_of (raised e) = null

value_of-ok : (vs : List Value) → map value_of (map ok vs) ≡ vs
value_of-ok [] = refl
value_of-ok (v ∷ vs) = ap (λ xs. v ∷ xs) (value_of-ok vs)

same_values : (vs ws : List Value) → map ok vs ≡ map ok ws → vs ≡ ws
same_values vs ws h = sym (value_of-ok vs) ∙ ap (map value_of) h ∙ value_of-ok ws

module _ {X : Type 0} (platform : Platform X) where
  -- No dump of a list raises that has dumps for all of it.
  none_raises :
      (before : List MessageEnvelope) (event : MessageEnvelope) (rest : List MessageEnvelope)
      (values : List Value) (e : Exception)
      → DumpsTo platform (before ++ event ∷ rest) values
      → platform.model_dump event ≡ raised e
      → ⊥
  none_raises [] event rest [] e h r = absurd cc
  none_raises [] event rest (v ∷ vs) e h r = absurd cc
  none_raises (x ∷ xs) event rest [] e h r = absurd cc
  none_raises (x ∷ xs) event rest (v ∷ vs) e h r = none_raises xs event rest vs e (cc) r

  DumpsTo-append :
      (xs ys : List MessageEnvelope) (vs ws : List Value)
      → DumpsTo platform xs vs
      → DumpsTo platform ys ws
      → DumpsTo platform (xs ++ ys) (vs ++ ws)
  DumpsTo-append xs ys vs ws d e =
      map-append platform.model_dump xs ys
      ∙ rw (d, e) (sym (map-append (λ (v : Value). ok v) vs ws))

  -- A served agent that has emitted `events`, as an agent bound to its host does.
  record Emitted (events : List MessageEnvelope) (values : List Value) (a : ServedAgent X)
      (q : Result ⊤ × ServedAgent X) : Type 0 where
    returns : q.0 ≡ ok tt
    queued : events_of q.1 ≡ events_of a ++ events
    logged : q.1.world.world.event_log ≡ a.world.world.event_log ++ values
    bound : q.1.emit_callback ≡ a.emit_callback
    bound_host : q.1.world.emit_callback ≡ a.world.emit_callback

  emit-Emitted :
      (event : MessageEnvelope) (value : Value) (a : ServedAgent X)
      → a.emit_callback ≡ some tt
      → a.world.emit_callback ≡ some tt
      → platform.model_dump event ≡ ok value
      → Emitted
          (event ∷ [])
          (value ∷ [])
          a
          (emit (host_runtime (server_environment platform)) event a)
  unfolding emit emit_to internal_emit_handler call_external log_event
  emit-Emitted event value a bound host d =
      rw (bound, host, d)
        (record { returns = refl; queued = refl; logged = refl; bound = refl; bound_host = refl })

  emit_all-Emitted :
      (events : List MessageEnvelope) (values : List Value) (a : ServedAgent X)
      → a.emit_callback ≡ some tt
      → a.world.emit_callback ≡ some tt
      → DumpsTo platform events values
      → Emitted events values a (emit_all (server_environment platform) events a)
  unfolding emit_all
  emit_all-Emitted [] [] a bound host d = record {
    returns = refl;
    queued = sym (append-nil _);
    logged = sym (append-nil _);
    bound = refl;
    bound_host = refl;
  }
  emit_all-Emitted [] (v ∷ vs) a bound host d = absurd cc
  emit_all-Emitted (x ∷ xs) [] a bound host d = absurd cc
  emit_all-Emitted (x ∷ xs) (v ∷ vs) a bound host d =
      let env = server_environment platform in
      let one = emit-Emitted x v a bound host (cc) in
      let b = (emit (host_runtime env) x a).1 in
      let more = emit_all-Emitted xs vs b (one.bound ∙ bound) (one.bound_host ∙ host) (cc) in
      rw (returned (emit (host_runtime env) x a) (emit_all env xs) one.returns) (record {
        returns = more.returns;
        queued =
            more.queued ∙ ap (λ es. es ++ xs) one.queued ∙ append_assoc (events_of a) (x ∷ []) xs;
        logged =
            more.logged
            ∙ ap (λ es. es ++ vs) one.logged
            ∙ append_assoc a.world.world.event_log (v ∷ []) vs;
        bound = more.bound ∙ one.bound;
        bound_host = more.bound_host ∙ one.bound_host;
      })

  module _ (send_text : List Value → Value → Result ⊤)
      (connected : (sent : List Value) (v : Value) → send_text sent v ≡ ok tt) where
    -- With a client that stays, all is handed on whose dumps do not raise.
    pub all_handed_on :
        (is_echo : Bool) (host : ServedHost X) (events : List MessageEnvelope)
        (values sent : List Value) (q : SocketEnd × List Value × Server X)
        → DumpsTo platform events values
        → Delivery platform send_text is_echo host events sent q
        → q ≡ (waiting, sent ++ values, hosts is_echo (leaving [] host))
    all_handed_on is_echo host events values sent q d (hands_on vs ds r) =
        r
        ∙ ap (λ xs. (waiting, sent ++ xs, hosts is_echo (leaving [] host)))
            (same_values vs values (sym ds ∙ d))
    all_handed_on is_echo host events values sent q d (stops xs x rest vs e es ds (inl r) _) =
        absurd (none_raises xs x rest values e (ap (map platform.model_dump) (sym es) ∙ d) r)
    all_handed_on is_echo host events values sent q d
          (stops xs x rest vs e es ds (inr (v, w, r)) _) =
        let on = connected (sent ++ vs) v in absurd cc

    -- If an agent is bound to the server's host and that to `log_event`, no dump raises and the client
    -- of a web socket stays: whatever events the agent emits, it gets no exception, their dumps are
    -- added to the event log in their order, and a socket that goes on then hands on the same, behind
    -- those of the events that had been waiting, and waits for another.
    pub websocket_endpoint-log :
        (is_echo : Bool) (host : ServedHost X) (a : ServedAgent X) (events : List MessageEnvelope)
        (early values sent : List Value)
        → a.emit_callback ≡ some tt
        → a.world.emit_callback ≡ some tt
        → DumpsTo platform (events_of a) early
        → DumpsTo platform events values
        → let emitted = emit_all (server_environment platform) events a in
          host.held ≡ holds emitted.1
          → let q =
              websocket_endpoint platform send_text
                (suc (length (unread host)))
                sent
                (hosts is_echo host) in
            (emitted.0 ≡ ok tt)
            × ((world_of (hosts is_echo host)).event_log ≡ a.world.world.event_log ++ values)
            × (q ≡ (waiting, sent ++ (early ++ values), hosts is_echo (leaving [] host)))
    websocket_endpoint-log is_echo host a events early values sent bound bound_host before dumped
          held =
        let e = emit_all-Emitted events values a bound bound_host dumped in
        let all = DumpsTo-append (events_of a) events early values before dumped in
        let items : unread host ≡ events_of a ++ events = rw held e.queued in
        (
          e.returns,
          rw held e.logged,
          all_handed_on is_echo host (unread host) (early ++ values) sent _
              (subst (λ es. DumpsTo platform es (early ++ values)) (sym items) all)
              (websocket_endpoint-Delivery platform send_text is_echo host sent),
        )
