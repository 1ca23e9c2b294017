-- ===== src/Host/Queue.antt =====
-- The host's event queue, between the agent and the client.
use unified_runtime_primitiv.Base.{
  ℕ, zero, suc, ◌≡◌, refl, sym, ◌∙◌, ap, Option, none, some, List, [], ◌∷◌, ◌++◌, append-nil,
  append_assoc, length,
}
use unified_runtime_primitiv.Data.{MessageEnvelope}
use unified_runtime_primitiv.Exec.{Exec, Result, ok, raised, timeout_error, ⊤, pure, continue, ◌>>◌}
use unified_runtime_primitiv.Exec.Keeps.{Keeps, Keeps-pure}
use unified_runtime_primitiv.Mailbox.{put, drop_items}
use unified_runtime_primitiv.Agent.{emit, emit_to}
use unified_runtime_primitiv.Agent.Frame.{Leaves, Leaves-order, Grows-of, RuntimeRespects}
use unified_runtime_primitiv.Host.Defs.{
  HostedAgent, Host, holds, hold, Environment, fields_of, set_fields, call_external,
  internal_emit_handler, host_runtime, get_next_event, next_from,
}

pub returned :
    {S A : Type 0} (q : Result ⊤ × S) (m : Exec S A) → q.0 ≡ ok tt → continue q (λ _. m) ≡ m q.1
returned (ok _, s) m h = refl
returned (raised e, s) m h = absurd cc

-- The agent once its event stands in the queue.
abbrev queued : {E V : Type 0} → MessageEnvelope → HostedAgent E V → HostedAgent E V
queued e a = set_fields (record a.world { event_queue = put e a.world.event_queue }) a

module _ {E V : Type 0} (env : Environment E V) where
  external-Leaves :
      ((c : E) (e : MessageEnvelope) → Keeps Leaves (env.call c e))
      → (o : Option E) (e : MessageEnvelope) → Keeps Leaves (call_external env o e)
  unfolding call_external
  external-Leaves calls none e = Keeps-pure Leaves-order tt
  external-Leaves calls (some c) e = calls c e

  -- The host's handler leaves to its agent what is the agent's, if the client's callbacks do.
  pub host_runtime-Respects :
      ((c : E) (e : MessageEnvelope) → Keeps Leaves (env.call c e))
      → Keeps Leaves env.others
      → RuntimeRespects (host_runtime env)
  unfolding internal_emit_handler
  host_runtime-Respects calls others = record {
    call = λ c e. record {
      at = λ a.
          let b = queued e a in
          Leaves-order.then a b _
            (record {
              grows = Grows-of a b refl refl refl refl refl refl;
              same_status = refl;
              same_result = refl;
            })
            ((external-Leaves calls b.world.emit_callback e).at b);
    };
    others = others;
  }

-- The events that the client may take.
abbrev pub events_of : {E V : Type 0} → HostedAgent E V → List MessageEnvelope
events_of a = a.world.event_queue.items

-- A callback of the client that returns, and neither takes an event nor binds the agent anew.
pub record IsQuiet {E V : Type 0} (a : HostedAgent E V) (q : Result ⊤ × HostedAgent E V)
    : Type 0 where
  pub returns : q.0 ≡ ok tt
  pub same_events : events_of q.1 ≡ events_of a
  pub same_callback : q.1.emit_callback ≡ a.emit_callback

-- The client takes events until a wait of one unit times out, at most that many.
drain_next :
    {S : Type 0}
    → (S → List MessageEnvelope × S)
    → Option (Result MessageEnvelope × S)
    → S
    → List MessageEnvelope × S
drain_next more (some (ok event, t)) s = let (events, u) = more t in (event ∷ events, u)
drain_next more _ s = ([], s)

unfoldable pub drain : {E V : Type 0} → ℕ → Host E V → List MessageEnvelope × Host E V
unfolding drain_next
drain zero host = ([], host)
drain (suc n) host = drain_next (drain n) (get_next_event (some 1) host) host

module _ {E V : Type 0} where
  -- The client has taken `events`, and waits in vain for another.
  pub record Drained (events : List MessageEnvelope) (q : List MessageEnvelope × Host E V)
      : Type 0 where
    pub taken : q.0 ≡ events
    pub waits : get_next_event none q.1 ≡ none
    pub times_out : (t : ℕ) → get_next_event (some (suc t)) q.1 ≡ some (raised timeout_error, q.1)

  pub drain-Drained :
      (events : List MessageEnvelope) (host : Host E V) (a : HostedAgent E V)
      → host.held ≡ holds a
      → events_of a ≡ events
      → Drained events (drain (length events) host)
  unfolding drain get_next_event next_from
  drain-Drained [] host a h e = record {
    taken = refl;
    waits = rw (h, e) refl;
    times_out = λ t. rw (h, e) refl;
  }
  drain-Drained (event ∷ events) host a h e =
      let f = fields_of host.held in
      let f' = record f { event_queue = drop_items events f.event_queue } in
      let k = record host { held = hold f' host.held } in
      let rest = drain-Drained events k (set_fields f' a) (ap (hold f') h) refl in
      let items : f.event_queue.items ≡ event ∷ events =
        ap (λ s. (fields_of s).event_queue.items) h ∙ e in
      rw items (record {
        taken = ap (λ es. event ∷ es) rest.taken;
        waits = rest.waits;
        times_out = rest.times_out;
      })

module _ {E V : Type 0} (env : Environment E V) where
  unfoldable pub emit_all : List MessageEnvelope → HostedAgent E V → Result ⊤ × HostedAgent E V
  emit_all [] = pure tt
  emit_all (e ∷ es) = emit (host_runtime env) e >> emit_all es

  module _
      (quiet : (c : E) (e : MessageEnvelope) (a : HostedAgent E V)
        → IsQuiet a (env.call c e a)) where
    pub external-IsQuiet :
        (o : Option E) (e : MessageEnvelope) (a : HostedAgent E V)
        → IsQuiet a (call_external env o e a)
    unfolding call_external
    external-IsQuiet none e a = record { returns = refl; same_events = refl; same_callback = refl }
    external-IsQuiet (some c) e a = quiet c e a

    -- After one event the queue is longer by it.
    pub emit-bound :
        (o : Option ⊤) (e : MessageEnvelope) (a : HostedAgent E V)
        → o ≡ some tt
        → let q = emit_to (host_runtime env) o e a in
          (q.0 ≡ ok tt)
          × (events_of q.1 ≡ events_of a ++ e ∷ [])
          × (q.1.emit_callback ≡ a.emit_callback)
    unfolding emit_to internal_emit_handler
    emit-bound none e a h = absurd cc
    emit-bound (some tt) e a h =
        let b = queued e a in
        let q = external-IsQuiet b.world.emit_callback e b in
        (q.returns, q.same_events, q.same_callback)

    emitted :
        (es : List MessageEnvelope) (a : HostedAgent E V)
        → a.emit_callback ≡ some tt
        → ((emit_all es a).0 ≡ ok tt) × (events_of (emit_all es a).1 ≡ events_of a ++ es)
    unfolding emit_all emit
    emitted [] a h = (refl, sym (append-nil (events_of a)))
    emitted (e ∷ es) a h =
        let (r, b) = emit (host_runtime env) e a in
        let (returns, longer, callback) = emit-bound a.emit_callback e a h in
        let (rest, all) = emitted es b (callback ∙ h) in
        rw (returned (emit (host_runtime env) e a) (emit_all es) returns)
          (rest, all ∙ ap (λ items. items ++ es) longer ∙ append_assoc (events_of a) (e ∷ []) es)

    -- If the client's callbacks return and leave the queue alone, then all events that an agent bound
    -- to its host emits reach the client: after the events that had been waiting, each once and in
    -- the order of their emission. Then the queue is empty: a wait with a timeout above 0 times out,
    -- and one without waits for ever.
    pub emit_all-drain :
        (es : List MessageEnvelope) (a : HostedAgent E V) (host : Host E V)
        → a.emit_callback ≡ some tt
        → host.held ≡ holds (emit_all es a).1
        → ((emit_all es a).0 ≡ ok tt)
          × Drained (events_of a ++ es) (drain (length (events_of a ++ es)) host)
    emit_all-drain es a host bound held =
        let (returns, all) = emitted es a bound in
        (returns, drain-Drained (events_of a ++ es) host (emit_all es a).1 held all)
