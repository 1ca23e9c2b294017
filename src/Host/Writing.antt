-- ===== src/Host/Writing.antt =====
-- What an agent's actions write to the event queue of its host.
use unified_runtime_primitiv.Base.{
  ◌≡◌, refl, sym, ◌∙◌, ap, String, Option, none, some, List, [], ◌∷◌, ◌++◌, map, append-nil,
  append_assoc,
}
use mathlib.Core.List.{map-append}
use unified_runtime_primitiv.Data.{MessageEnvelope, Payload, ProcessResult, process_result}
use unified_runtime_primitiv.Exec.{Exec, Result, ok, raised, continue}
use unified_runtime_primitiv.Agent.{set_result, make_event, event_of, emit, announce, reply}
use unified_runtime_primitiv.Host.Defs.{HostedAgent, Environment, host_runtime}
use unified_runtime_primitiv.Host.Queue.{IsQuiet, events_of, emit-bound}

-- What an event says: the rest are ids and the time.
pub record Note : Type 0 where
  pub type : String
  pub payload : Payload
  pub correlation_id : Option String

abbrev pub note_of : MessageEnvelope → Note
note_of e = record { type = e.type; payload = e.payload; correlation_id = e.correlation_id }

abbrev pub notes_of : {E V : Type 0} → HostedAgent E V → List Note
notes_of a = map note_of (events_of a)

continue-at :
    {S A B : Type 0} (q : Result A × S) (r : A) (f : A → Exec S B)
    → q.0 ≡ ok r
    → continue q f ≡ f r q.1
continue-at (ok x, s) r f e = let same : x ≡ r = cc in ap (λ y. f y s) same
continue-at (raised x, s) r f e = absurd cc

module _ {E V : Type 0} where
  -- The events `notes` are behind those that were in the queue.
  pub record Wrote (notes : List Note) (a b : HostedAgent E V) : Type 0 where
    pub wrote : notes_of b ≡ notes_of a ++ notes
    pub still_bound : b.emit_callback ≡ a.emit_callback

  pub Wrote-nothing :
      (a b : HostedAgent E V)
      → events_of b ≡ events_of a
      → b.emit_callback ≡ a.emit_callback
      → Wrote [] a b
  Wrote-nothing a b e c = record {
    wrote = ap (map note_of) e ∙ sym (append-nil (notes_of a));
    still_bound = c;
  }

  pub Wrote-then :
      (notes more : List Note) (a b c : HostedAgent E V)
      → Wrote notes a b
      → Wrote more b c
      → Wrote (notes ++ more) a c
  Wrote-then notes more a b c f g = record {
    wrote = g.wrote ∙ ap (λ xs. xs ++ more) f.wrote ∙ append_assoc (notes_of a) notes more;
    still_bound = g.still_bound ∙ f.still_bound;
  }

  -- An action that returns `r` and has written `notes`.
  pub record Writes {A : Type 0} (notes : List Note) (a : HostedAgent E V) (r : A)
      (q : Result A × HostedAgent E V) : Type 0 where
    pub returns : q.0 ≡ ok r
    pub writes : Wrote notes a q.1

  -- What an action wrote, told from a state before it that agrees with its own.
  pub Writes-from :
      {A : Type 0} (notes : List Note) (a b : HostedAgent E V) (r : A)
      (q : Result A × HostedAgent E V)
      → events_of b ≡ events_of a
      → b.emit_callback ≡ a.emit_callback
      → Writes notes b r q
      → Writes notes a r q
  Writes-from notes a b r q e c w = record {
    returns = w.returns;
    writes = Wrote-then [] notes a b q.1 (Wrote-nothing a b e c) w.writes;
  }

  pub Writes-bind :
      {A B : Type 0} (notes more : List Note) (a : HostedAgent E V) (r : A) (s : B)
      (q : Result A × HostedAgent E V) (f : A → Exec (HostedAgent E V) B)
      → Writes notes a r q
      → Writes more q.1 s (f r q.1)
      → Writes (notes ++ more) a s (continue q f)
  Writes-bind notes more a r s q f w v = rw (continue-at q r f w.returns) (record {
    returns = v.returns;
    writes = Wrote-then notes more a q.1 (f r q.1).1 w.writes v.writes;
  })

module _ {E V : Type 0} (env : Environment E V)
    (quiet : (c : E) (e : MessageEnvelope) (a : HostedAgent E V) → IsQuiet a (env.call c e a)) where
  emit-Writes :
      (event : MessageEnvelope) (a : HostedAgent E V)
      → a.emit_callback ≡ some tt
      → Writes (note_of event ∷ []) a tt (emit (host_runtime env) event a)
  unfolding emit
  emit-Writes event a bound =
      let (returns, longer, callback) = emit-bound env quiet a.emit_callback event a bound in
      record {
        returns = returns;
        writes = record {
          wrote = ap (map note_of) longer ∙ map-append note_of (events_of a) (event ∷ []);
          still_bound = callback;
        };
      }

  pub announce-Writes :
      (type : String) (payload : Payload) (a : HostedAgent E V)
      → a.emit_callback ≡ some tt
      → Writes
          (record { type = type; payload = payload; correlation_id = none } ∷ [])
          a
          tt
          (announce (host_runtime env) type payload a)
  unfolding announce make_event
  announce-Writes type payload a bound =
      let b = (make_event (host_runtime env) type payload none none a).1 in
      let event = event_of (host_runtime env) type payload none none a in
      Writes-from (note_of event ∷ []) a b tt (emit (host_runtime env) event b) refl refl
        (emit-Writes event b bound)

  pub reply-Writes :
      (m : MessageEnvelope) (type : String) (r : ProcessResult) (a : HostedAgent E V)
      → a.emit_callback ≡ some tt
      → Writes
          (record { type = type; payload = process_result r; correlation_id = m.correlation_id }
            ∷ [])
          a
          tt
          (reply (host_runtime env) m type r a)
  unfolding reply make_event
  reply-Writes m type r a bound =
      let c = set_result r a in
      let id = some m.message_id in
      let event = event_of (host_runtime env) type (process_result r) id m.correlation_id c in
      let b = (make_event (host_runtime env) type (process_result r) id m.correlation_id c).1 in
      Writes-from (note_of event ∷ []) a b tt (emit (host_runtime env) event b) refl refl
        (emit-Writes event b bound)
