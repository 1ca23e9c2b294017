-- ===== src/Agent/Emitting.antt =====
-- Rules for relations that the bus and the making of an event keep: sending one out keeps them too.
use unified_runtime_primitiv.Base.{String, Option, none, some}
use unified_runtime_primitiv.Data.{MessageEnvelope, Payload}
use unified_runtime_primitiv.Exec.Keeps.{Keeps, Preorder, Keeps-pure, Keeps-bind}
use unified_runtime_primitiv.Agent.State.{Agent, Runtime}
use unified_runtime_primitiv.Agent.Events.{make_event, emit_to, emit, announce}

pub record IsKeptByBus {C W : Type 0} (p : Runtime C W) (R : Agent C W → Agent C W → Type 0)
    : Type 0 where
  pub order : Preorder R
  pub make_event_keeps :
      (type : String) (payload : Payload) (message_id correlation_id : Option String)
      → Keeps R (make_event p type payload message_id correlation_id)
  pub call_keeps : (c : C) (event : MessageEnvelope) → Keeps R (p.call c event)

module _ {C W : Type 0} (p : Runtime C W) {R : Agent C W → Agent C W → Type 0}
    (kept : IsKeptByBus p R) where
  emit_to-Keeps :
      (callback : Option C) (event : MessageEnvelope) → Keeps R (emit_to p callback event)
  unfolding emit_to
  emit_to-Keeps none event = Keeps-pure kept.order tt
  emit_to-Keeps (some c) event = kept.call_keeps c event

  pub emit-Keeps : (event : MessageEnvelope) → Keeps R (emit p event)
  unfolding emit
  emit-Keeps event = record { at = λ a. (emit_to-Keeps a.emit_callback event).at a }

  pub announce-Keeps : (type : String) (payload : Payload) → Keeps R (announce p type payload)
  unfolding announce
  announce-Keeps type payload =
      Keeps-bind kept.order _ _ (kept.make_event_keeps type payload none none) emit-Keeps
