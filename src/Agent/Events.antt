-- ===== src/Agent/Events.antt =====
-- `emit` of `AbstractURPAgent`, and the envelopes that the runtime makes.
use unified_runtime_primitiv.Base.{String, Option, none, some}
use unified_runtime_primitiv.Data.{
  text, dict, end, field, MessageEnvelope, Payload, value, process_result, ProcessResult,
}
use unified_runtime_primitiv.Exec.{Exec, ok, ⊤, pure, modify, ◌>>=◌, ◌>>◌}
use unified_runtime_primitiv.Agent.State.{Agent, Runtime, set_world, set_result}

-- The payload of the runtime's own announcements.
abbrev pub announcement : String → Payload
announcement t = value (dict (field "text" (text t) end))

module _ {C W : Type 0} (p : Runtime C W) where
  -- The given message id, or a fresh one.
  abbrev pub message_id_or : Option String → W → String × W
  message_id_or none w = p.uuid4 w
  message_id_or (some id) w = (id, w)

  -- `MessageEnvelope(type=…, payload=…, sender=self.descriptor.agent_id)`, for a reply with its two
  -- ids. All other fields have their defaults.
  abbrev pub event_of :
      String → Payload → Option String → Option String → Agent C W → MessageEnvelope
  event_of type payload message_id correlation_id a =
      let (id, w) = message_id_or message_id a.world in
      record {
        type = type;
        payload = payload;
        sender = a.descriptor.agent_id;
        receiver = "HIL";
        context_id = none;
        task_id = none;
        message_id = id;
        correlation_id = correlation_id;
        metadata = end;
        timestamp = (p.utc_now w).0;
      }

  -- Making one takes an id, unless it is given, and the time.
  unfoldable pub make_event :
      String → Payload → Option String → Option String → Exec (Agent C W) MessageEnvelope
  make_event type payload message_id correlation_id a =
      let (_, w) = message_id_or message_id a.world in
      (ok (event_of type payload message_id correlation_id a), set_world (p.utc_now w).1 a)

  -- Without a callback the event is dropped.
  unfoldable pub emit_to : Option C → MessageEnvelope → Exec (Agent C W) ⊤
  emit_to none event = pure tt
  emit_to (some callback) event = p.call callback event

  unfoldable pub emit : MessageEnvelope → Exec (Agent C W) ⊤
  unfolding emit_to
  emit event a = emit_to a.emit_callback event a

  -- An event of the agent's own, with a fresh id.
  unfoldable pub announce : String → Payload → Exec (Agent C W) ⊤
  announce type payload = do event ← make_event type payload none none; emit event

  -- A result is recorded, and sent out in answer to `message`.
  unfoldable pub reply : MessageEnvelope → String → ProcessResult → Exec (Agent C W) ⊤
  reply message type result = do
    modify (set_result result)
    event ← make_event type (process_result result) (some message.message_id) message.correlation_id
    emit event
