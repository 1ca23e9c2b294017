-- ===== src/Host/Defs.antt =====
-- The host's state and methods. The host's event queue and callback stand in the world of its
-- agent, since the agent's callback is a method of the host.
use mathlib.Core.Option
use unified_runtime_primitiv.Base.{ℕ, suc, String, Option, none, some, List, [], ◌∷◌}
use unified_runtime_primitiv.Data.{AgentDescriptor, AgentContext, MessageEnvelope, Payload, end}
use unified_runtime_primitiv.Exec.{
  Exec, runtime_error, timeout_error, Result, ok, raised, ⊤, pure, modify, continue, ◌>>◌,
}
use unified_runtime_primitiv.Mailbox.{Mailbox, empty, put, drop_items}
use unified_runtime_primitiv.Agent.{Agent, Runtime, Program, new, initialize, start, send, shutdown}

-- `E` are the callbacks for events that a client of the host may set, `V` the rest of the program.
pub record HostFields (E V : Type 0) : Type 0 where
  pub event_queue : Mailbox MessageEnvelope
  pub emit_callback : Option E
  pub world : V

abbrev pub HostedAgent : Type 0 → Type 0 → Type 0
HostedAgent E V = Agent ⊤ (HostFields E V)

-- `self.agent`: none, with the host's fields, or an agent, with the host's fields for its world.
pub data Held (E V : Type 0) : Type 0 where
  idle : HostFields E V → Held E V
  holds : HostedAgent E V → Held E V

pub record Host (E V : Type 0) : Type 0 where
  pub descriptor : AgentDescriptor
  pub held : Held E V

-- The standard library, the clients' callbacks and the event loop.
pub record Environment (E V : Type 0) : Type 0 where
  pub uuid4 : V → String × V
  pub utc_now : V → ℕ × V
  pub call : E → MessageEnvelope → Exec (HostedAgent E V) ⊤
  pub others : Exec (HostedAgent E V) ⊤

module _ {E V : Type 0} where
  abbrev pub set_fields : HostFields E V → HostedAgent E V → HostedAgent E V
  set_fields f a = record a { world = f }

  abbrev pub fields_of : Held E V → HostFields E V
  fields_of (idle f) = f
  fields_of (holds a) = a.world

  abbrev pub hold : HostFields E V → Held E V → Held E V
  hold f (idle g) = idle f
  hold f (holds a) = holds (set_fields f a)

  -- `URPHost.__init__`
  abbrev pub new_host : AgentDescriptor → V → Host E V
  new_host descriptor v = record {
    descriptor = descriptor;
    held = idle (record { event_queue = empty; emit_callback = none; world = v });
  }

  unfoldable pub set_emit_callback : E → Host E V → Host E V
  set_emit_callback callback host = record host {
    held = hold (record (fields_of host.held) { emit_callback = some callback }) host.held;
  }

  -- The host around what a call on its agent did.
  abbrev pub around : {A : Type 0} → Host E V → Result A × HostedAgent E V → Result A × Host E V
  around host (r, a) = (r, record host { held = holds a })

module _ {E V : Type 0} (env : Environment E V) where
  unfoldable pub call_external : Option E → MessageEnvelope → Exec (HostedAgent E V) ⊤
  call_external none event = pure tt
  call_external (some callback) event = env.call callback event

  unfoldable pub internal_emit_handler : MessageEnvelope → Exec (HostedAgent E V) ⊤
  unfolding call_external
  internal_emit_handler event = do
    modify λ a. set_fields (record a.world { event_queue = put event a.world.event_queue }) a
    λ a. call_external a.world.emit_callback event a

  -- The runtime that the agent of a host runs in: its one callback is the handler above.
  abbrev pub host_runtime : Runtime ⊤ (HostFields E V)
  host_runtime = record {
    uuid4 = λ f. let (id, v) = env.uuid4 f.world in (id, record f { world = v });
    utc_now = λ f. let (now, v) = env.utc_now f.world in (now, record f { world = v });
    call = λ _. internal_emit_handler;
    others = env.others;
  }

-- `p` is the agent class in the host's runtime.
module _ {E V : Type 0} (p : Program ⊤ (HostFields E V)) where
  unfoldable pub initialize_and_start : AgentContext → Exec (Host E V) ⊤
  initialize_and_start context host =
      around host
        ((initialize p context tt >> start p) (new p host.descriptor (fields_of host.held)))

  -- `MessageEnvelope(type=…, payload=…, sender=…, receiver=…)`
  abbrev pub envelope_for :
      AgentDescriptor → String → Payload → String → HostFields E V → MessageEnvelope
  envelope_for d type payload sender f =
      let (id, f') = p.uuid4 f in
      record {
        type = type;
        payload = payload;
        sender = sender;
        receiver = d.agent_id;
        context_id = none;
        task_id = none;
        message_id = id;
        correlation_id = none;
        metadata = end;
        timestamp = (p.utc_now f').0;
      }

  abbrev pub fields_after_envelope : HostFields E V → HostFields E V
  fields_after_envelope f = (p.utc_now (p.uuid4 f).1).1

  abbrev pub send_to : Held E V → Host E V → String → Payload → String → Result String × Host E V
  send_to (idle f) host type payload sender =
      (raised (runtime_error "Agent not initialized. Call initialize_and_start first."), host)
  send_to (holds a) host type payload sender =
      let envelope = envelope_for host.descriptor type payload sender a.world in
      around host (
        continue (send envelope (set_fields (fields_after_envelope a.world) a))
          (λ _. pure envelope.message_id))

  unfoldable pub send_message : String → Payload → String → Exec (Host E V) String
  send_message type payload sender host = send_to host.held host type payload sender

  unfoldable pub released : Host E V → Result ⊤ × HostedAgent E V → Result ⊤ × Host E V
  released host (ok _, a) = (ok tt, record host { held = idle a.world })
  released host (raised e, a) = (raised e, record host { held = holds a })

  unfoldable pub shutdown_held : Held E V → ℕ → Host E V → Option (Result ⊤ × Host E V)
  unfolding released
  shutdown_held (idle f) n host = some (ok tt, host)
  shutdown_held (holds a) n host = Option.map (released host) (shutdown p n a)

  unfoldable pub shutdown_host : ℕ → Host E V → Option (Result ⊤ × Host E V)
  unfolding shutdown_held
  shutdown_host n host = shutdown_held host.held n host

-- Awaiting the next event: `none` if the queue is empty and the wait has no timeout, or the
-- timeout 0, which the code takes for none.
module _ {E V : Type 0} where
  unfoldable pub next_from :
      List MessageEnvelope → Option ℕ → Host E V → Option (Result MessageEnvelope × Host E V)
  next_from (event ∷ rest) timeout host =
      let f = fields_of host.held in
      some (
        ok event,
        record host {
          held = hold (record f { event_queue = drop_items rest f.event_queue }) host.held;
        },
      )
  next_from [] (some (suc n)) host = some (raised timeout_error, host)
  next_from [] _ host = none

  unfoldable pub get_next_event : Option ℕ → Host E V → Option (Result MessageEnvelope × Host E V)
  unfolding next_from
  get_next_event timeout host = next_from (fields_of host.held).event_queue.items timeout host
