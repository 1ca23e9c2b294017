-- ===== src/Agent/State.antt =====
-- The object of `AbstractURPAgent` in urp/abstract_urp.py, and what the class leaves open.
use unified_runtime_primitiv.Base.{ℕ, String, Bool, Option, none, some}
use unified_runtime_primitiv.Data.{
  AgentDescriptor, AgentContext, AgentState, AgentStatus, MessageEnvelope, ProcessResult, end,
  uninitialized,
}
use unified_runtime_primitiv.Exec.{Exec, Exception, ⊤}
use unified_runtime_primitiv.Mailbox.{Mailbox, empty}

-- Where the task of `_lifecycle_loop` stands: created and not yet run; suspended in the wait for a
-- message; returned; ended by an exception.
pub data Task : Type 0 where
  created polling returned : Task
  failed : Exception → Task

-- `C` are the callbacks that may be bound, `W` is all that stands outside the fields of the base
-- class: the fields of the subclass, the runtime bus and the objects behind the callbacks.
pub record Agent (C W : Type 0) : Type 0 where
  pub descriptor : AgentDescriptor
  pub state : AgentState
  pub mailbox : Mailbox MessageEnvelope
  pub context : Option AgentContext
  pub emit_callback : Option C
  pub shutdown_event : Bool
  pub task : Option Task
  pub world : W

-- The standard library, the callbacks and the event loop. The effect of a call on the agent is
-- also that of the other tasks which run while the call is suspended, and `others` is theirs while
-- the agent's loop waits for a message.
pub record Runtime (C W : Type 0) : Type 0 where
  pub uuid4 : W → String × W
  pub utc_now : W → ℕ × W
  pub call : C → MessageEnvelope → Exec (Agent C W) ⊤
  pub others : Exec (Agent C W) ⊤

-- A subclass and its runtime. `check_postconditions` gives back the result, which it may change in
-- place.
pub record Program (C W : Type 0) : Type 0 where
  pub runtime : Runtime C W
  pub open runtime use *
  pub on_initialize : AgentContext → Exec (Agent C W) ⊤
  pub check_start_preconditions : Exec (Agent C W) (Bool × String)
  pub check_preconditions : MessageEnvelope → Exec (Agent C W) (Bool × String)
  pub process : MessageEnvelope → Exec (Agent C W) ProcessResult
  pub check_postconditions :
      MessageEnvelope → ProcessResult → Exec (Agent C W) (Bool × String × ProcessResult)
  pub on_shutdown : Exec (Agent C W) ⊤

module _ {C W : Type 0} where
  abbrev pub set_world : W → Agent C W → Agent C W
  set_world w a = record a { world = w }

  -- `self._state.status = status`
  abbrev pub set_status : AgentStatus → Agent C W → Agent C W
  set_status s a = record a { state = record a.state { status = s } }

  -- `self._state.last_process_result = result`
  abbrev pub set_result : ProcessResult → Agent C W → Agent C W
  set_result r a = record a { state = record a.state { last_process_result = some r } }

  abbrev pub set_task : Task → Agent C W → Agent C W
  set_task t a = record a { task = some t }

  abbrev pub set_mailbox : Mailbox MessageEnvelope → Agent C W → Agent C W
  set_mailbox q a = record a { mailbox = q }

module _ {C W : Type 0} (p : Program C W) where
  -- `AbstractURPAgent.__init__`: the session id is fresh.
  unfoldable pub new : AgentDescriptor → W → Agent C W
  new descriptor w =
      let (session_id, w') = p.uuid4 w in
      record {
        descriptor = descriptor;
        state = record {
          session_id = session_id;
          status = uninitialized;
          last_process_result = none;
          internal_memory = end;
        };
        mailbox = empty;
        context = none;
        emit_callback = none;
        shutdown_event = Bool.false;
        task = none;
        world = w';
      }
