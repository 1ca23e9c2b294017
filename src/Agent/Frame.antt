-- ===== src/Agent/Frame.antt =====
-- What an operation may do to the agent besides its own work. Other tasks run while it is
-- suspended: they may send messages, ask for a shutdown or bind another callback.
use unified_runtime_primitiv.Base.{
  ◌+◌, ◌≡◌, refl, sym, ◌∙◌, ◌≢◌, ◌⊎◌, inl, inr, String, true, Option, none, List, [], ◌++◌,
  append-nil, append_assoc, length, length-append, arith,
}
use unified_runtime_primitiv.Data.{
  processing, MessageEnvelope, ProcessResult, AgentContext, Payload,
}
use unified_runtime_primitiv.Exec.{Exec, modify}
use unified_runtime_primitiv.Exec.Keeps.{Keeps, Preorder}
use unified_runtime_primitiv.Agent.State.{Agent, Runtime, Program, set_status, set_result}
use unified_runtime_primitiv.Agent.Events.{make_event, emit, announce}
use unified_runtime_primitiv.Agent.Emitting.{IsKeptByBus, emit-Keeps, announce-Keeps}

module _ {C W : Type 0} where
  -- Messages have arrived behind those that wait, and a shutdown that was asked for still is.
  pub record Grows (a b : Agent C W) : Type 0 where
    pub arrivals : List MessageEnvelope
    pub queued : b.mailbox.items ≡ a.mailbox.items ++ arrivals
    pub counted : b.mailbox.unfinished_tasks ≡ a.mailbox.unfinished_tasks + length arrivals
    pub stops : a.shutdown_event ≡ true → b.shutdown_event ≡ true
    pub same_task : b.task ≡ a.task
    pub same_descriptor : b.descriptor ≡ a.descriptor
    pub same_context : b.context ≡ a.context
    pub same_session : b.state.session_id ≡ a.state.session_id

  pub Grows-of :
      (a b : Agent C W)
      → b.mailbox ≡ a.mailbox
      → b.shutdown_event ≡ a.shutdown_event
      → b.task ≡ a.task
      → b.descriptor ≡ a.descriptor
      → b.context ≡ a.context
      → b.state.session_id ≡ a.state.session_id
      → Grows a b
  Grows-of a b mailbox event task descriptor context session = record {
    arrivals = [];
    queued = ground (arith, append-nil a.mailbox.items);
    counted = ground arith;
    stops = λ h. event ∙ h;
    same_task = task;
    same_descriptor = descriptor;
    same_context = context;
    same_session = session;
  }

  Grows-refl : (a : Agent C W) → Grows a a
  Grows-refl a = Grows-of a a refl refl refl refl refl refl

  Grows-trans : (a b c : Agent C W) → Grows a b → Grows b c → Grows a c
  Grows-trans a b c g h = record {
    arrivals = g.arrivals ++ h.arrivals;
    queued = ground (arith, append_assoc a.mailbox.items g.arrivals h.arrivals);
    counted = omega (arith, length-append g.arrivals h.arrivals);
    stops = λ e. h.stops (g.stops e);
    same_task = ground arith;
    same_descriptor = ground arith;
    same_context = ground arith;
    same_session = ground arith;
  }

  pub Grows-order : Preorder Grows
  Grows-order = record { same = Grows-refl; then = Grows-trans }

  -- Nor has the status or the last result changed: what a hook may do.
  pub record Leaves (a b : Agent C W) : Type 0 where
    pub grows : Grows a b
    pub same_status : b.state.status ≡ a.state.status
    pub same_result : b.state.last_process_result ≡ a.state.last_process_result

  pub Leaves-order : Preorder Leaves
  Leaves-order = record {
    same = λ a. record { grows = Grows-refl a; same_status = refl; same_result = refl };
    then = λ a b c g h. record {
      grows = Grows-trans a b c g.grows h.grows;
      same_status = ground arith;
      same_result = ground arith;
    };
  }

  -- The status may also have become PROCESSING and a result may be recorded: what the work on a
  -- message may do.
  pub record Works (a b : Agent C W) : Type 0 where
    pub grows : Grows a b
    pub recorded : a.state.last_process_result ≢ none → b.state.last_process_result ≢ none
    pub worked : (b.state.status ≡ a.state.status) ⊎ (b.state.status ≡ processing)

  pub Works-order : Preorder Works
  Works-order = record {
    same = λ a. record { grows = Grows-refl a; recorded = λ h. h; worked = inl refl };
    then = λ a b c g h. record {
      grows = Grows-trans a b c g.grows h.grows;
      recorded = λ k. h.recorded (g.recorded k);
      worked = ground arith;
    };
  }

  pub set_result-Works :
      (r : ProcessResult) → Keeps Works (modify (λ (a : Agent C W). set_result r a))
  set_result-Works r = record {
    at = λ a. record {
      grows = Grows-of a _ refl refl refl refl refl refl;
      recorded = λ h e. cc;
      worked = inl refl;
    };
  }

  pub set_processing-Works : Keeps Works (modify (λ (a : Agent C W). set_status processing a))
  set_processing-Works = record {
    at = λ a. record {
      grows = Grows-of a _ refl refl refl refl refl refl;
      recorded = λ h. h;
      worked = inr refl;
    };
  }

  pub Works-of_Leaves : {A : Type 0} (m : Exec (Agent C W) A) → Keeps Leaves m → Keeps Works m
  Works-of_Leaves m k = record {
    at = λ a. record {
      grows = (k.at a).grows;
      recorded = λ h e. h (sym (k.at a).same_result ∙ e);
      worked = inl (k.at a).same_status;
    };
  }

-- The callbacks and the other tasks leave to the agent's methods what is theirs, and so do the
-- hooks of the subclass.
pub record RuntimeRespects {C W : Type 0} (p : Runtime C W) : Type 0 where
  pub call : (c : C) (event : MessageEnvelope) → Keeps Leaves (p.call c event)
  pub others : Keeps Leaves p.others

pub record Respects {C W : Type 0} (p : Program C W) : Type 0 where
  pub runtime : RuntimeRespects p.runtime
  pub open runtime use *
  pub on_initialize : (context : AgentContext) → Keeps Leaves (p.on_initialize context)
  pub check_start_preconditions : Keeps Leaves p.check_start_preconditions
  pub check_preconditions : (m : MessageEnvelope) → Keeps Leaves (p.check_preconditions m)
  pub process : (m : MessageEnvelope) → Keeps Leaves (p.process m)
  pub check_postconditions :
      (m : MessageEnvelope) (r : ProcessResult) → Keeps Leaves (p.check_postconditions m r)
  pub on_shutdown : Keeps Leaves p.on_shutdown

module _ {C W : Type 0} (p : Runtime C W) (respects : RuntimeRespects p) where
  pub make_event-Leaves :
      (type : String) (payload : Payload) (message_id correlation_id : Option String)
      → Keeps Leaves (make_event p type payload message_id correlation_id)
  unfolding make_event
  make_event-Leaves type payload message_id correlation_id = record {
    at = λ a. record {
      grows = Grows-of a _ refl refl refl refl refl refl;
      same_status = refl;
      same_result = refl;
    };
  }

  Leaves-IsKeptByBus : IsKeptByBus p Leaves
  Leaves-IsKeptByBus = record {
    order = Leaves-order;
    make_event_keeps = make_event-Leaves;
    call_keeps = respects.call;
  }

  pub emit-Leaves : (event : MessageEnvelope) → Keeps Leaves (emit p event)
  emit-Leaves = emit-Keeps p Leaves-IsKeptByBus

  pub announce-Leaves : (type : String) (payload : Payload) → Keeps Leaves (announce p type payload)
  announce-Leaves = announce-Keeps p Leaves-IsKeptByBus
