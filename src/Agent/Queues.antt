-- ===== src/Agent/Queues.antt =====
-- What comes into the mailbox, and the operations that take no message from it.

use unified_runtime_primitiv.Base.{
  sym, subst, ◌∙◌, ap, Option, none, ◌≡◌, refl, String, Bool, true, false, some, List, [], ◌++◌,
  append-nil, append_assoc, arith,
}
use unified_runtime_primitiv.Data.{
  AgentStatus, uninitialized, initialized, waiting, processing, terminated, AgentContext,
  MessageEnvelope, ProcessResult, Payload,
}
use unified_runtime_primitiv.Exec.{modify, gets, try}
use unified_runtime_primitiv.Exec.Keeps.{Keeps, Preorder, Keeps-bind, Keeps-raise}
use unified_runtime_primitiv.Agent.State.{
  Agent, Runtime, Program, created, set_status, set_result, set_task,
}
use unified_runtime_primitiv.Agent.Lifecycle.{
  set_callback, initialize_at, start_checked, start_at, idle_result, started_payload,
  refusal_payload, start_refused,
}
use unified_runtime_primitiv.Agent.Events.{make_event, message_id_or, announce, announcement}
use unified_runtime_primitiv.Agent.Loop.{begin_shutdown, end_shutdown}
use unified_runtime_primitiv.Mailbox.{Mailbox}
use unified_runtime_primitiv.Agent.Handling.{attempt, recover, mark_done, handle_message}
use unified_runtime_primitiv.Agent.Emitting.{IsKeptByBus, announce-Keeps}
use unified_runtime_primitiv.Agent.Keeping.{IsKept, tried-Keeps}
use unified_runtime_primitiv.Agent.Opening.{finish-state}

-- `log` reads off the world what the hooks, the callbacks and the other tasks have sent to the agent.
module _ {C W : Type 0} (log : W → List MessageEnvelope) where
  -- Messages may have come in, at the back, and were logged; none was taken.
  pub record Queues (a b : Agent C W) : Type 0 where
    pub arrivals : List MessageEnvelope
    pub queued : b.mailbox.items ≡ a.mailbox.items ++ arrivals
    pub logged : log b.world ≡ log a.world ++ arrivals

  pub Queues-same :
      (a b : Agent C W) → b.mailbox.items ≡ a.mailbox.items → log b.world ≡ log a.world → Queues a b
  Queues-same a b e f = record {
    arrivals = [];
    queued = e ∙ sym (append-nil a.mailbox.items);
    logged = f ∙ sym (append-nil (log a.world));
  }

  Queues-trans : (a b c : Agent C W) → Queues a b → Queues b c → Queues a c
  Queues-trans a b c f g = record {
    arrivals = f.arrivals ++ g.arrivals;
    queued = ground (arith, append_assoc a.mailbox.items f.arrivals g.arrivals, f.queued, g.queued);
    logged = ground (arith, append_assoc (log a.world) f.arrivals g.arrivals, f.logged, g.logged);
  }

  pub Queues-order : Preorder Queues
  Queues-order = record { same = λ a. Queues-same a a refl refl; then = Queues-trans }

  Queues-modify :
      (f : Agent C W → Agent C W)
      → ((a : Agent C W) → (f a).mailbox ≡ a.mailbox)
      → ((a : Agent C W) → (f a).world ≡ a.world)
      → Keeps Queues (modify f)
  Queues-modify f h k = record {
    at = λ a.
        Queues-same a (f a) (ap (λ (q : Mailbox MessageEnvelope). q.items) (h a)) (ap log (k a));
  }

  Queues-gets : {A : Type 0} (f : Agent C W → A) → Keeps Queues (gets f)
  Queues-gets f = record { at = λ a. Queues-same a a refl refl }

  -- The callbacks and the other tasks log what they send; ids and the time are beside the log.
  pub record BusLogs (p : Runtime C W) : Type 0 where
    pub uuid4 : (w : W) → log (p.uuid4 w).1 ≡ log w
    pub utc_now : (w : W) → log (p.utc_now w).1 ≡ log w
    pub call : (c : C) (event : MessageEnvelope) → Keeps Queues (p.call c event)
    pub others : Keeps Queues p.others

  -- And so do the hooks.
  pub record Logs (p : Program C W) : Type 0 where
    pub bus : BusLogs p.runtime
    pub open bus use *
    pub on_initialize : (context : AgentContext) → Keeps Queues (p.on_initialize context)
    pub check_start_preconditions : Keeps Queues p.check_start_preconditions
    pub check_preconditions : (m : MessageEnvelope) → Keeps Queues (p.check_preconditions m)
    pub process : (m : MessageEnvelope) → Keeps Queues (p.process m)
    pub check_postconditions :
        (m : MessageEnvelope) (r : ProcessResult) → Keeps Queues (p.check_postconditions m r)
    pub on_shutdown : Keeps Queues p.on_shutdown

module _ {C W : Type 0} (log : W → List MessageEnvelope) (p : Runtime C W)
    (logs : BusLogs log p) where
  message_id-log : (o : Option String) (w : W) → log (message_id_or p o w).1 ≡ log w
  message_id-log none w = logs.uuid4 w
  message_id-log (some id) w = refl

  pub bus-IsKept : IsKeptByBus p (Queues log)
  unfolding make_event
  bus-IsKept = record {
    order = Queues-order log;
    make_event_keeps = λ type payload id correlation. record {
      at = λ a. Queues-same log a _ refl (logs.utc_now _ ∙ message_id-log id a.world);
    };
    call_keeps = logs.call;
  }

module _ {C W : Type 0} (log : W → List MessageEnvelope) (p : Program C W) (logs : Logs log p) where
  -- Assignments to the agent's own fields.
  sets-Queues :
      (f : Agent C W → Agent C W)
      → ((a : Agent C W) → (f a).mailbox ≡ a.mailbox)
      → ((a : Agent C W) → (f a).world ≡ a.world)
      → Keeps (Queues log) (modify f)
  sets-Queues = Queues-modify log

  mark_done-items : (a : Agent C W) → (mark_done p a).1.mailbox.items ≡ a.mailbox.items
  unfolding mark_done
  mark_done-items a = ground arith

  mark_done-world : (a : Agent C W) → (mark_done p a).1.world ≡ a.world
  unfolding mark_done
  mark_done-world a = ground arith

  pub handle_message-Queues : (m : MessageEnvelope) → Keeps (Queues log) (handle_message p m)
  unfolding handle_message
  handle_message-Queues m = record {
    at = λ a.
        let (r, t) = try (attempt p m) (recover p m) a in
        subst (Queues log a) (sym (finish-state r (mark_done p t))) (
          (Queues-order log).then a t _ ((tried-Keeps p kept m).at a)
            (Queues-same log t _ (mark_done-items t) (ap log (mark_done-world t))));
  }
    where
      kept : IsKept p (Queues log)
      kept = record {
        by_bus = bus-IsKept log p.runtime logs.bus;
        set_result_keeps = λ r. sets-Queues (set_result r) (λ a. refl) (λ a. refl);
        set_processing_keeps = sets-Queues (set_status processing) (λ a. refl) (λ a. refl);
        check_preconditions_keeps = logs.check_preconditions;
        process_keeps = logs.process;
        check_postconditions_keeps = logs.check_postconditions;
      }

  pub set_callback-Queues : (c : C) → Keeps (Queues log) (set_callback {C = C} {W = W} c)
  unfolding set_callback
  set_callback-Queues c = sets-Queues _ (λ a. refl) (λ a. refl)

  announce-Queues :
      (type : String) (payload : Payload) → Keeps (Queues log) (announce p.runtime type payload)
  announce-Queues = announce-Keeps p.runtime (bus-IsKept log p.runtime logs.bus)

  pub initialize_at-Queues :
      (s : AgentStatus) (context : AgentContext) (c : C)
      → Keeps (Queues log) (initialize_at p s context c)
  unfolding initialize_at
  initialize_at-Queues uninitialized context c =
      Keeps-bind (Queues-order log) _ _
        (sets-Queues (λ a. record a { context = some context }) (λ a. refl) (λ a. refl))
        λ _. Keeps-bind (Queues-order log) _ _ (set_callback-Queues c) λ _.
          Keeps-bind (Queues-order log) _ _ (logs.on_initialize context)
            λ _. sets-Queues (set_status initialized) (λ a. refl) (λ a. refl)
  initialize_at-Queues _ context c = Keeps-raise (Queues-order log) _

  start_checked-Queues : (checked : Bool × String) → Keeps (Queues log) (start_checked p checked)
  unfolding start_checked
  start_checked-Queues (false, reason) =
      Keeps-bind (Queues-order log) _ _
        (announce-Queues "AGENT_START_PRECONDITIONS_VIOLATED" (refusal_payload reason))
        (λ _. Keeps-raise (Queues-order log) (start_refused reason))
  start_checked-Queues (true, reason) =
      Keeps-bind (Queues-order log) _ _ (sets-Queues (set_status waiting) (λ a. refl) (λ a. refl))
        λ _.
          Keeps-bind (Queues-order log) _ _
            (sets-Queues (set_result idle_result) (λ a. refl) (λ a. refl))
            λ _.
              Keeps-bind (Queues-order log) _ _
                (sets-Queues (set_task created) (λ a. refl) (λ a. refl))
                λ _.
                  Keeps-bind (Queues-order log) _ _ (Queues-gets log (λ a. a.state.session_id))
                    λ session_id. announce-Queues "AGENT_STARTED" (started_payload session_id)

  pub start_at-Queues : (s : AgentStatus) → Keeps (Queues log) (start_at p s)
  unfolding start_at
  start_at-Queues initialized =
      Keeps-bind (Queues-order log) _ _ logs.check_start_preconditions start_checked-Queues
  start_at-Queues _ = Keeps-raise (Queues-order log) _

  pub begin_shutdown-Queues : Keeps (Queues log) (begin_shutdown p)
  unfolding begin_shutdown
  begin_shutdown-Queues =
      Keeps-bind (Queues-order log) _ _
        (sets-Queues (λ a. record a { shutdown_event = true }) (λ a. refl) (λ a. refl))
        λ _. logs.on_shutdown

  pub end_shutdown-Queues : Keeps (Queues log) (end_shutdown p)
  unfolding end_shutdown
  end_shutdown-Queues =
      Keeps-bind (Queues-order log) _ _
        (sets-Queues (set_status terminated) (λ a. refl) (λ a. refl))
        λ _. announce-Queues "AGENT_TERMINATED" (announcement "Agent has terminated successfully.")
