-- ===== src/Agent/Keeping.antt =====
-- Rules for relations that the hooks, the bus and the assignments keep: the work on a message keeps
-- them too.
use unified_runtime_primitiv.Base.{Bool, String, none, some}
use unified_runtime_primitiv.Data.{
  MessageEnvelope, ProcessResult, process_result, processing, outcome_value,
}
use unified_runtime_primitiv.Exec.{
  Exception, postconditions_violated, preconditions_violated, cancelled_error, base_exception,
  modify, try,
}
use unified_runtime_primitiv.Exec.Keeps.{Keeps, Keeps-raise, Keeps-require, Keeps-bind, Keeps-try}
use unified_runtime_primitiv.Agent.State.{Agent, Program, set_result, set_status}
use unified_runtime_primitiv.Agent.Events.{reply}
use unified_runtime_primitiv.Agent.Emitting.{IsKeptByBus, emit-Keeps}
use unified_runtime_primitiv.Agent.Handling.{after_post, after_process, after_pre, attempt, recover}

pub record IsKept {C W : Type 0} (p : Program C W) (R : Agent C W → Agent C W → Type 0)
    : Type 0 where
  pub by_bus : IsKeptByBus p.runtime R
  pub open by_bus use *
  pub set_result_keeps : (r : ProcessResult) → Keeps R (modify (λ (a : Agent C W). set_result r a))
  pub set_processing_keeps : Keeps R (modify (λ (a : Agent C W). set_status processing a))
  pub check_preconditions_keeps : (m : MessageEnvelope) → Keeps R (p.check_preconditions m)
  pub process_keeps : (m : MessageEnvelope) → Keeps R (p.process m)
  pub check_postconditions_keeps :
      (m : MessageEnvelope) (r : ProcessResult) → Keeps R (p.check_postconditions m r)

module _ {C W : Type 0} (p : Program C W) {R : Agent C W → Agent C W → Type 0}
    (kept : IsKept p R) where
  reply-Keeps :
      (message : MessageEnvelope) (type : String) (result : ProcessResult)
      → Keeps R (reply p.runtime message type result)
  unfolding reply
  reply-Keeps message type result = Keeps-bind kept.order _ _ (kept.set_result_keeps result) λ _.
      Keeps-bind kept.order _ _
        (kept.make_event_keeps type (process_result result) (some message.message_id)
          message.correlation_id)
        (emit-Keeps p.runtime kept.by_bus)

  after_post-Keeps :
      (m : MessageEnvelope) (c : Bool × String × ProcessResult) → Keeps R (after_post p m c)
  unfolding after_post
  after_post-Keeps m (post_ok, text, r) =
      Keeps-bind kept.order _ _
        (Keeps-require kept.order post_ok (postconditions_violated (some r) text))
        λ _. reply-Keeps m (outcome_value r.outcome) r

  after_process-Keeps : (m : MessageEnvelope) (r : ProcessResult) → Keeps R (after_process p m r)
  unfolding after_process
  after_process-Keeps m r =
      Keeps-bind kept.order _ _ (kept.check_postconditions_keeps m r) (after_post-Keeps m)

  after_pre-Keeps : (m : MessageEnvelope) (c : Bool × String) → Keeps R (after_pre p m c)
  unfolding after_pre
  after_pre-Keeps m (pre_ok, reason) =
      Keeps-bind kept.order _ _ (Keeps-require kept.order pre_ok (preconditions_violated reason))
        λ _.
          Keeps-bind kept.order _ _ kept.set_processing_keeps
            λ _. Keeps-bind kept.order _ _ (kept.process_keeps m) (after_process-Keeps m)

  attempt-Keeps : (m : MessageEnvelope) → Keeps R (attempt p m)
  unfolding attempt
  attempt-Keeps m = Keeps-bind kept.order _ _ (kept.check_preconditions_keeps m) (after_pre-Keeps m)

  recover-Keeps : (m : MessageEnvelope) (e : Exception) → Keeps R (recover p m e)
  unfolding recover
  recover-Keeps m (postconditions_violated none t) = Keeps-raise kept.order _
  recover-Keeps m (postconditions_violated (some r) t) = reply-Keeps m _ _
  recover-Keeps m cancelled_error = Keeps-raise kept.order _
  recover-Keeps m (base_exception t) = Keeps-raise kept.order _
  recover-Keeps m _ = reply-Keeps m _ _

  pub tried-Keeps : (m : MessageEnvelope) → Keeps R (try (attempt p m) (recover p m))
  tried-Keeps m = Keeps-try kept.order _ _ (attempt-Keeps m) (recover-Keeps m)
