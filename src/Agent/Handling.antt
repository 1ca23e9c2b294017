-- ===== src/Agent/Handling.antt =====
-- The body of the loop for one message: the inner `try` of `_lifecycle_loop`.
use unified_runtime_primitiv.Base.{Bool, String, none, some}
use unified_runtime_primitiv.Data.{
  processing, task_failed, FailureCategory, postcondition_failure, precondition_failure,
  infrastructure_failure, outcome_value, make_result, ProcessResult, MessageEnvelope,
}
use unified_runtime_primitiv.Exec.{
  Exec, Exception, postconditions_violated, preconditions_violated, cancelled_error, base_exception,
  other_error, value_error, ok, raised, ⊤, raise, modify, ◌>>=◌, ◌>>◌, require, try, finally,
}
use unified_runtime_primitiv.Mailbox.{task_done}
use unified_runtime_primitiv.Agent.State.{Agent, Program, set_status, set_mailbox}
use unified_runtime_primitiv.Agent.Events.{reply}

-- The category of a result whose postconditions failed: the one that the check set, if any.
abbrev pub violation_category : FailureCategory → FailureCategory
violation_category FailureCategory.none = postcondition_failure
violation_category category = category

-- What is recorded for a result whose postconditions failed.
unfoldable pub violation_result : ProcessResult → ProcessResult
violation_result r = make_result r.outcome (violation_category r.category) none r.payload

unfoldable pub failure_result : FailureCategory → ProcessResult
failure_result category = make_result task_failed category none none

module _ {C W : Type 0} (p : Program C W) where
  -- The body of the `try`, in three parts: what follows the check of the postconditions, what
  -- follows `process`, and what follows the check of the preconditions.
  unfoldable pub after_post : MessageEnvelope → Bool × String × ProcessResult → Exec (Agent C W) ⊤
  after_post message (post_ok, post_response, result) = do
    require post_ok (postconditions_violated (some result) post_response)
    reply p.runtime message (outcome_value result.outcome) result

  unfoldable pub after_process : MessageEnvelope → ProcessResult → Exec (Agent C W) ⊤
  after_process message result = do
    checked ← p.check_postconditions message result
    after_post message checked

  unfoldable pub after_pre : MessageEnvelope → Bool × String → Exec (Agent C W) ⊤
  after_pre message (pre_ok, pre_response) = do
    require pre_ok (preconditions_violated pre_response)
    modify (set_status processing)
    result ← p.process message
    after_process message result

  unfoldable pub attempt : MessageEnvelope → Exec (Agent C W) ⊤
  attempt message = do checked ← p.check_preconditions message; after_pre message checked

  -- Its `except` clauses. A `PostconditionsViolatedError` that holds no result fails on
  -- `e.result.outcome`; `except Exception` does not see a `BaseException`.
  unfoldable pub recover : MessageEnvelope → Exception → Exec (Agent C W) ⊤
  recover message (postconditions_violated (some r) _) =
      reply p.runtime message "TASK_POSTCONDITIONS_VIOLATED" (violation_result r)
  recover message (postconditions_violated none _) = raise (other_error "AttributeError")
  recover message (preconditions_violated _) =
      reply p.runtime message "TASK_PRECONDITIONS_VIOLATED" (failure_result precondition_failure)
  recover message cancelled_error = raise cancelled_error
  recover message (base_exception text) = raise (base_exception text)
  recover message _ = reply p.runtime message "TASK_FAILED" (failure_result infrastructure_failure)

  -- `self.mailbox.task_done()`
  unfoldable pub mark_done : Exec (Agent C W) ⊤
  mark_done a = elim (task_done a.mailbox) [
    | none ↦ (raised (value_error "task_done() called too many times"), a)
    | some q ↦ (ok tt, set_mailbox q a)
  ]

  unfoldable pub handle_message : MessageEnvelope → Exec (Agent C W) ⊤
  unfolding attempt recover mark_done
  handle_message message = finally (try (attempt message) (recover message)) mark_done
