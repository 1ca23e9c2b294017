-- ===== src/Agent/Verdict.antt =====
-- What the work on a message comes to, as a table: the specification of the inner `try`.
use unified_runtime_primitiv.Base.{
  ◌≡◌, refl, ap, fun_ext, String, Bool, true, false, Option, none, some,
}
use unified_runtime_primitiv.Data.{
  processing, precondition_failure, infrastructure_failure, outcome_value, ProcessResult,
  MessageEnvelope,
}
use unified_runtime_primitiv.Exec.{
  Exec, Exception, postconditions_violated, preconditions_violated, cancelled_error, base_exception,
  other_error, Result, ok, raised, ⊤, raise, continue, handle, try, finally, finish,
}
use unified_runtime_primitiv.Agent.State.{Agent, Program, set_status}
use unified_runtime_primitiv.Agent.Events.{reply}
use unified_runtime_primitiv.Agent.Handling.{
  violation_result, failure_result, after_post, after_process, after_pre, attempt, recover,
  mark_done, handle_message,
}

-- The work completed; its postconditions failed (with a result, or without one); its preconditions
-- failed; it failed otherwise; or the task itself was cancelled or broken.
pub data Verdict : Type 0 where
  completed violated : ProcessResult → Verdict
  violated_without_result rejected crashed : Verdict
  aborted : Exception → Verdict

abbrev pub verdict_of : Exception → Verdict
verdict_of (postconditions_violated (some r) _) = violated r
verdict_of (postconditions_violated none _) = violated_without_result
verdict_of (preconditions_violated _) = rejected
verdict_of cancelled_error = aborted cancelled_error
verdict_of (base_exception t) = aborted (base_exception t)
verdict_of _ = crashed

-- The type of the event that answers the message and the result that it carries, if there is one.
abbrev pub answer : Verdict → Option (String × ProcessResult)
answer (completed r) = some (outcome_value r.outcome, r)
answer (violated r) = some ("TASK_POSTCONDITIONS_VIOLATED", violation_result r)
answer violated_without_result = none
answer rejected = some ("TASK_PRECONDITIONS_VIOLATED", failure_result precondition_failure)
answer crashed = some ("TASK_FAILED", failure_result infrastructure_failure)
answer (aborted e) = none

-- The exception that leaves the inner `try` where there is no answer.
abbrev pub escape : Verdict → Exception
escape (aborted e) = e
escape _ = other_error "AttributeError"

module _ {C W : Type 0} (p : Program C W) where
  abbrev pub judge_post : Result (Bool × String × ProcessResult) × Agent C W → Verdict × Agent C W
  judge_post (ok (true, _, r), a) = (completed r, a)
  judge_post (ok (false, _, r), a) = (violated r, a)
  judge_post (raised e, a) = (verdict_of e, a)

  abbrev pub judge_process :
      MessageEnvelope → Result ProcessResult × Agent C W → Verdict × Agent C W
  judge_process m (ok r, a) = judge_post (p.check_postconditions m r a)
  judge_process m (raised e, a) = (verdict_of e, a)

  abbrev pub judge_pre : MessageEnvelope → Result (Bool × String) × Agent C W → Verdict × Agent C W
  judge_pre m (ok (true, _), a) = judge_process m (p.process m (set_status processing a))
  judge_pre m (ok (false, _), a) = (rejected, a)
  judge_pre m (raised e, a) = (verdict_of e, a)

  -- The hooks are asked in turn; the first that objects or raises decides.
  abbrev pub judge : MessageEnvelope → Agent C W → Verdict × Agent C W
  judge m a = judge_pre m (p.check_preconditions m a)

  abbrev pub send_answer :
      MessageEnvelope → Verdict → Option (String × ProcessResult) → Exec (Agent C W) ⊤
  send_answer m v (some (type, result)) = reply p.runtime m type result
  send_answer m v none = raise (escape v)

  abbrev answer_with : MessageEnvelope → Verdict → Exec (Agent C W) ⊤
  answer_with m v = send_answer m v (answer v)

  -- If the completion cannot be sent out, what the bus raised is judged once more.
  abbrev pub deliver : MessageEnvelope → Verdict → Exec (Agent C W) ⊤
  deliver m (completed r) = try (answer_with m (completed r)) (λ e. answer_with m (verdict_of e))
  deliver m v = answer_with m v

  recover-answer :
      (m : MessageEnvelope) (e : Exception) (a : Agent C W)
      → recover p m e a ≡ answer_with m (verdict_of e) a
  unfolding recover
  recover-answer m (postconditions_violated (some r) t) a = refl
  recover-answer m (postconditions_violated none t) a = refl
  recover-answer m cancelled_error a = refl
  recover-answer m (base_exception t) a = refl
  recover-answer m _ a = refl

  recover-deliver :
      (m : MessageEnvelope) (e : Exception) (a : Agent C W)
      → recover p m e a ≡ deliver m (verdict_of e) a
  unfolding recover
  recover-deliver m (postconditions_violated (some r) t) a = refl
  recover-deliver m (postconditions_violated none t) a = refl
  recover-deliver m cancelled_error a = refl
  recover-deliver m (base_exception t) a = refl
  recover-deliver m _ a = refl

  tried_post :
      (m : MessageEnvelope) (q : Result (Bool × String × ProcessResult) × Agent C W)
      → handle (continue q (after_post p m)) (recover p m)
        ≡ deliver m (judge_post q).0 (judge_post q).1
  unfolding after_post recover
  tried_post m (ok (true, t, r), a) =
      ap (handle (reply p.runtime m (outcome_value r.outcome) r a))
        (fun_ext (λ e. fun_ext (λ s. recover-answer m e s)))
  tried_post m (ok (false, t, r), a) = refl
  tried_post m (raised e, a) = recover-deliver m e a

  tried_process :
      (m : MessageEnvelope) (q : Result ProcessResult × Agent C W)
      → handle (continue q (after_process p m)) (recover p m)
        ≡ deliver m (judge_process m q).0 (judge_process m q).1
  unfolding after_process
  tried_process m (ok r, a) = tried_post m (p.check_postconditions m r a)
  tried_process m (raised e, a) = recover-deliver m e a

  tried_pre :
      (m : MessageEnvelope) (q : Result (Bool × String) × Agent C W)
      → handle (continue q (after_pre p m)) (recover p m)
        ≡ deliver m (judge_pre m q).0 (judge_pre m q).1
  unfolding after_pre
  tried_pre m (ok (true, t), a) = tried_process m (p.process m (set_status processing a))
  tried_pre m (ok (false, t), a) = recover-deliver m (preconditions_violated t) a
  tried_pre m (raised e, a) = recover-deliver m e a

  -- Handling a message is: ask the hooks for the verdict, deliver the answer that the table gives
  -- for it, and mark the message done whatever happened. If the answer to a completed message cannot
  -- be sent out, what the bus raised is judged as if the work had raised it.
  pub handle_message-deliver :
      (m : MessageEnvelope) (a : Agent C W)
      → let (v, b) = judge m a in handle_message p m a ≡ finally (deliver m v) (mark_done p) b
  unfolding handle_message attempt
  handle_message-deliver m a =
      ap (λ (q : Result ⊤ × Agent C W). finish q.0 (mark_done p q.1))
        (tried_pre m (p.check_preconditions m a))
