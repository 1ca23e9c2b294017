-- ===== src/Agent/Work.antt =====
-- The work on one message: what it leaves alone, and the mailbox's count.
use unified_runtime_primitiv.Base.{ℕ, suc, ◌+◌, ◌≡◌, ap, length, arith}
use unified_runtime_primitiv.Data.{MessageEnvelope}
use unified_runtime_primitiv.Exec.{ok, try, finish}
use unified_runtime_primitiv.Exec.Keeps.{Keeps}
use unified_runtime_primitiv.Agent.State.{Agent, Program}
use unified_runtime_primitiv.Agent.Handling.{attempt, recover, mark_done, handle_message}
use unified_runtime_primitiv.Agent.Frame.{
  Works, Works-order, Works-of_Leaves, set_processing-Works, set_result-Works, make_event-Leaves,
  Respects,
}
use unified_runtime_primitiv.Agent.Keeping.{IsKept, tried-Keeps}

module _ {C W : Type 0} where
  -- The count of the mailbox is the number of waiting messages.
  abbrev pub IsCounted : Agent C W → Type 0
  IsCounted a = a.mailbox.unfinished_tasks ≡ length a.mailbox.items

  abbrev pub set_count : ℕ → Agent C W → Agent C W
  set_count n a = record a { mailbox = record a.mailbox { unfinished_tasks = n } }

module _ {C W : Type 0} (p : Program C W) where
  pub mark_done_lem :
      (a : Agent C W) (n : ℕ)
      → a.mailbox.unfinished_tasks ≡ suc n
      → mark_done p a ≡ (ok tt, set_count n a)
  unfolding mark_done
  mark_done_lem a n e = ground arith

module _ {C W : Type 0} (p : Program C W) (respects : Respects p) where
  Works-IsKept : IsKept p Works
  Works-IsKept = record {
    by_bus = record {
      order = Works-order;
      make_event_keeps = λ type payload id correlation.
          Works-of_Leaves _
            (make_event-Leaves p.runtime respects.runtime type payload id correlation);
      call_keeps = λ c event. Works-of_Leaves _ (respects.call c event);
    };
    set_result_keeps = set_result-Works;
    set_processing_keeps = set_processing-Works;
    check_preconditions_keeps = λ m. Works-of_Leaves _ (respects.check_preconditions m);
    process_keeps = λ m. Works-of_Leaves _ (respects.process m);
    check_postconditions_keeps = λ m r. Works-of_Leaves _ (respects.check_postconditions m r);
  }

  pub tried-Works : (m : MessageEnvelope) → Keeps Works (try (attempt p m) (recover p m))
  tried-Works = tried-Keeps p Works-IsKept

  -- `task_done` does not fail, so the message's own result or exception comes out.
  pub handle_message_lem :
      (m : MessageEnvelope) (a : Agent C W) (n : ℕ)
      → a.mailbox.unfinished_tasks ≡ suc n
      → let (r, t) = try (attempt p m) (recover p m) a in
        handle_message p m a ≡ (r, set_count (n + length ((tried-Works m).at a).grows.arrivals) t)
  unfolding handle_message
  handle_message_lem m a n e =
      let (r, t) = try (attempt p m) (recover p m) a in
      let g = ((tried-Works m).at a).grows in
      ap (finish r) (mark_done_lem p t (n + length g.arrivals) (omega (arith, e, g.counted)))
