-- ===== src/Agent/Answers.antt =====
-- The event that answers a message, if the callbacks do not raise.
use unified_runtime_primitiv.Base.{
  ℕ, suc, ◌+◌, ◌≡◌, refl, ◌∙◌, ap, String, Bool, true, false, Option, none, some, length, arith,
}
use unified_runtime_primitiv.Data.{
  AgentDescriptor, processing, ProcessResult, Payload, process_result, MessageEnvelope,
}
use unified_runtime_primitiv.Exec.{Result, ok, raised, ⊤, finish}
use unified_runtime_primitiv.Agent.State.{Agent, Program, set_status, set_result, set_world}
use unified_runtime_primitiv.Agent.Events.{
  event_of, make_event, emit_to, emit, announce, reply, message_id_or,
}
use unified_runtime_primitiv.Agent.Handling.{mark_done, handle_message}
use unified_runtime_primitiv.Agent.Frame.{
  Leaves, Works, Works-order, Works-of_Leaves, set_processing-Works, Respects, emit-Leaves,
}
use unified_runtime_primitiv.Agent.Work.{set_count, mark_done_lem}
use unified_runtime_primitiv.Agent.Verdict.{
  Verdict, completed, answer, judge_post, judge_process, judge_pre, judge, send_answer, deliver,
  handle_message-deliver,
}

-- The callbacks never raise.
abbrev pub Delivers : {C W : Type 0} → Program C W → Type 0
Delivers {C} {W} p = (c : C) (e : MessageEnvelope) (a : Agent C W) → (p.call c e a).0 ≡ ok tt

module _ {C W : Type 0} (p : Program C W) where
  -- `handled` is the outcome of handling `m` in the state `a`: the event `event` was sent out last,
  -- from the state `before`, and the message marked done in the state `after`.
  pub record Answered (a : Agent C W) (m : MessageEnvelope) (type : String) (result : ProcessResult)
      (handled : Result ⊤ × Agent C W) : Type 0 where
    pub event : MessageEnvelope
    pub before : Agent C W
    pub after : Agent C W
    pub count : ℕ
    pub of_type : event.type ≡ type
    pub carries : event.payload ≡ process_result result
    pub from : event.sender ≡ a.descriptor.agent_id
    pub of_message : event.message_id ≡ m.message_id
    pub correlated : event.correlation_id ≡ m.correlation_id
    pub recorded : before.state.last_process_result ≡ some result
    pub emitted : emit p.runtime event before ≡ (ok tt, after)
    pub still_recorded : after.state.last_process_result ≡ some result
    pub unfinished : after.mailbox.unfinished_tasks ≡ suc count
    pub done : handled ≡ (ok tt, set_count count after)

  send_answer-some :
      (m : MessageEnvelope) (v : Verdict) (o : Option (String × ProcessResult))
      (q : String × ProcessResult) (a : Agent C W)
      → o ≡ some q
      → send_answer p m v o a ≡ reply p.runtime m q.0 q.1 a
  send_answer-some m v o q a e = rw e

  deliver-answer :
      (m : MessageEnvelope) (v : Verdict) (q : String × ProcessResult) (a d : Agent C W)
      → answer v ≡ some q
      → reply p.runtime m q.0 q.1 a ≡ (ok tt, d)
      → deliver p m v a ≡ (ok tt, d)
  deliver-answer m (completed r) q a d e s = rw (send_answer-some m (completed r) _ q a e, s)
  deliver-answer m v q a d e s = send_answer-some m v _ q a e ∙ s

  module _ (delivers : Delivers p) where
    emit_to-ok :
        (c : Option C) (e : MessageEnvelope) (a : Agent C W) → (emit_to p.runtime c e a).0 ≡ ok tt
    unfolding emit_to
    emit_to-ok none e a = refl
    emit_to-ok (some c) e a = delivers c e a

    pub emit-ok :
        (e : MessageEnvelope) (a : Agent C W) → emit p.runtime e a ≡ (ok tt, (emit p.runtime e a).1)
    unfolding emit
    emit-ok e a = λ i. (emit_to-ok a.emit_callback e a i, (emit p.runtime e a).1)

    pub announce-ok :
        (type : String) (payload : Payload) (a : Agent C W)
        → (announce p.runtime type payload a).0 ≡ ok tt
    unfolding announce make_event
    announce-ok type payload a =
        let event = event_of p.runtime type payload none none a in
        let (_, w) = message_id_or p.runtime none a.world in
        ap (λ (q : Result ⊤ × Agent C W). q.0) (emit-ok event (set_world (p.utc_now w).1 a))

module _ {C W : Type 0} (p : Program C W) (respects : Respects p) where
  judge_post-Works :
      (a : Agent C W) (q : Result (Bool × String × ProcessResult) × Agent C W)
      → Works a q.1
      → Works a (judge_post p q).1
  judge_post-Works a (ok (true, t, r), b) w = w
  judge_post-Works a (ok (false, t, r), b) w = w
  judge_post-Works a (raised e, b) w = w

  judge_process-Works :
      (m : MessageEnvelope) (a : Agent C W) (q : Result ProcessResult × Agent C W)
      → Works a q.1
      → Works a (judge_process p m q).1
  judge_process-Works m a (ok r, b) w =
      judge_post-Works a (p.check_postconditions m r b)
        (Works-order.then a b _ w ((Works-of_Leaves _ (respects.check_postconditions m r)).at b))
  judge_process-Works m a (raised e, b) w = w

  judge_pre-Works :
      (m : MessageEnvelope) (a : Agent C W) (q : Result (Bool × String) × Agent C W)
      → Works a q.1
      → Works a (judge_pre p m q).1
  judge_pre-Works m a (ok (true, t), b) w =
      let c = set_status processing b in
      judge_process-Works m a (p.process m c) (
        Works-order.then a c _ (Works-order.then a b c w (set_processing-Works.at b))
          ((Works-of_Leaves _ (respects.process m)).at c))
  judge_pre-Works m a (ok (false, t), b) w = w
  judge_pre-Works m a (raised e, b) w = w

  judge-Works : (m : MessageEnvelope) (a : Agent C W) → Works a (judge p m a).1
  judge-Works m a =
      judge_pre-Works m a (p.check_preconditions m a)
        ((Works-of_Leaves _ (respects.check_preconditions m)).at a)

  -- If the subclass and the bus respect the agent's fields (`Respects`): with callbacks that do not
  -- raise, the handling of a message that stands in the mailbox's count, and whose verdict has an
  -- answer in the table, returns. It records the result that the table gives and sends it as its
  -- last event, of the table's type, from the agent's id and with the message's id and correlation
  -- id; then the message is marked done.
  pub handle_message_answers :
      (m : MessageEnvelope) (a : Agent C W) (n : ℕ) (type : String) (result : ProcessResult)
      → Delivers p
      → a.mailbox.unfinished_tasks ≡ suc n
      → answer (judge p m a).0 ≡ some (type, result)
      → Answered p a m type result (handle_message p m a)
  unfolding reply make_event
  handle_message_answers m a n type result delivers e found =
      let (v, b) = judge p m a in
      let w : Works a b = judge-Works m a in
      let b' = set_result result b in
      let event =
        event_of p.runtime type (process_result result) (some m.message_id) m.correlation_id b' in
      let c = set_world (p.utc_now b.world).1 b' in
      let d = (emit p.runtime event c).1 in
      let l : Leaves c d = (emit-Leaves p.runtime respects.runtime event).at c in
      let k = n + length w.grows.arrivals + length l.grows.arrivals in
      let counted : d.mailbox.unfinished_tasks ≡ suc k =
        omega (arith, e, w.grows.counted, l.grows.counted) in
      let sent : emit p.runtime event c ≡ (ok tt, d) = emit-ok p delivers event c in
      record {
        event = event;
        before = c;
        after = d;
        count = k;
        of_type = refl;
        carries = refl;
        from = ap (λ (x : AgentDescriptor). x.agent_id) w.grows.same_descriptor;
        of_message = refl;
        correlated = refl;
        recorded = refl;
        emitted = sent;
        still_recorded = l.same_result;
        unfinished = counted;
        done =
            handle_message-deliver p m a
            ∙ ap (λ (q : Result ⊤ × Agent C W). finish q.0 (mark_done p q.1))
                (deliver-answer p m v (type, result) b d found sent)
            ∙ ap (finish (ok tt)) (mark_done_lem p d k counted);
      }
