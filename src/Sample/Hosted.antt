-- ===== src/Sample/Hosted.antt =====
-- `EchoAgent` in a host: what a client of the host receives.
use unified_runtime_primitiv.Base.{
  ◌≡◌, refl, sym, subst, ◌∙◌, ap, Bool, true, false, String, Option, none, some, List, [], ◌∷◌,
  ◌++◌, map, length,
}
use unified_runtime_primitiv.Data.{
  MessageEnvelope, Payload, value, dict, field, end, process_result, processing,
}
use unified_runtime_primitiv.Exec.{Exec, Exception, Result, ok, raised, ⊤, pure, handle, finish}
use unified_runtime_primitiv.Mailbox.{Mailbox, task_done}
use unified_runtime_primitiv.Agent.{
  Program, announce, handle_message, attempt, recover, mark_done, after_pre, after_process,
  after_post, settle, loop_test, loop_next, default_check_preconditions,
  default_check_postconditions, set_status, set_mailbox, wake,
}
use unified_runtime_primitiv.Agent.Taking.{run_task}
use unified_runtime_primitiv.Agent.Draining.{
  IsLive, TakesEach, at_work, handled_by, waiting_are_taken,
}
use unified_runtime_primitiv.Host.{HostFields, HostedAgent, Host, holds, Environment, host_runtime}
use unified_runtime_primitiv.Host.Queue.{events_of, Drained, drain, drain-Drained}
use unified_runtime_primitiv.Host.Writing.{
  Note, note_of, notes_of, Wrote, Wrote-nothing, Wrote-then, Writes, Writes-bind, Writes-from,
  announce-Writes, reply-Writes,
}
use unified_runtime_primitiv.Sample.Quiet.{IsQuietEnvironment, runtime_respects, steady_bus}
use unified_runtime_primitiv.Sample.{extract_text, echo_result, echo_process, echo_agent}
use unified_runtime_primitiv.Sample.Echo.{echo_agent-Respects}
use unified_runtime_primitiv.Sample.Progress.{echo_agent-Steady}

module _ (str : Payload → String) where
  -- What an echo agent says on a message: that it has received it, and the echo as its result.
  abbrev pub received : MessageEnvelope → Note
  received m = record {
    type = "ECHO_RECEIVED";
    payload = value (dict (field "original_text" (extract_text str m.payload) end));
    correlation_id = none;
  }

  abbrev pub completed : MessageEnvelope → Note
  completed m = record {
    type = "TASK_COMPLETED";
    payload = process_result (echo_result str m.payload);
    correlation_id = m.correlation_id;
  }

  abbrev pub echoes_of : List MessageEnvelope → List Note
  echoes_of [] = []
  echoes_of (m ∷ ms) = received m ∷ completed m ∷ echoes_of ms

module _ {E V : Type 0} where
  pure-Writes : {A : Type 0} (r : A) (a : HostedAgent E V) → Writes [] a r (pure r a)
  pure-Writes r a = record { returns = refl; writes = Wrote-nothing a a refl refl }

  -- `finally` the message is marked done, which writes nothing.
  done_at :
      (o : Option (Mailbox MessageEnvelope)) (a b : HostedAgent E V) (notes : List Note)
      → Wrote notes a b
      → Wrote notes a
          (finish (ok tt) (elim o [
            | none ↦ (raised (Exception.value_error "task_done() called too many times"), b)
            | some q ↦ (ok tt, set_mailbox q b)
          ])).1
  done_at none a b notes w = w
  done_at (some q) a b notes w = record { wrote = w.wrote; still_bound = w.still_bound }

  marked :
      (p : Program ⊤ (HostFields E V)) (q : Result ⊤ × HostedAgent E V)
      (h : Exception → Exec (HostedAgent E V) ⊤) (a : HostedAgent E V) (notes : List Note)
      → Writes notes a tt q
      → let (r, b) = handle q h in Wrote notes a (finish r (mark_done p b)).1
  unfolding mark_done
  marked p (ok _, b) h a notes w = done_at (task_done b.mailbox) a b notes w.writes
  marked p (raised e, b) h a notes w = absurd (let r = w.returns in cc)

  tested :
      (b : Bool) (t a : HostedAgent E V) (notes : List Note)
      → Wrote notes a t
      → Wrote notes a (loop_next b t)
  unfolding loop_next
  tested true t a notes w = record { wrote = w.wrote; still_bound = w.still_bound }
  tested false t a notes w = record { wrote = w.wrote; still_bound = w.still_bound }

module _ (str : Payload → String) {E V : Type 0} (env : Environment E V)
    (quiet : IsQuietEnvironment env) where
  abbrev echo : Program ⊤ (HostFields E V)
  echo = echo_agent str (host_runtime env)

  others-Writes : (a : HostedAgent E V) → Writes [] a tt (env.others a)
  others-Writes a =
      let q = quiet.others a in
      record {
        returns = q.returns;
        writes = Wrote-nothing a (env.others a).1 q.same_events q.same_callback;
      }

  process-Writes :
      (m : MessageEnvelope) (a : HostedAgent E V)
      → a.emit_callback ≡ some tt
      → Writes
          (received str m ∷ [])
          a
          (echo_result str m.payload)
          (echo_process str (host_runtime env) m a)
  unfolding echo_process
  process-Writes m a bound =
      let rt = host_runtime env in
      let spoken = value (dict (field "original_text" (extract_text str m.payload) end)) in
      let b = (env.others a).1 in
      let bound' = (quiet.others a).same_callback ∙ bound in
      Writes-bind [] (received str m ∷ []) a tt (echo_result str m.payload) (env.others a) _
        (others-Writes a)
        (Writes-bind (received str m ∷ []) [] b tt (echo_result str m.payload)
          (announce rt "ECHO_RECEIVED" spoken b) _
          (announce-Writes env quiet.calls "ECHO_RECEIVED" spoken b bound')
          (pure-Writes (echo_result str m.payload) _))

  attempt-Writes :
      (m : MessageEnvelope) (a : HostedAgent E V)
      → a.emit_callback ≡ some tt
      → Writes (received str m ∷ completed str m ∷ []) a tt (attempt echo m a)
  unfolding attempt after_pre after_process after_post default_check_preconditions
      default_check_postconditions
  attempt-Writes m a bound =
      let c = set_status processing a in
      let q = echo_process str (host_runtime env) m c in
      let w = process-Writes m c bound in
      Writes-bind (received str m ∷ []) (completed str m ∷ []) a (echo_result str m.payload) tt q _
        (Writes-from (received str m ∷ []) a c (echo_result str m.payload) q refl refl w)
        (unfold echo_result in
          reply-Writes env quiet.calls m "TASK_COMPLETED" (echo_result str m.payload) q.1
            (w.writes.still_bound ∙ bound))

  -- What the handling of a message writes in a state in which the agent is bound to its host.
  abbrev WritesEcho : MessageEnvelope → HostedAgent E V → Type 0
  WritesEcho m c =
      c.emit_callback ≡ some tt
      → Wrote (received str m ∷ completed str m ∷ []) c (handle_message echo m c).1

  handle_message-WritesEcho : (m : MessageEnvelope) (c : HostedAgent E V) → WritesEcho m c
  unfolding handle_message
  handle_message-WritesEcho m c bound =
      marked echo (attempt echo m c) (recover echo m) c _ (attempt-Writes m c bound)

  wake-Wrote :
      (m : MessageEnvelope) (a : HostedAgent E V)
      → a.emit_callback ≡ some tt
      → Wrote (received str m ∷ completed str m ∷ []) a (handled_by echo m a)
  unfolding settle loop_test
  wake-Wrote m a bound =
      let b = at_work echo a in
      let q = quiet.others a in
      let t = (handle_message echo m b).1 in
      tested t.shutdown_event t a _ (
        Wrote-then [] _ a b t (Wrote-nothing a b q.same_events q.same_callback)
          (handle_message-WritesEcho m b (q.same_callback ∙ bound)))

  all_Wrote :
      (Q : MessageEnvelope → HostedAgent E V → Type 0) (ms : List MessageEnvelope)
      (a : HostedAgent E V)
      → a.emit_callback ≡ some tt
      → TakesEach echo Q ms a
      → Wrote (echoes_of str ms) a (run_task echo (length ms) a)
  unfolding run_task
  all_Wrote Q [] a bound each = Wrote-nothing a a refl refl
  all_Wrote Q (m ∷ ms) a bound (takes, handles, q, rest) =
      let w = wake-Wrote m a bound in
      let v = subst (Wrote (received str m ∷ completed str m ∷ []) a) (sym handles) w in
      Wrote-then (received str m ∷ completed str m ∷ []) (echoes_of str ms) a (wake echo a) _ v
        (all_Wrote Q ms (wake echo a) (v.still_bound ∙ bound) rest)

  -- As many runs as messages wait, from a state in which the agent is bound and its loop waits.
  pub run_task-echoes :
      (a : HostedAgent E V)
      → IsLive a
      → a.emit_callback ≡ some tt
      → let b = run_task echo (length a.mailbox.items) a in
        IsLive b × (notes_of b ≡ notes_of a ++ echoes_of str a.mailbox.items)
  run_task-echoes a live bound =
      let items = a.mailbox.items in
      let respects = runtime_respects env quiet in
      let (each, still) =
        waiting_are_taken echo (echo_agent-Respects str (host_runtime env) respects)
          (echo_agent-Steady str (host_runtime env) respects (steady_bus env quiet)) (λ m c. Unit)
          (λ m c n h. tt) a live in
      (still, (all_Wrote (λ m c. Unit) items a bound each).wrote)

  -- In an environment that is quiet (`IsQuietEnvironment`), a host holds an `EchoAgent` that is bound
  -- to it and whose loop waits: once the agent's task has run as often as messages waited, the
  -- client that takes the events gets those that had been waiting, and then for each message, in
  -- the order of the mailbox, ECHO_RECEIVED with the message's text and TASK_COMPLETED with the
  -- echo and the message's correlation id; then no event is left. The loop waits again.
  pub echo-drain :
      (a : HostedAgent E V) (host : Host E V)
      → IsLive a
      → a.emit_callback ≡ some tt
      → let items = a.mailbox.items in
        let b = run_task echo (length items) a in
        host.held ≡ holds b
        → IsLive b
          × (map note_of (drain (length (events_of b)) host).0 ≡ notes_of a ++ echoes_of str items)
          × Drained (events_of b) (drain (length (events_of b)) host)
  echo-drain a host live bound held =
      let b = run_task echo (length a.mailbox.items) a in
      let (still, wrote) = run_task-echoes a live bound in
      let drained = drain-Drained (events_of b) host b held refl in
      (still, ap (map note_of) drained.taken ∙ wrote, drained)
