-- ===== src/Handle/Sending.antt =====
-- Messages that are sent through a handle.
use unified_runtime_primitiv.Base.{
  ℕ, ◌+◌, ◌≡◌, refl, sym, ◌∙◌, ap, ◌≢◌, List, [], ◌∷◌, ◌++◌, append-nil, append_assoc, length,
  length-append, arith,
}
use unified_runtime_primitiv.Data.{AgentStatus, terminated, MessageEnvelope}
use unified_runtime_primitiv.Exec.{Result, ok, ⊤}
use unified_runtime_primitiv.Mailbox.{put}
use unified_runtime_primitiv.Agent.{Agent, send, send_at, set_mailbox}
use unified_runtime_primitiv.Handle.Defs.{
  AgentHandle, around_handle, handle_send, handle_status, mailbox_size, handle_state,
}

module _ {C W : Type 0} where
  -- Messages sent one after the other; what one of them raises is the caller's to see.
  unfoldable pub send_all : List MessageEnvelope → AgentHandle C W → AgentHandle C W
  send_all [] h = h
  send_all (m ∷ ms) h = send_all ms (handle_send m h).1

  abbrev pub set_box : List MessageEnvelope → ℕ → AgentHandle C W → AgentHandle C W
  set_box items n h = record h {
    entry = record h.entry {
      agent = set_mailbox (record { items = items; unfinished_tasks = n }) h.entry.agent;
    };
  }

  -- `h` with these messages behind those that wait in its agent's mailbox.
  abbrev pub with_messages : List MessageEnvelope → AgentHandle C W → AgentHandle C W
  with_messages ms h =
      let q = h.entry.agent.mailbox in set_box (q.items ++ ms) (q.unfinished_tasks + length ms) h

  accepted :
      (s : AgentStatus) (m : MessageEnvelope) (a : Agent C W)
      → s ≢ terminated
      → send_at s m a ≡ (ok tt, set_mailbox (put m a.mailbox) a)
  unfolding send_at
  accepted terminated m a h = absurd (h refl)
  accepted _ m a h = refl

  all_sent :
      (ms : List MessageEnvelope) (h : AgentHandle C W)
      → h.entry.agent.state.status ≢ terminated
      → send_all ms h ≡ with_messages ms h
  unfolding send_all handle_send send
  all_sent [] h alive =
      let q = h.entry.agent.mailbox in
      let none_more : q.unfinished_tasks ≡ q.unfinished_tasks + 0 = omega arith in
      λ i. set_box (sym (append-nil q.items) i) (none_more i) h
  all_sent (m ∷ ms) h alive =
      let q = h.entry.agent.mailbox in
      let n = q.unfinished_tasks in
      let assoc : n + 1 + length ms ≡ n + length (m ∷ ms) = omega arith in
      ap (λ (r : Result ⊤ × Agent C W). send_all ms (around_handle h r).1)
        (accepted h.entry.agent.state.status m h.entry.agent alive)
      ∙ all_sent ms (with_messages (m ∷ []) h) alive
      ∙ λ i. set_box (append_assoc q.items (m ∷ []) ms i) (assoc i) h

  -- Unless the agent has terminated, messages that are sent through its handle change nothing but
  -- its mailbox: they stand in it in the order of their sending, behind those that waited, its size
  -- has grown by their number, and its count of unfinished messages too.
  pub send_all_lem :
      (ms : List MessageEnvelope) (h : AgentHandle C W)
      → handle_status h ≢ terminated
      → (send_all ms h ≡ with_messages ms h)
        × (mailbox_size (send_all ms h) ≡ mailbox_size h + length ms)
  unfolding mailbox_size handle_status handle_state
  send_all_lem ms h alive =
      let e = all_sent ms h alive in
      (
        e,
        ap (λ (k : AgentHandle C W). length k.entry.agent.mailbox.items) e
            ∙ length-append h.entry.agent.mailbox.items ms,
      )
