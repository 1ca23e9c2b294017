-- ===== src/Agent/Order.antt =====
-- Schedules and the mailbox: in which order messages come and are taken.
use unified_runtime_primitiv.Base.{
  ℕ, suc, ◌≡◌, ◌≢◌, refl, subst, Option, none, some, List, [], ◌∷◌, ◌++◌, append-nil, append_assoc,
  arith,
}
use unified_runtime_primitiv.Data.{AgentStatus, terminated, MessageEnvelope, AgentDescriptor}
use unified_runtime_primitiv.Exec.{Result, ok, raised, ⊤, continue}
use unified_runtime_primitiv.Agent.State.{Agent, Program, new}
use unified_runtime_primitiv.Agent.Lifecycle.{send_at, send, initialize, start}
use unified_runtime_primitiv.Agent.Loop.{
  begin_shutdown, end_shutdown, joined, await_task, await_then_end, shutdown,
}
use unified_runtime_primitiv.Agent.Operations.{
  Operation, initializes, rebinds, starts, sends, wakes, shuts_down, perform, after, step, run,
}
use unified_runtime_primitiv.Agent.Frame.{Respects}
use unified_runtime_primitiv.Agent.Coherence.{IsCoherent, Leaves-IsCoherent, new-IsCoherent}
use unified_runtime_primitiv.Agent.Shutdown.{asked}
use unified_runtime_primitiv.Agent.Stepping.{perform-Performed}
use unified_runtime_primitiv.Agent.Taking.{wake_takes, runs_take, await_task-run_task}
use unified_runtime_primitiv.Agent.Queues.{
  Queues, Queues-same, Logs, set_callback-Queues, initialize_at-Queues, start_at-Queues,
  begin_shutdown-Queues, end_shutdown-Queues,
}
use unified_runtime_primitiv.Agent.Drains.{
  Drains, Drains-of_Queues, Drains-then, wake-Drains, run_task-Drains,
}

abbrev accepted_at : AgentStatus → MessageEnvelope → List MessageEnvelope
accepted_at terminated m = []
accepted_at _ m = m ∷ []

-- What a list has beyond the length of another.
unfoldable pub behind : List MessageEnvelope → List MessageEnvelope → List MessageEnvelope
behind [] ys = ys
behind (x ∷ xs) [] = []
behind (x ∷ xs) (y ∷ ys) = behind xs ys

behind-append : (xs ys : List MessageEnvelope) → behind xs (xs ++ ys) ≡ ys
unfolding behind
behind-append [] ys = refl
behind-append (x ∷ xs) ys = behind-append xs ys

behind_self : (xs : List MessageEnvelope) → behind xs xs ≡ []
unfolding behind
behind_self [] = refl
behind_self (x ∷ xs) = behind_self xs

module _ {C W : Type 0} where
  -- The message that an operation puts into the mailbox.
  abbrev pub accepts : Operation C → Agent C W → List MessageEnvelope
  accepts (sends m) a = accepted_at a.state.status m
  accepts _ a = []

module _ {C W : Type 0} where
  -- From `a` to `b` the messages `came` stood behind those that waited, and `taken` left at the front.
  abbrev Balance : (came taken : List MessageEnvelope) (a b : Agent C W) → Type 0
  Balance came taken a b = a.mailbox.items ++ came ≡ taken ++ b.mailbox.items

module _ {C W : Type 0} (p : Program C W) where
  abbrev pub takes_then : ℕ → Result ⊤ × Agent C W → List MessageEnvelope
  takes_then n (ok _, b) = runs_take p n b
  takes_then n (raised e, b) = []

  -- The messages that the loop takes in the course of an operation.
  abbrev pub takes : Operation C → Agent C W → List MessageEnvelope
  takes wakes a = wake_takes p a
  takes (shuts_down n) a = takes_then (suc n) (begin_shutdown p a)
  takes _ a = []

  unfoldable pub all_taken : List (Operation C) → Agent C W → List MessageEnvelope
  all_taken [] a = []
  all_taken (op ∷ ops) a = takes op a ++ all_taken ops (step p op a)

module _ {C W : Type 0} (log : W → List MessageEnvelope) (p : Program C W) where
  -- What comes in the course of an operation: the message that `send` accepts, and what the hooks,
  -- the callbacks and the other tasks have logged as sent.
  abbrev pub comes : Operation C → Agent C W → List MessageEnvelope
  comes op a = accepts op a ++ behind (log a.world) (log (step p op a).world)

  unfoldable pub all_come : List (Operation C) → Agent C W → List MessageEnvelope
  all_come [] a = []
  all_come (op ∷ ops) a = comes op a ++ all_come ops (step p op a)

module _ {C W : Type 0} (p : Program C W) (respects : Respects p) where
  pub begin_shutdown-IsCoherent : (a : Agent C W) → IsCoherent a → IsCoherent (begin_shutdown p a).1
  unfolding begin_shutdown
  begin_shutdown-IsCoherent a h =
      Leaves-IsCoherent (asked a) _ (record { counted = h.counted; fits = h.fits })
        (respects.on_shutdown.at (asked a))

module _ {C W : Type 0} (log : W → List MessageEnvelope) (p : Program C W) (respects : Respects p)
    (logs : Logs log p) where
  ended-Queues :
      (r : Result ⊤) (c : Agent C W) → Queues log c (continue (r, c) (λ _. end_shutdown p)).1
  ended-Queues (ok _) c = (end_shutdown-Queues log p logs).at c
  ended-Queues (raised e) c = Queues-same log c c refl refl

  joined-Drains :
      (o : Option (Result ⊤ × Agent C W)) (n : ℕ) (a b : Agent C W)
      → await_task p (suc n) b ≡ o
      → joined p o ≢ none
      → Queues log a b
      → Drains log (runs_take p (suc n) b) a (after p a (joined p o))
  unfolding joined
  joined-Drains none n a b e returns q = absurd (returns refl)
  joined-Drains (some (r, c)) n a b e returns q =
      let d = (continue (r, c) (λ _. end_shutdown p)).1 in
      let taken = runs_take p (suc n) b in
      let ran =
        subst (Drains log taken b) (await_task-run_task p (suc n) b c r e)
          (run_task-Drains log p logs (suc n) b) in
      let first = Drains-of_Queues log a b q in
      let last = Drains-of_Queues log c d (ended-Queues r c) in
      subst (λ t. Drains log t a d) (append-nil taken)
        (Drains-then log taken [] a c d (Drains-then log [] taken a b c first ran) last)

  begun-Drains :
      (r : Result ⊤) (n : ℕ) (a b : Agent C W)
      → await_then_end p (suc n) (r, b) ≢ none
      → Queues log a b
      → Drains log (takes_then p (suc n) (r, b)) a (after p a (await_then_end p (suc n) (r, b)))
  unfolding await_then_end
  begun-Drains (raised e) n a b returns q = Drains-of_Queues log a b q
  begun-Drains (ok _) n a b returns q = joined-Drains (await_task p (suc n) b) n a b refl returns q

  Drains-Balance :
      (t : List MessageEnvelope) (a b : Agent C W)
      → Drains log t a b
      → Balance (behind (log a.world) (log b.world)) t a b
  Drains-Balance t a b f = rw (f.logged, behind-append (log a.world) f.arrivals) f.flow

  send_at-Balance :
      (s : AgentStatus) (m : MessageEnvelope) (a : Agent C W)
      → Balance
          (accepted_at s m ++ behind (log a.world) (log (send_at s m a).1.world))
          []
          a
          (send_at s m a).1
  unfolding send_at
  send_at-Balance terminated m a = rw (behind_self (log a.world)) (append-nil a.mailbox.items)
  send_at-Balance _ m a = rw (behind_self (log a.world)) refl

  perform-Balance :
      (op : Operation C) (a : Agent C W)
      → IsCoherent a
      → Balance (comes log p op a) (takes p op a) a (step p op a)
  unfolding step perform initialize start send
  perform-Balance (initializes context c) a h =
      Drains-Balance [] a _
        (Drains-of_Queues log a _ ((initialize_at-Queues log p logs a.state.status context c).at a))
  perform-Balance (rebinds c) a h =
      Drains-Balance [] a _ (Drains-of_Queues log a _ ((set_callback-Queues log p logs c).at a))
  perform-Balance starts a h =
      Drains-Balance [] a _
        (Drains-of_Queues log a _ ((start_at-Queues log p logs a.state.status).at a))
  perform-Balance (sends m) a h = send_at-Balance a.state.status m a
  perform-Balance wakes a h = Drains-Balance (wake_takes p a) a _ (wake-Drains log p logs a)
  perform-Balance (shuts_down n) a h =
      let (r, b) = begin_shutdown p a in
      unfold shutdown in
      Drains-Balance (takes_then p (suc n) (r, b)) a _ (
        begun-Drains r n a b (perform-Performed p respects (shuts_down n) a h).returns
          ((begin_shutdown-Queues log p logs).at a))

  run-Balance :
      (ops : List (Operation C)) (a : Agent C W)
      → IsCoherent a
      → Balance (all_come log p ops a) (all_taken p ops a) a (run p ops a)
  unfolding run all_come all_taken
  run-Balance [] a h = append-nil a.mailbox.items
  run-Balance (op ∷ ops) a h =
      let b = step p op a in
      let first = perform-Balance op a h in
      let rest =
        run-Balance ops b (unfold step in (perform-Performed p respects op a h).coherent) in
      ground (
        arith,
        append_assoc a.mailbox.items (comes log p op a) (all_come log p ops b),
        append_assoc (takes p op a) b.mailbox.items (all_come log p ops b),
        append_assoc (takes p op a) (all_taken p ops b) (run p ops b).mailbox.items,
        first,
        rest,
      )

  -- If the subclass and the bus respect the agent's fields (`Respects`), and the world logs what
  -- they and the other tasks send to the agent (`Logs`): in any schedule on a new agent the messages
  -- that come, those that `send` accepts and the logged ones in their order, are those that are
  -- taken, followed by those that still wait. So each is taken at most once, in the order in which
  -- they come, and none is lost, is doubled or comes from elsewhere.
  pub run-new-order :
      (ops : List (Operation C)) (d : AgentDescriptor) (w : W)
      → let a = new p d w in all_come log p ops a ≡ all_taken p ops a ++ (run p ops a).mailbox.items
  run-new-order ops d w = unfold new in run-Balance ops (new p d w) (new-IsCoherent p d w)
