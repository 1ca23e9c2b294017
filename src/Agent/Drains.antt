-- ===== src/Agent/Drains.antt =====
-- What one run of the loop's task takes from the mailbox, and what comes in meanwhile.
use unified_runtime_primitiv.Base.{
  ℕ, zero, suc, ◌≡◌, refl, sym, ◌∙◌, ap, true, Option, none, some, List, [], ◌∷◌, ◌++◌,
  append_assoc, arith,
}
use unified_runtime_primitiv.Data.{MessageEnvelope}
use unified_runtime_primitiv.Exec.{timeout_error, Result, ok, raised, ⊤, pure, continue, handle}
use unified_runtime_primitiv.Mailbox.{drop_items}
use unified_runtime_primitiv.Agent.State.{
  Agent, Program, Task, created, polling, returned, failed, set_mailbox,
}
use unified_runtime_primitiv.Agent.Handling.{handle_message}
use unified_runtime_primitiv.Agent.Loop.{
  take_from, take_message, survive, receive_and_handle, iteration, loop_test, wake_at, wake,
}
use unified_runtime_primitiv.Agent.Rounds.{front, taken_after, survive-state, closing-state}
use unified_runtime_primitiv.Agent.Queues.{Queues, Queues-same, Logs, handle_message-Queues}
use unified_runtime_primitiv.Agent.Taking.{
  takes_at, wake_takes, run_task, runs_take, loop_test-mailbox, loop_test-world, settle-mailbox,
  settle-world,
}

module _ {C W : Type 0} (log : W → List MessageEnvelope) where
  -- From `a` to `b` the messages `arrivals` have come in at the back and were logged, and `taken`
  -- have left at the front.
  pub record Drains (taken : List MessageEnvelope) (a b : Agent C W) : Type 0 where
    pub arrivals : List MessageEnvelope
    pub flow : a.mailbox.items ++ arrivals ≡ taken ++ b.mailbox.items
    pub logged : log b.world ≡ log a.world ++ arrivals

  pub Drains-of_Queues : (a b : Agent C W) → Queues log a b → Drains [] a b
  Drains-of_Queues a b q = record { arrivals = q.arrivals; flow = sym q.queued; logged = q.logged }

  pub Drains-then :
      (t u : List MessageEnvelope) (a b c : Agent C W)
      → Drains t a b
      → Drains u b c
      → Drains (t ++ u) a c
  Drains-then t u a b c f g = record {
    arrivals = f.arrivals ++ g.arrivals;
    flow = ground (
      arith,
      append_assoc a.mailbox.items f.arrivals g.arrivals,
      append_assoc t b.mailbox.items g.arrivals,
      append_assoc t u c.mailbox.items,
      f.flow,
      g.flow,
    );
    logged = ground (arith, append_assoc (log a.world) f.arrivals g.arrivals, f.logged, g.logged);
  }

  -- Assignments beside the mailbox and the world.
  Drains-settled :
      (t : List MessageEnvelope) (a b c : Agent C W)
      → Drains t a b
      → c.mailbox ≡ b.mailbox
      → c.world ≡ b.world
      → Drains t a c
  Drains-settled t a b c f e w = record {
    arrivals = f.arrivals;
    flow = f.flow ∙ ap (λ q. t ++ q.items) (sym e);
    logged = ap log w ∙ f.logged;
  }

  Drains-none : (a b : Agent C W) → b.mailbox ≡ a.mailbox → b.world ≡ a.world → Drains [] a b
  Drains-none a b e w =
      Drains-settled [] a a b (Drains-of_Queues a a (Queues-same log a a refl refl)) e w

module _ {C W : Type 0} (log : W → List MessageEnvelope) (p : Program C W) (logs : Logs log p) where
  -- The message `m` was taken from `b`, and handled.
  Drains-one :
      (a b : Agent C W) (m : MessageEnvelope) (ms : List MessageEnvelope)
      → Queues log a b
      → b.mailbox.items ≡ m ∷ ms
      → Drains log (m ∷ []) a (handle_message p m (set_mailbox (drop_items ms b.mailbox) b)).1
  Drains-one a b m ms q e =
      let c = set_mailbox (drop_items ms b.mailbox) b in
      Drains-then log (m ∷ []) [] a c _
        (record { arrivals = q.arrivals; flow = sym q.queued ∙ e; logged = q.logged })
        (Drains-of_Queues log c _ ((handle_message-Queues log p logs m).at c))

  after_take :
      (a b : Agent C W) (items : List MessageEnvelope)
      → Queues log a b
      → b.mailbox.items ≡ items
      → Drains log
          (front items)
          a
          (handle
            (continue (take_from items b) (λ m s. continue (handle_message p m s) λ _. pure true))
            survive).1
  unfolding take_from
  after_take a b [] q e = rw (survive-state timeout_error b) (Drains-of_Queues log a b q)
  after_take a b (m ∷ ms) q e =
      let (r, t) = handle_message p m (set_mailbox (drop_items ms b.mailbox) b) in
      rw (closing-state r t) (Drains-one a b m ms q e)

  after_others :
      (a b : Agent C W) (r : Result ⊤)
      → Queues log a b
      → Drains log
          (taken_after (r, b))
          a
          (handle (continue (r, b) (λ _. receive_and_handle p)) survive).1
  unfolding receive_and_handle take_message
  after_others a b (ok _) q = after_take a b b.mailbox.items q refl
  after_others a b (raised e) q = rw (survive-state e b) (Drains-of_Queues log a b q)

  iteration-Drains : (a : Agent C W) → Drains log (taken_after (p.others a)) a (iteration p a).1
  unfolding iteration
  iteration-Drains a = let (r, b) = p.others a in after_others a b r (logs.others.at a)

  wake_at-Drains : (t : Option Task) (a : Agent C W) → Drains log (takes_at p t a) a (wake_at p t a)
  unfolding wake_at loop_test
  wake_at-Drains (some created) a =
      Drains-none log a _ (loop_test-mailbox a.shutdown_event a)
        (loop_test-world a.shutdown_event a)
  wake_at-Drains (some polling) a =
      let (r, b) = iteration p a in
      Drains-settled log _ a b _ (iteration-Drains a) (settle-mailbox r b) (settle-world r b)
  wake_at-Drains none a = Drains-none log a a refl refl
  wake_at-Drains (some returned) a = Drains-none log a a refl refl
  wake_at-Drains (some (failed e)) a = Drains-none log a a refl refl

  pub wake-Drains : (a : Agent C W) → Drains log (wake_takes p a) a (wake p a)
  unfolding wake
  wake-Drains a = wake_at-Drains a.task a

  pub run_task-Drains : (n : ℕ) (a : Agent C W) → Drains log (runs_take p n a) a (run_task p n a)
  unfolding run_task runs_take
  run_task-Drains zero a = Drains-none log a a refl refl
  run_task-Drains (suc n) a =
      Drains-then log (wake_takes p a) (runs_take p n (wake p a)) a (wake p a) _ (wake-Drains a)
        (run_task-Drains n (wake p a))
