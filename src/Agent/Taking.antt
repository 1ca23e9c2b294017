-- ===== src/Agent/Taking.antt =====
-- The messages that runs of the loop's task take from the mailbox.
use unified_runtime_primitiv.Base.{
  ℕ, zero, suc, ◌≡◌, refl, sym, ◌∙◌, ap, Bool, true, false, Option, none, some, Option-cases, inl,
  inr, List, [], ◌++◌, append-nil, arith,
}
use unified_runtime_primitiv.Data.{MessageEnvelope}
use unified_runtime_primitiv.Exec.{Result, ok, raised, ⊤}
use unified_runtime_primitiv.Agent.State.{Agent, Program, Task, created, polling, returned, failed}
use unified_runtime_primitiv.Agent.Loop.{
  loop_next, loop_test, settle, iteration, wake_at, wake, ended, await_task,
}
use unified_runtime_primitiv.Agent.Frame.{Respects}
use unified_runtime_primitiv.Agent.Rounds.{taken_after, iteration-Round}
use unified_runtime_primitiv.Agent.Coherence.{IsCoherent}

module _ {C W : Type 0} (p : Program C W) where
  abbrev pub takes_at : Option Task → Agent C W → List MessageEnvelope
  takes_at (some polling) a = taken_after (p.others a)
  takes_at _ a = []

  -- What one run takes: the message at the front once the other tasks have run, if the loop waits.
  abbrev pub wake_takes : Agent C W → List MessageEnvelope
  wake_takes a = takes_at a.task a

  unfoldable pub run_task : ℕ → Agent C W → Agent C W
  run_task zero a = a
  run_task (suc n) a = run_task n (wake p a)

  unfoldable pub runs_take : ℕ → Agent C W → List MessageEnvelope
  runs_take zero a = []
  runs_take (suc n) a = wake_takes a ++ runs_take n (wake p a)

module _ {C W : Type 0} where
  -- From `a` to `b` the messages `arrivals` have come in at the back, and `taken` left at the front.
  pub record Flow (taken : List MessageEnvelope) (a b : Agent C W) : Type 0 where
    pub arrivals : List MessageEnvelope
    pub flow : a.mailbox.items ++ arrivals ≡ taken ++ b.mailbox.items

  Flow-none : (a b : Agent C W) → b.mailbox ≡ a.mailbox → Flow [] a b
  Flow-none a b e = record { arrivals = []; flow = ground (arith, append-nil a.mailbox.items) }

  pub loop_test-mailbox : (b : Bool) (a : Agent C W) → (loop_next b a).mailbox ≡ a.mailbox
  unfolding loop_next
  loop_test-mailbox true a = refl
  loop_test-mailbox false a = refl

  pub settle-mailbox : (r : Result Bool) (a : Agent C W) → (settle (r, a)).mailbox ≡ a.mailbox
  unfolding settle loop_test
  settle-mailbox (ok true) a = loop_test-mailbox a.shutdown_event a
  settle-mailbox (ok false) a = refl
  settle-mailbox (raised e) a = refl

  pub loop_test-world : (b : Bool) (a : Agent C W) → (loop_next b a).world ≡ a.world
  unfolding loop_next
  loop_test-world true a = refl
  loop_test-world false a = refl

  pub settle-world : (r : Result Bool) (a : Agent C W) → (settle (r, a)).world ≡ a.world
  unfolding settle loop_test
  settle-world (ok true) a = loop_test-world a.shutdown_event a
  settle-world (ok false) a = refl
  settle-world (raised e) a = refl

module _ {C W : Type 0} (p : Program C W) (respects : Respects p) where
  wake_at-Flow :
      (t : Option Task) (a : Agent C W) → IsCoherent a → Flow (takes_at p t a) a (wake_at p t a)
  unfolding wake_at loop_test
  wake_at-Flow (some created) a h = Flow-none a _ (loop_test-mailbox a.shutdown_event a)
  wake_at-Flow (some polling) a h =
      let (r, b) = iteration p a in
      let round = iteration-Round p respects a h.counted in
      record {
        arrivals = round.arrivals;
        flow =
            round.flow ∙ ap (λ q. taken_after (p.others a) ++ q.items) (sym (settle-mailbox r b));
      }
  wake_at-Flow none a h = Flow-none a a refl
  wake_at-Flow (some returned) a h = Flow-none a a refl
  wake_at-Flow (some (failed e)) a h = Flow-none a a refl

  pub wake-Flow : (a : Agent C W) → IsCoherent a → Flow (wake_takes p a) a (wake p a)
  unfolding wake
  wake-Flow a h = wake_at-Flow a.task a h

module _ {C W : Type 0} (p : Program C W) where
  wake_at-ended :
      (t : Option Task) (a : Agent C W) (r : Result ⊤)
      → ended t ≡ some r
      → (wake_at p t a ≡ a) × (takes_at p t a ≡ [])
  unfolding wake_at
  wake_at-ended none a r e = (refl, refl)
  wake_at-ended (some returned) a r e = (refl, refl)
  wake_at-ended (some (failed x)) a r e = (refl, refl)
  wake_at-ended (some created) a r e = cc
  wake_at-ended (some polling) a r e = cc

  -- A task that has ended takes nothing more, and stays as it is.
  pub run_task-ended :
      (n : ℕ) (a : Agent C W) (r : Result ⊤)
      → ended a.task ≡ some r
      → (run_task p n a ≡ a) × (runs_take p n a ≡ [])
  unfolding run_task runs_take wake
  run_task-ended zero a r e = (refl, refl)
  run_task-ended (suc n) a r e =
      let (same, nothing) = wake_at-ended a.task a r e in
      let (later, nothing_later) = run_task-ended n a r e in
      rw (same, nothing) (later, nothing_later)

  -- If awaiting the task returns, the agent is as after that many runs.
  pub await_task-run_task :
      (n : ℕ) (a b : Agent C W) (r : Result ⊤) → await_task p n a ≡ some (r, b) → run_task p n a ≡ b
  unfolding await_task run_task
  await_task-run_task zero a b r e = ground arith
  await_task-run_task (suc n) a b r e = elim (Option-cases (ended a.task)) [
    | inr (x, h) ↦ (run_task-ended (suc n) a x h).0 ∙ (ground (arith, h, e))
    | inl h ↦ await_task-run_task n (wake p a) b r (rw (h, await_task) at e)
  ]
