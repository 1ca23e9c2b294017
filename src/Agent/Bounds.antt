-- ===== src/Agent/Bounds.antt =====
-- How many messages are taken.
use unified_runtime_primitiv.Base.{
  ℕ, suc, ◌+◌, ap, ◌≤◌, ◌≡◌, refl, true, Option, none, some, List, [], ◌∷◌, append-nil, length,
  length-append, arith,
}
use unified_runtime_primitiv.Data.{MessageEnvelope, AgentDescriptor}
use unified_runtime_primitiv.Exec.{Result, ok, raised, ⊤}
use unified_runtime_primitiv.Agent.State.{
  Agent, Program, Task, created, polling, returned, failed, new,
}
use unified_runtime_primitiv.Agent.Loop.{wake, begin_shutdown}
use unified_runtime_primitiv.Agent.Operations.{
  Operation, initializes, rebinds, starts, sends, wakes, shuts_down, step, run,
}
use unified_runtime_primitiv.Agent.Frame.{Respects}
use unified_runtime_primitiv.Agent.Rounds.{front, taken_after}
use unified_runtime_primitiv.Agent.Coherence.{IsCoherent, new-IsCoherent}
use unified_runtime_primitiv.Agent.Waking.{wake-Woken, IsOver-ended}
use unified_runtime_primitiv.Agent.Stepping.{perform-Performed}
use unified_runtime_primitiv.Agent.Taking.{takes_at, wake_takes, runs_take, run_task-ended}
use unified_runtime_primitiv.Agent.Shutdown.{asked}
use unified_runtime_primitiv.Agent.Order.{
  takes, takes_then, all_taken, all_come, run-new-order, begin_shutdown-IsCoherent,
}
use unified_runtime_primitiv.Agent.Queues.{Logs}

front-le-one : (ms : List MessageEnvelope) → length (front ms) ≤ 1
front-le-one [] = omega arith
front-le-one (m ∷ ms) = omega arith

-- The calls of `shutdown` in a schedule, and its runs of the loop's task.
unfoldable pub runs_in : {C : Type 0} → List (Operation C) → ℕ
runs_in [] = 0
runs_in (wakes ∷ ops) = suc (runs_in ops)
runs_in (shuts_down n ∷ ops) = suc (runs_in ops)
runs_in (op ∷ ops) = runs_in ops

module _ {C W : Type 0} where
  taken_after-le-one : (q : Result ⊤ × Agent C W) → length (taken_after q) ≤ 1
  taken_after-le-one (ok _, b) = front-le-one b.mailbox.items
  taken_after-le-one (raised e, b) = omega arith

module _ {C W : Type 0} (p : Program C W) where
  takes_at-le-one : (t : Option Task) (a : Agent C W) → length (takes_at p t a) ≤ 1
  takes_at-le-one none a = omega arith
  takes_at-le-one (some created) a = omega arith
  takes_at-le-one (some polling) a = taken_after-le-one (p.others a)
  takes_at-le-one (some returned) a = omega arith
  takes_at-le-one (some (failed e)) a = omega arith

module _ {C W : Type 0} (p : Program C W) (respects : Respects p) where
  -- With the shutdown event set the first run is the last.
  stopped-le-one :
      (n : ℕ) (b : Agent C W)
      → IsCoherent b
      → b.shutdown_event ≡ true
      → length (runs_take p (suc n) b) ≤ 1
  unfolding runs_take
  stopped-le-one n b h stop =
      let (r, e) = IsOver-ended (wake p b).task ((wake-Woken p respects b h).over stop) in
      let first = takes_at-le-one p b.task b in
      rw ((run_task-ended p n (wake p b) r e).1, append-nil (wake_takes p b)) first

  begun-le-one :
      (n : ℕ) (r : Result ⊤) (b : Agent C W)
      → IsCoherent b
      → b.shutdown_event ≡ true
      → length (takes_then p (suc n) (r, b)) ≤ 1
  begun-le-one n (ok _) b h stop = stopped-le-one n b h stop
  begun-le-one n (raised e) b h stop = omega arith

  begin_shutdown-event : (a : Agent C W) → (begin_shutdown p a).1.shutdown_event ≡ true
  unfolding begin_shutdown
  begin_shutdown-event a = (respects.on_shutdown.at (asked a)).grows.stops refl

  shuts_down-le-one : (n : ℕ) (a : Agent C W) → IsCoherent a → length (takes p (shuts_down n) a) ≤ 1
  shuts_down-le-one n a h =
      let (r, b) = begin_shutdown p a in
      begun-le-one n r b (begin_shutdown-IsCoherent p respects a h) (begin_shutdown-event a)

  all_taken-le :
      (ops : List (Operation C)) (a : Agent C W)
      → IsCoherent a
      → length (all_taken p ops a) ≤ runs_in ops
  unfolding all_taken runs_in step
  all_taken-le [] a h = omega arith
  all_taken-le (wakes ∷ ops) a h = omega (
    arith,
    length-append (wake_takes p a) (all_taken p ops (step p wakes a)),
    takes_at-le-one p a.task a,
    all_taken-le ops (step p wakes a) (perform-Performed p respects wakes a h).coherent,
  )
  all_taken-le (shuts_down n ∷ ops) a h = omega (
    arith,
    length-append (takes p (shuts_down n) a) (all_taken p ops (step p (shuts_down n) a)),
    shuts_down-le-one n a h,
    all_taken-le ops (step p (shuts_down n) a)
        (perform-Performed p respects (shuts_down n) a h).coherent,
  )
  all_taken-le (initializes context c ∷ ops) a h =
      all_taken-le ops _ (perform-Performed p respects (initializes context c) a h).coherent
  all_taken-le (rebinds c ∷ ops) a h =
      all_taken-le ops _ (perform-Performed p respects (rebinds c) a h).coherent
  all_taken-le (starts ∷ ops) a h =
      all_taken-le ops _ (perform-Performed p respects starts a h).coherent
  all_taken-le (sends m ∷ ops) a h =
      all_taken-le ops _ (perform-Performed p respects (sends m) a h).coherent

-- With a log of what the hooks, the callbacks and the other tasks send to the agent.
module _ {C W : Type 0} (log : W → List MessageEnvelope) (p : Program C W) (respects : Respects p)
    (logs : Logs log p) where
  -- If the subclass and the bus respect the agent's fields (`Respects`), and the world logs what
  -- they and the other tasks send to the agent (`Logs`): of the messages that come in a schedule on
  -- a new agent, all still wait in the mailbox but at most one for each run of the loop's task and
  -- at most one for each whole `shutdown`, however many runs it may wait for.
  pub taken_bound :
      (ops : List (Operation C)) (d : AgentDescriptor) (w : W)
      → let a = new p d w in
        length (all_come log p ops a) ≤ runs_in ops + length (run p ops a).mailbox.items
  taken_bound ops d w =
      let a = new p d w in
      omega (
        arith,
        ap length (run-new-order log p respects logs ops d w),
        length-append (all_taken p ops a) (run p ops a).mailbox.items,
        all_taken-le p respects ops a (new-IsCoherent p d w),
      )
