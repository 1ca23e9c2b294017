-- ===== src/Agent/Waking.antt =====
-- The invariant under one run of the loop's task, and the end of the task once a shutdown was asked
-- for.
use unified_runtime_primitiv.Base.{
  ℕ, zero, suc, ◌≡◌, refl, sym, ◌∙◌, ◌≢◌, ◌⊎◌, inl, inr, Bool, true, false, Option, none, some,
  arith, Option-cases, false≢true,
}
use unified_runtime_primitiv.Data.{
  AgentStatus, uninitialized, initialized, waiting, processing, error, terminated, ProcessResult,
}
use unified_runtime_primitiv.Exec.{Result, ok, raised, ⊤}
use unified_runtime_primitiv.Agent.State.{
  Agent, Program, Task, created, polling, returned, failed, set_task,
}
use unified_runtime_primitiv.Agent.Loop.{
  loop_next, loop_test, settle, iteration, wake_at, wake, ended, await_task,
}
use unified_runtime_primitiv.Agent.Frame.{Respects}
use unified_runtime_primitiv.Agent.Work.{IsCounted}
use unified_runtime_primitiv.Agent.Rounds.{iteration-Round}
use unified_runtime_primitiv.Agent.Edges.{LoopMoves, LoopMoves-work}
use unified_runtime_primitiv.Agent.Coherence.{IsOver, Fits, IsCoherent}

-- A task that has not ended goes with WAITING.
Fits-live :
    (s : AgentStatus) (t : Option Task) (r : Option ProcessResult)
    → Fits s t r
    → ended t ≡ none
    → (s ≡ waiting) × (r ≢ none)
Fits-live uninitialized t r h e = ground arith
Fits-live initialized t r h e = ground arith
Fits-live waiting t r h e = (refl, h.1)
Fits-live processing t r h e = ground arith
Fits-live error t r h e = absurd h
Fits-live terminated t r h e = ground arith

pub ended-IsOver : (t : Option Task) (r : Result ⊤) → ended t ≡ some r → IsOver t
ended-IsOver t r e = ground arith

pub IsOver-ended : (t : Option Task) → IsOver t → (r : Result ⊤) × (ended t ≡ some r)
IsOver-ended none h = (ok tt, refl)
IsOver-ended (some returned) h = (ok tt, refl)
IsOver-ended (some (failed e)) h = (raised e, refl)
IsOver-ended (some created) h = absurd h
IsOver-ended (some polling) h = absurd h

Fits-ended :
    (s : AgentStatus) (t : Task) (r : Option ProcessResult)
    → r ≢ none
    → (s ≡ waiting) ⊎ (s ≡ processing)
    → IsOver (some t)
    → Fits s (some t) r
Fits-ended s t r h (inl e) over = rw e (λ x. cc, h)
Fits-ended s t r h (inr e) over = rw e (λ x. cc, over, h)

module _ {C W : Type 0} where
  -- In the midst of a run that began with the shutdown event at `stop` and
  -- the status at `from`.
  record Running (stop : Bool) (from : AgentStatus) (a : Agent C W) : Type 0 where
    began : from ≡ waiting
    counted : IsCounted a
    recorded : a.state.last_process_result ≢ none
    at_work : (a.state.status ≡ waiting) ⊎ (a.state.status ≡ processing)
    stopping : stop ≡ true → a.shutdown_event ≡ true

  -- What such a run leaves.
  pub record Woken (stop : Bool) (from : AgentStatus) (b : Agent C W) : Type 0 where
    pub moved : LoopMoves from b.state.status
    pub coherent : IsCoherent b
    pub over : stop ≡ true → IsOver b.task
    pub stopped : stop ≡ true → b.shutdown_event ≡ true

  ended-Woken :
      {stop : Bool} {from : AgentStatus} (a : Agent C W) (t : Task)
      → Running stop from a
      → IsOver (some t)
      → Woken stop from (set_task t a)
  ended-Woken {from} a t h over = record {
    moved = LoopMoves-work from a.state.status h.began h.at_work;
    coherent = record {
      counted = h.counted;
      fits = Fits-ended a.state.status t _ h.recorded h.at_work over;
    };
    over = λ _. over;
    stopped = h.stopping;
  }

  loop_next-Woken :
      (stop b : Bool) (from : AgentStatus) (a : Agent C W)
      → a.shutdown_event ≡ b
      → Running stop from a
      → Woken stop from (loop_next b a)
  unfolding loop_next
  loop_next-Woken stop true from a e h = ended-Woken a returned h tt
  loop_next-Woken stop false from a e h = record {
    moved = inl (sym h.began);
    coherent = record { counted = h.counted; fits = (λ x. cc, h.recorded) };
    over = λ s. absurd (false≢true (sym e ∙ h.stopping s));
    stopped = h.stopping;
  }

  settle-Woken :
      (stop : Bool) (from : AgentStatus) (r : Result Bool) (a : Agent C W)
      → Running stop from a
      → Woken stop from (settle (r, a))
  unfolding settle loop_test
  settle-Woken stop from (ok true) a h = loop_next-Woken stop a.shutdown_event from a refl h
  settle-Woken stop from (ok false) a h = ended-Woken a returned h tt
  settle-Woken stop from (raised e) a h = ended-Woken a (failed e) h tt

module _ {C W : Type 0} (p : Program C W) (respects : Respects p) where
  wake_at-Woken :
      (t : Option Task) (a : Agent C W)
      → a.task ≡ t
      → IsCoherent a
      → Woken a.shutdown_event a.state.status (wake_at p t a)
  unfolding wake_at loop_test
  wake_at-Woken (some created) a e h =
      let (waits, recorded) = Fits-live a.state.status a.task _ h.fits (rw e) in
      loop_next-Woken a.shutdown_event a.shutdown_event a.state.status a refl (record {
        began = waits;
        counted = h.counted;
        recorded = recorded;
        at_work = inl waits;
        stopping = λ s. s;
      })
  wake_at-Woken (some polling) a e h =
      let (waits, recorded) = Fits-live a.state.status a.task _ h.fits (rw e) in
      let (r, b) = iteration p a in
      let round = iteration-Round p respects a h.counted in
      settle-Woken a.shutdown_event a.state.status r b (record {
        began = waits;
        counted = round.counted;
        recorded = round.recorded recorded;
        at_work = ground (arith, round.worked, waits);
        stopping = round.stops;
      })
  wake_at-Woken none a e h = record {
    moved = inl refl;
    coherent = h;
    over = λ s. rw e tt;
    stopped = λ s. s;
  }
  wake_at-Woken (some returned) a e h = record {
    moved = inl refl;
    coherent = h;
    over = λ s. rw e tt;
    stopped = λ s. s;
  }
  wake_at-Woken (some (failed x)) a e h = record {
    moved = inl refl;
    coherent = h;
    over = λ s. rw e tt;
    stopped = λ s. s;
  }

  pub wake-Woken : (a : Agent C W) → IsCoherent a → Woken a.shutdown_event a.state.status (wake p a)
  unfolding wake
  wake-Woken a = wake_at-Woken a.task a refl

  await_task-ended :
      (n : ℕ) (a : Agent C W) (r : Result ⊤)
      → ended a.task ≡ some r
      → await_task p n a ≡ some (r, a)
  unfolding await_task
  await_task-ended zero a r e = ground arith
  await_task-ended (suc n) a r e = ground arith

  -- A stopped loop has ended after one more run at most.
  pub await_task-stops :
      (n : ℕ) (a : Agent C W)
      → a.shutdown_event ≡ true
      → IsCoherent a
      → (r : Result ⊤) × (b : Agent C W) × (await_task p (suc n) a ≡ some (r, b))
        × IsCoherent b
        × IsOver b.task
        × (b.shutdown_event ≡ true)
        × (ended b.task ≡ some r)
        × LoopMoves a.state.status b.state.status
  unfolding await_task
  await_task-stops n a stop h = elim (Option-cases (ended a.task)) [
    | inr (r, e) ↦
        (r, a, await_task-ended (suc n) a r e, h, ended-IsOver a.task r e, stop, e, inl refl)
    | inl e ↦
        let b = wake p a in
        let w : Woken a.shutdown_event a.state.status b = wake-Woken a h in
        let (r, done) = IsOver-ended b.task (w.over stop) in
        (
          r,
          b,
          rw (e, await_task) (await_task-ended n b r done),
          w.coherent,
          w.over stop,
          w.stopped stop,
          done,
          w.moved,
        )
  ]
