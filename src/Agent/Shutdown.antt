-- ===== src/Agent/Shutdown.antt =====
-- How `shutdown` ends.
use unified_runtime_primitiv.Base.{ℕ, suc, ◌≡◌, refl, subst, ap, true, Option, none, some}
use unified_runtime_primitiv.Data.{terminated}
use unified_runtime_primitiv.Exec.{Exception, Result, ok, raised, ⊤, continue}
use unified_runtime_primitiv.Agent.State.{
  Agent, Program, Task, created, polling, returned, failed, set_status,
}
use unified_runtime_primitiv.Agent.Events.{announcement, announce}
use unified_runtime_primitiv.Agent.Loop.{
  ended, begin_shutdown, end_shutdown, joined, await_then_end, shutdown,
}
use unified_runtime_primitiv.Agent.Frame.{Leaves, Respects, announce-Leaves}
use unified_runtime_primitiv.Agent.Edges.{LoopMoves}
use unified_runtime_primitiv.Agent.Coherence.{IsOver, IsCoherent, Leaves-IsCoherent}
use unified_runtime_primitiv.Agent.Waking.{await_task-stops}

ended-failed : (t : Option Task) (e : Exception) → ended t ≡ some (raised e) → t ≡ some (failed e)
ended-failed none e h = cc
ended-failed (some returned) e h = cc
ended-failed (some (failed x)) e h = cc
ended-failed (some created) e h = cc
ended-failed (some polling) e h = cc

module _ {C W : Type 0} where
  abbrev pub asked : Agent C W → Agent C W
  asked a = record a { shutdown_event = true }

module _ {C W : Type 0} (p : Program C W) where
  -- How `shutdown` from `a` ends, with result `r` and state `b`: the status is TERMINATED, and the
  -- loop is over; or the hook `_on_shutdown` raised, and the status stays; or the loop's task had
  -- been ended by an exception, which `shutdown` raises again.
  pub data Ending (a : Agent C W) (r : Result ⊤) (b : Agent C W) : Type 0 where
    terminates : b.state.status ≡ terminated → IsOver b.task → Ending a r b
    hook_raised :
        (e : Exception)
        → (p.on_shutdown (asked a)).0 ≡ raised e
        → r ≡ raised e
        → b.state.status ≡ a.state.status
        → Ending a r b
    loop_failed :
        (e : Exception)
        → b.task ≡ some (failed e)
        → r ≡ raised e
        → LoopMoves a.state.status b.state.status
        → Ending a r b

  pub record Shut (a : Agent C W) (outcome : Option (Result ⊤ × Agent C W)) : Type 0 where
    pub result : Result ⊤
    pub after : Agent C W
    pub returns : outcome ≡ some (result, after)
    pub coherent : IsCoherent after
    pub stopped : after.shutdown_event ≡ true
    pub ending : Ending a result after

module _ {C W : Type 0} (p : Program C W) (respects : Respects p) where
  end_shutdown-Shut :
      (a c : Agent C W) (r : Result ⊤)
      → IsCoherent c
      → IsOver c.task
      → c.shutdown_event ≡ true
      → ended c.task ≡ some r
      → LoopMoves a.state.status c.state.status
      → Shut p a (some (continue (r, c) (λ _. end_shutdown p)))
  unfolding end_shutdown
  end_shutdown-Shut a c (raised e) h over stop done moved = record {
    result = raised e;
    after = c;
    returns = refl;
    coherent = h;
    stopped = stop;
    ending = loop_failed e (ended-failed c.task e done) refl moved;
  }
  end_shutdown-Shut a c (ok _) h over stop done moved =
      let c' = set_status terminated c in
      let text = announcement "Agent has terminated successfully." in
      let l = (announce-Leaves p.runtime respects.runtime "AGENT_TERMINATED" text).at c' in
      let (r, b) = announce p.runtime "AGENT_TERMINATED" text c' in
      record {
        result = r;
        after = b;
        returns = refl;
        coherent = Leaves-IsCoherent c' b (record { counted = h.counted; fits = over }) l;
        stopped = l.grows.stops stop;
        ending = terminates l.same_status (rw l.grows.same_task over);
      }

  await_then_end-Shut :
      (n : ℕ) (a b : Agent C W) (r : Result ⊤)
      → p.on_shutdown (asked a) ≡ (r, b)
      → Leaves (asked a) b
      → IsCoherent a
      → Shut p a (await_then_end p (suc n) (r, b))
  unfolding await_then_end joined
  await_then_end-Shut n a b (raised e) called l h = record {
    result = raised e;
    after = b;
    returns = refl;
    coherent = Leaves-IsCoherent (asked a) b (record { counted = h.counted; fits = h.fits }) l;
    stopped = l.grows.stops refl;
    ending = hook_raised e (ap (λ (q : Result ⊤ × Agent C W). q.0) called) refl l.same_status;
  }
  await_then_end-Shut n a b (ok _) called l h =
      let b-IsCoherent =
        Leaves-IsCoherent (asked a) b (record { counted = h.counted; fits = h.fits }) l in
      let (r, c, joins, coherent, over, stop, done, moved) =
        await_task-stops p respects n b (l.grows.stops refl) b-IsCoherent in
      rw joins (
        end_shutdown-Shut a c r coherent over stop done
          (subst (λ s. LoopMoves s c.state.status) l.same_status moved))

  -- If the subclass and the bus respect the agent's fields (`Respects`): from a coherent state
  -- `shutdown` returns or raises once the loop's task may run one more time, and leaves a coherent
  -- state with the shutdown event set. Either the status is TERMINATED and no loop is running, or
  -- the hook `_on_shutdown` raised and the status is as before, or it raises the exception that had
  -- ended the loop.
  pub shutdown_ends : (n : ℕ) (a : Agent C W) → IsCoherent a → Shut p a (shutdown p (suc n) a)
  unfolding shutdown begin_shutdown
  shutdown_ends n a h =
      let (r, b) = p.on_shutdown (asked a) in
      await_then_end-Shut n a b r refl (respects.on_shutdown.at (asked a)) h
