-- ===== src/Agent/Terminated.antt =====
-- Agents that have terminated.
use unified_runtime_primitiv.Base.{
  ◌≡◌, refl, ◌∙◌, subst, inl, inr, Option, none, some, List, [], ◌∷◌,
}
use unified_runtime_primitiv.Data.{AgentStatus, terminated, AgentContext, MessageEnvelope}
use unified_runtime_primitiv.Exec.{raised, runtime_error}
use unified_runtime_primitiv.Agent.State.{Agent, Program, Task, created, polling, returned, failed}
use unified_runtime_primitiv.Agent.Lifecycle.{
  send_at, send, send_refused, initialize_at, initialize, start_at, start, not_initialized,
  not_uninitialized,
}
use unified_runtime_primitiv.Agent.Loop.{wake_at, wake}
use unified_runtime_primitiv.Agent.Operations.{Operation, step, run}
use unified_runtime_primitiv.Agent.Frame.{Respects}
use unified_runtime_primitiv.Agent.Edges.{Edge, Moves}
use unified_runtime_primitiv.Agent.Coherence.{IsOver, Fits, IsCoherent}
use unified_runtime_primitiv.Agent.Stepping.{perform-Performed, run-IsCoherent}

Edge-terminated :
    {C : Type 0} {op : Operation C} {s t : AgentStatus}
    → Edge op s t
    → s ≡ terminated
    → t ≡ terminated
Edge-terminated (Edge.initializes context c) e = cc
Edge-terminated Edge.starts e = cc
Edge-terminated Edge.receives e = cc
Edge-terminated (Edge.fails n) e = cc
Edge-terminated _ e = refl

Moves-terminated :
    {C : Type 0} {op : Operation C} {s t : AgentStatus}
    → Moves op s t
    → s ≡ terminated
    → t ≡ terminated
Moves-terminated (inl e) h = e ∙ h
Moves-terminated (inr e) h = Edge-terminated e h

module _ {C W : Type 0} (p : Program C W) (respects : Respects p) where
  run-terminated :
      (ops : List (Operation C)) (a : Agent C W)
      → IsCoherent a
      → a.state.status ≡ terminated
      → (run p ops a).state.status ≡ terminated
  unfolding run step
  run-terminated [] a h e = e
  run-terminated (op ∷ ops) a h e =
      let done = perform-Performed p respects op a h in
      run-terminated ops (step p op a) done.coherent (Moves-terminated done.moved e)

  terminated_refuses :
      (s : AgentStatus) (a : Agent C W) (m : MessageEnvelope) (context : AgentContext) (c : C)
      → s ≡ terminated
      → (send_at s m a ≡ (raised (runtime_error send_refused), a))
        × (start_at p s a ≡ (raised (runtime_error (not_initialized terminated)), a))
        × (initialize_at p s context c a
            ≡ (raised (runtime_error (not_uninitialized terminated)), a))
  unfolding send_at start_at initialize_at
  terminated_refuses s a m context c e = rw e (refl, refl, refl)

  wake_at-over : (t : Option Task) (a : Agent C W) → IsOver t → wake_at p t a ≡ a
  unfolding wake_at
  wake_at-over none a h = refl
  wake_at-over (some returned) a h = refl
  wake_at-over (some (failed e)) a h = refl
  wake_at-over (some created) a h = absurd h
  wake_at-over (some polling) a h = absurd h

  -- If the subclass and the bus respect the agent's fields (`Respects`): a coherent agent that has
  -- terminated stays terminated under any schedule of operations. From then on `send`, `start` and
  -- `initialize` raise and change nothing, and the loop does nothing more.
  pub terminated_absorbs :
      (ops : List (Operation C)) (a : Agent C W) (m : MessageEnvelope) (context : AgentContext)
      (c : C)
      → IsCoherent a
      → a.state.status ≡ terminated
      → let b = run p ops a in
        (b.state.status ≡ terminated)
        × (send m b ≡ (raised (runtime_error send_refused), b))
        × (start p b ≡ (raised (runtime_error (not_initialized terminated)), b))
        × (initialize p context c b ≡ (raised (runtime_error (not_uninitialized terminated)), b))
        × (wake p b ≡ b)
  unfolding send start initialize wake
  terminated_absorbs ops a m context c h e =
      let b = run p ops a in
      let dead = run-terminated ops a h e in
      let (no_send, no_start, no_initialize) =
        terminated_refuses b.state.status b m context c dead in
      let fits = (run-IsCoherent p respects ops a h).fits in
      (
        dead,
        no_send,
        no_start,
        no_initialize,
        wake_at-over b.task b (subst (λ s. Fits s b.task b.state.last_process_result) dead fits),
      )
