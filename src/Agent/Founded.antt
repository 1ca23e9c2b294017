-- ===== src/Agent/Founded.antt =====
-- What holds of the world whenever an agent is in use, since its initialisation established it.
use unified_runtime_primitiv.Base.{
  ◌≡◌, refl, sym, subst, ◌∙◌, ap, ◌⊎◌, inl, inr, ℕ, suc, Option, none, some, List, [], ◌∷◌,
}
use unified_runtime_primitiv.Data.{
  AgentStatus, uninitialized, initialized, terminated, AgentContext, MessageEnvelope,
  AgentDescriptor,
}
use unified_runtime_primitiv.Exec.{Result, ok, raised, ⊤, modify, continue}
use unified_runtime_primitiv.Agent.State.{
  Agent, Program, Task, created, polling, returned, failed, set_status, new,
}
use unified_runtime_primitiv.Agent.Lifecycle.{
  set_callback, send_at, send, initialize_at, initialize, start_at, start,
}
use unified_runtime_primitiv.Agent.Loop.{wake_at, wake, shutdown}
use unified_runtime_primitiv.Agent.Operations.{
  Operation, initializes, rebinds, starts, sends, wakes, shuts_down, perform, after, step, run,
}
use unified_runtime_primitiv.Agent.Frame.{Respects}
use unified_runtime_primitiv.Agent.Coherence.{IsOver, IsCoherent, Fits, new-IsCoherent}
use unified_runtime_primitiv.Agent.Shutdown.{
  Ending, terminates, hook_raised, loop_failed, shutdown_ends,
}
use unified_runtime_primitiv.Agent.Stepping.{perform-Performed}
use unified_runtime_primitiv.Agent.Founding.{IsSaved, start_at-Saves, wake-Saves, shutdown-Saves}

-- Initialised, and not yet terminated.
abbrev pub IsUp : AgentStatus → Type 0
IsUp uninitialized = ⊥
IsUp terminated = ⊥
IsUp _ = Unit

-- `_on_initialize` establishes `P` when it returns, and nothing else ends it.
pub record Founds {C W : Type 0} (p : Program C W) (P : W → Type 0) : Type 0 where
  pub saved : IsSaved p P
  pub founds :
      (context : AgentContext) (a : Agent C W)
      → (p.on_initialize context a).0 ≡ ok tt
      → P (p.on_initialize context a).1.world

abbrev IsFounded : {C W : Type 0} → (W → Type 0) → Agent C W → Type 0
IsFounded P a = IsUp a.state.status → P a.world

module _ {C W : Type 0} (P : W → Type 0) where
  send_at-IsFounded :
      (s : AgentStatus) (m : MessageEnvelope) (a : Agent C W)
      → IsFounded P a
      → IsFounded P (send_at s m a).1
  unfolding send_at
  send_at-IsFounded terminated m a h = h
  send_at-IsFounded _ m a h = h

  hooked-IsFounded :
      (q : Result ⊤ × Agent C W)
      → (q.0 ≡ ok tt → P q.1.world)
      → q.1.state.status ≡ uninitialized
      → IsFounded P (continue q (λ _. modify (set_status initialized))).1
  hooked-IsFounded (ok _, b) h e up = h refl
  hooked-IsFounded (raised x, b) h e up = absurd (subst IsUp e up)

module _ {C W : Type 0} (p : Program C W) where
  over_sleeps : (t : Option Task) (a : Agent C W) → IsOver t → wake_at p t a ≡ a
  unfolding wake_at
  over_sleeps none a h = refl
  over_sleeps (some created) a h = absurd h
  over_sleeps (some polling) a h = absurd h
  over_sleeps (some returned) a h = refl
  over_sleeps (some (failed e)) a h = refl

  -- A run of an agent that is not up does nothing.
  sleeps_unless_in_use :
      (s : AgentStatus) (a : Agent C W)
      → Fits s a.task a.state.last_process_result
      → IsUp s ⊎ (wake p a ≡ a)
  unfolding wake wake_at
  sleeps_unless_in_use uninitialized a h = inr (rw h refl)
  sleeps_unless_in_use terminated a h = inr (over_sleeps a.task a h)
  sleeps_unless_in_use _ a h = inl tt

module _ {C W : Type 0} (p : Program C W) (respects : Respects p) (P : W → Type 0)
    (founds : Founds p P) where
  initialize_at-IsFounded :
      (s : AgentStatus) (context : AgentContext) (c : C) (a : Agent C W)
      → a.state.status ≡ s
      → IsFounded P a
      → IsFounded P (initialize_at p s context c a).1
  unfolding initialize_at set_callback
  initialize_at-IsFounded uninitialized context c a e h =
      let b = record a { context = some context; emit_callback = some c } in
      hooked-IsFounded P (p.on_initialize context b) (founds.founds context b)
        (((respects.on_initialize context).at b).same_status ∙ e)
  initialize_at-IsFounded _ context c a e h = h

  start_at-IsFounded :
      (s : AgentStatus) (a : Agent C W)
      → a.state.status ≡ s
      → IsFounded P a
      → IsFounded P (start_at p s a).1
  unfolding start_at
  start_at-IsFounded initialized a e h up =
      (start_at-Saves p P founds.saved initialized).at a (h (subst IsUp (sym e) tt))
  start_at-IsFounded _ a e h up = h up

  wake-IsFounded : (a : Agent C W) → IsCoherent a → IsFounded P a → IsFounded P (wake p a)
  wake-IsFounded a k h up = elim (sleeps_unless_in_use p a.state.status a k.fits) [
    | inl was_up ↦ wake-Saves p P founds.saved a (h was_up)
    | inr same ↦ subst (IsFounded P) (sym same) h up
  ]

  -- An agent that is up after a shutdown was up before it.
  Ending-IsUp :
      (a b : Agent C W) (r : Result ⊤)
      → Ending p a r b
      → IsCoherent b
      → IsUp b.state.status
      → IsUp a.state.status
  Ending-IsUp a b r (terminates e over) k up = absurd (subst IsUp e up)
  Ending-IsUp a b r (hook_raised e called is_raised same) k up = subst IsUp same up
  Ending-IsUp a b r (loop_failed e task is_raised (inl same)) k up = subst IsUp same up
  Ending-IsUp a b r (loop_failed e task is_raised (inr (was_waiting, _))) k up =
      subst IsUp (sym was_waiting) tt

  shutdown-IsFounded :
      (n : ℕ) (a : Agent C W)
      → IsCoherent a
      → IsFounded P a
      → IsFounded P (after p a (shutdown p (suc n) a))
  shutdown-IsFounded n a k h up =
      let s = shutdown_ends p respects n a k in
      let e : after p a (shutdown p (suc n) a) ≡ s.after = ap (after p a) s.returns in
      let was_up =
        Ending-IsUp a s.after s.result s.ending s.coherent
          (subst (λ (x : Agent C W). IsUp x.state.status) e up) in
      shutdown-Saves p P founds.saved (suc n) a (h was_up)

  step-IsFounded :
      (op : Operation C) (a : Agent C W) → IsCoherent a → IsFounded P a → IsFounded P (step p op a)
  unfolding step perform initialize start send set_callback
  step-IsFounded (initializes context c) a k h =
      initialize_at-IsFounded a.state.status context c a refl h
  step-IsFounded (rebinds c) a k h = h
  step-IsFounded starts a k h = start_at-IsFounded a.state.status a refl h
  step-IsFounded (sends m) a k h = send_at-IsFounded P a.state.status m a h
  step-IsFounded wakes a k h = wake-IsFounded a k h
  step-IsFounded (shuts_down n) a k h = shutdown-IsFounded n a k h

  run-IsFounded :
      (ops : List (Operation C)) (a : Agent C W)
      → IsCoherent a
      → IsFounded P a
      → IsFounded P (run p ops a)
  unfolding run
  run-IsFounded [] a k h = h
  run-IsFounded (op ∷ ops) a k h =
      run-IsFounded ops (step p op a)
        (unfold step in (perform-Performed p respects op a k).coherent) (step-IsFounded op a k h)

  -- If the subclass and the bus respect the agent's fields (`Respects`), and `_on_initialize`
  -- establishes a property of the subclass's own fields which the other hooks and the bus leave
  -- (`Founds`): after any schedule of operations on a new agent the property holds whenever the
  -- status is neither UNINITIALIZED nor TERMINATED.
  pub run-new-founded :
      (ops : List (Operation C)) (d : AgentDescriptor) (w : W)
      → IsUp (run p ops (new p d w)).state.status
      → P (run p ops (new p d w)).world
  run-new-founded ops d w =
      run-IsFounded ops (new p d w) (new-IsCoherent p d w) (unfold new in (λ h. absurd h))
