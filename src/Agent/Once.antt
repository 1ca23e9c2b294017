-- ===== src/Agent/Once.antt =====
-- How often an agent is initialized and started.
use unified_runtime_primitiv.Base.{
  ℕ, ◌+◌, ◌≤◌, ◌≡◌, refl, ◌∙◌, ap, inl, inr, String, Bool, true, false, some, List, [], ◌∷◌, arith,
}
use unified_runtime_primitiv.Data.{
  AgentStatus, uninitialized, initialized, waiting, AgentContext, AgentDescriptor,
}
use unified_runtime_primitiv.Exec.{Result, ok, raised, Exception, ⊤, raise, continue, modify}
use unified_runtime_primitiv.Agent.State.{
  Agent, Program, created, set_status, set_task, set_result, new,
}
use unified_runtime_primitiv.Agent.Events.{announce}
use unified_runtime_primitiv.Agent.Lifecycle.{
  set_callback, initialize_at, initialize, start_checked, start_at, start, idle_result,
  started_payload, refusal_payload, start_refused,
}
use unified_runtime_primitiv.Agent.Operations.{Operation, initializes, starts, perform, step}
use unified_runtime_primitiv.Agent.Frame.{Respects, announce-Leaves}
use unified_runtime_primitiv.Agent.Edges.{Edge, Moves}
use unified_runtime_primitiv.Agent.Coherence.{IsCoherent, new-IsCoherent}
use unified_runtime_primitiv.Agent.Stepping.{perform-Performed, checked-Moves}

-- How often an agent may still be initialized, and started.
abbrev initializations_left : AgentStatus → ℕ
initializations_left uninitialized = 1
initializations_left _ = 0

abbrev starts_left : AgentStatus → ℕ
starts_left uninitialized = 1
starts_left initialized = 1
starts_left _ = 0

Edge-left :
    {C : Type 0} {op : Operation C} {s t : AgentStatus}
    → Edge op s t
    → (initializations_left t ≤ initializations_left s) × (starts_left t ≤ starts_left s)
Edge-left (Edge.initializes context c) = omega arith
Edge-left Edge.starts = omega arith
Edge-left Edge.receives = omega arith
Edge-left (Edge.stops_waiting n) = omega arith
Edge-left (Edge.stops_processing n) = omega arith
Edge-left (Edge.stops_uninitialized n) = omega arith
Edge-left (Edge.stops_initialized n) = omega arith
Edge-left (Edge.fails n) = omega arith

Moves-left :
    {C : Type 0} (op : Operation C) (s t : AgentStatus)
    → Moves op s t
    → (initializations_left t ≤ initializations_left s) × (starts_left t ≤ starts_left s)
Moves-left op s t (inl e) = rw e (omega arith)
Moves-left op s t (inr e) = Edge-left e

module _ {C W : Type 0} where
  abbrev one_if_ok : Result ⊤ × Agent C W → ℕ
  one_if_ok (ok _, b) = 1
  one_if_ok (raised e, b) = 0

module _ {C W : Type 0} (p : Program C W) where
  -- Whether the operation is a call of `initialize` that returns, and one of `start`.
  abbrev pub initialized_by : Operation C → Agent C W → ℕ
  initialized_by (initializes context c) a = one_if_ok (initialize p context c a)
  initialized_by _ a = 0

  abbrev pub started_by : Operation C → Agent C W → ℕ
  started_by starts a = one_if_ok (start p a)
  started_by _ a = 0

  -- How many calls of a schedule do so.
  unfoldable pub initializations : List (Operation C) → Agent C W → ℕ
  initializations [] a = 0
  initializations (op ∷ ops) a = initialized_by op a + initializations ops (step p op a)

  unfoldable pub successful_starts : List (Operation C) → Agent C W → ℕ
  successful_starts [] a = 0
  successful_starts (op ∷ ops) a = started_by op a + successful_starts ops (step p op a)

module _ {C W : Type 0} (p : Program C W) (respects : Respects p) where
  initialized-left :
      (r : Result ⊤) (b : Agent C W)
      → b.state.status ≡ uninitialized
      → let q = continue (r, b) (λ _. modify (set_status initialized)) in
        one_if_ok q + initializations_left q.1.state.status ≤ 1
  initialized-left (ok _) b e = omega arith
  initialized-left (raised x) b e = rw e (omega arith)

  initialize_at-left :
      (s : AgentStatus) (context : AgentContext) (c : C) (a : Agent C W)
      → a.state.status ≡ s
      → let q = initialize_at p s context c a in
        one_if_ok q + initializations_left q.1.state.status ≤ initializations_left s
  unfolding initialize_at set_callback
  initialize_at-left uninitialized context c a e =
      let a' = record a { context = some context; emit_callback = some c } in
      let (r, b) = p.on_initialize context a' in
      initialized-left r b (((respects.on_initialize context).at a').same_status ∙ e)
  initialize_at-left _ context c a e = rw e (omega arith)

  refused-left :
      (q : Result ⊤ × Agent C W) (x : Exception) → one_if_ok (continue q (λ _. raise {A = ⊤} x)) ≡ 0
  refused-left (ok _, b) x = refl
  refused-left (raised y, b) x = refl

  announced-left :
      (q : Result ⊤ × Agent C W)
      → q.1.state.status ≡ waiting
      → one_if_ok q + starts_left q.1.state.status ≤ 1
  announced-left (ok _, b) e = rw e (omega arith)
  announced-left (raised y, b) e = rw e (omega arith)

  checked-left :
      (r : Result (Bool × String)) (a b : Agent C W)
      → a.state.status ≡ initialized
      → b.state.status ≡ a.state.status
      → let q = continue (r, b) (start_checked p) in one_if_ok q + starts_left q.1.state.status ≤ 1
  unfolding start_checked
  checked-left (raised x) a b e f = rw (f, e) (omega arith)
  checked-left (ok (true, t)) a b e f =
      let b' = set_task created (set_result idle_result (set_status waiting b)) in
      let payload = started_payload b.state.session_id in
      announced-left (announce p.runtime "AGENT_STARTED" payload b')
        ((announce-Leaves p.runtime respects.runtime "AGENT_STARTED" payload).at b').same_status
  checked-left (ok (false, t)) a b e f =
      let q = announce p.runtime "AGENT_START_PRECONDITIONS_VIOLATED" (refusal_payload t) b in
      let moved = checked-Moves p respects (ok (false, t)) a b e f in
      omega
        (arith, refused-left q (start_refused t), (Moves-left starts _ _ moved).1, ap starts_left e)

  start_at-left :
      (s : AgentStatus) (a : Agent C W)
      → a.state.status ≡ s
      → let q = start_at p s a in one_if_ok q + starts_left q.1.state.status ≤ starts_left s
  unfolding start_at
  start_at-left initialized a e =
      let (r, b) = p.check_start_preconditions a in
      checked-left r a b e (respects.check_start_preconditions.at a).same_status
  start_at-left _ a e = rw e (omega arith)

  step-left :
      (op : Operation C) (a : Agent C W)
      → IsCoherent a
      → (initialized_by p op a + initializations_left (step p op a).state.status
          ≤ initializations_left a.state.status)
        × (started_by p op a + starts_left (step p op a).state.status ≤ starts_left a.state.status)
  unfolding step
  step-left (initializes context c) a h =
      let m = (perform-Performed p respects (initializes context c) a h).moved in
      (
        unfold perform initialize in initialize_at-left a.state.status context c a refl,
        omega (arith, (Moves-left (initializes context c) _ _ m).1),
      )
  step-left starts a h =
      let m = (perform-Performed p respects starts a h).moved in
      (
        omega (arith, (Moves-left starts _ _ m).0),
        unfold perform start in start_at-left a.state.status a refl,
      )
  step-left op a h =
      let m = (perform-Performed p respects op a h).moved in
      (omega (arith, (Moves-left op _ _ m).0), omega (arith, (Moves-left op _ _ m).1))

  run-left :
      (ops : List (Operation C)) (a : Agent C W)
      → IsCoherent a
      → (initializations p ops a ≤ initializations_left a.state.status)
        × (successful_starts p ops a ≤ starts_left a.state.status)
  unfolding initializations successful_starts
  run-left [] a h = (omega arith, omega arith)
  run-left (op ∷ ops) a h =
      let next = (perform-Performed p respects op a h).coherent in
      let (i, s) = step-left op a h in
      let (is, ss) = run-left ops (step p op a) (unfold step in next) in (omega arith, omega arith)

  -- If the subclass and the bus respect the agent's fields (`Respects`): in any schedule of
  -- operations on a new agent at most one call of `initialize` returns, and at most one call of
  -- `start`.
  pub launched_once :
      (ops : List (Operation C)) (d : AgentDescriptor) (w : W)
      → (initializations p ops (new p d w) ≤ 1) × (successful_starts p ops (new p d w) ≤ 1)
  unfolding new
  launched_once ops d w = unfold new in run-left ops (new p d w) (new-IsCoherent p d w)
