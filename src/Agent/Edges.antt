-- ===== src/Agent/Edges.antt =====
-- The edges of the lifecycle's state machine, each with the operation that takes it. The lifecycle
-- document (.agents/architecture/lifecycle-and-state-machine.md) has `initialize`, `start`, the
-- run of the loop, and `shutdown` of a WAITING or PROCESSING agent; the others are the code's own.
use unified_runtime_primitiv.Base.{ℕ, ◌≡◌, ◌≢◌, refl, ◌⊎◌, inl, inr}
use unified_runtime_primitiv.Data.{
  AgentStatus, uninitialized, initialized, waiting, processing, terminated, AgentContext,
}
use unified_runtime_primitiv.Agent.Operations.{Operation}

-- A run of the loop that an exception ends leaves the status PROCESSING, also when it is the run
-- that a shutdown waits for. `stops_uninitialized` and `stops_initialized` are moves that the document
-- does not permit.
pub data Edge {C : Type 0} : Operation C → AgentStatus → AgentStatus → Type 0 where
  initializes :
      (context : AgentContext) (c : C)
      → Edge (Operation.initializes context c) uninitialized initialized
  starts : Edge Operation.starts initialized waiting
  receives : Edge Operation.wakes waiting processing
  stops_waiting : (n : ℕ) → Edge (Operation.shuts_down n) waiting terminated
  stops_processing : (n : ℕ) → Edge (Operation.shuts_down n) processing terminated
  stops_uninitialized : (n : ℕ) → Edge (Operation.shuts_down n) uninitialized terminated
  stops_initialized : (n : ℕ) → Edge (Operation.shuts_down n) initialized terminated
  fails : (n : ℕ) → Edge (Operation.shuts_down n) waiting processing

-- The status stays, or moves along one edge of the operation.
abbrev pub Moves : {C : Type 0} → Operation C → AgentStatus → AgentStatus → Type 0
Moves op s t = (t ≡ s) ⊎ Edge op s t

-- What a run of the loop does to the status.
abbrev pub LoopMoves : AgentStatus → AgentStatus → Type 0
LoopMoves s t = (t ≡ s) ⊎ ((s ≡ waiting) × (t ≡ processing))

pub LoopMoves-work :
    (s t : AgentStatus) → s ≡ waiting → (t ≡ waiting) ⊎ (t ≡ processing) → LoopMoves s t
LoopMoves-work s t e (inl f) = rw (e, f) (inl refl)
LoopMoves-work s t e (inr f) = inr (e, f)

pub wakes-Moves :
    {C : Type 0} (s t : AgentStatus) → LoopMoves s t → Moves {C = C} Operation.wakes s t
wakes-Moves s t (inl e) = inl e
wakes-Moves s t (inr (e, f)) = rw (e, f) (inr Edge.receives)

pub fails-Moves :
    {C : Type 0} (n : ℕ) (s t : AgentStatus)
    → LoopMoves s t
    → Moves {C = C} (Operation.shuts_down n) s t
fails-Moves n s t (inl e) = inl e
fails-Moves n s t (inr (e, f)) = rw (e, f) (inr (Edge.fails n))

-- A shutdown that ends in TERMINATED, of an agent that is not in ERROR.
pub stops-Moves :
    {C : Type 0} (n : ℕ) (s : AgentStatus)
    → s ≢ AgentStatus.error
    → Moves {C = C} (Operation.shuts_down n) s terminated
stops-Moves n uninitialized h = inr (Edge.stops_uninitialized n)
stops-Moves n initialized h = inr (Edge.stops_initialized n)
stops-Moves n waiting h = inr (Edge.stops_waiting n)
stops-Moves n processing h = inr (Edge.stops_processing n)
stops-Moves n AgentStatus.error h = absurd (h refl)
stops-Moves n terminated h = inl refl
