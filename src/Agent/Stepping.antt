-- ===== src/Agent/Stepping.antt =====
-- Single operations and schedules: their end, the invariant and the moves of the status.
use unified_runtime_primitiv.Base.{
  ℕ, ◌≡◌, refl, ◌∙◌, inl, inr, String, Bool, true, false, Option, none, some, List, [], ◌∷◌, ◌≢◌,
}
use unified_runtime_primitiv.Data.{
  AgentStatus, uninitialized, initialized, waiting, error, terminated, AgentContext,
  MessageEnvelope, AgentDescriptor, ProcessResult,
}
use unified_runtime_primitiv.Exec.{Result, ok, raised, ⊤, continue, modify}
use unified_runtime_primitiv.Exec.Keeps.{Keeps-bind, Keeps-raise}
use unified_runtime_primitiv.Agent.State.{
  Agent, Program, Task, created, set_status, set_result, set_task, new,
}
use unified_runtime_primitiv.Agent.Lifecycle.{
  set_callback, send_at, send, initialize_at, initialize, start_checked, start_at, start,
  idle_result, started_payload, refusal_payload,
}
use unified_runtime_primitiv.Agent.Operations.{
  Operation, initializes, rebinds, starts, sends, wakes, shuts_down, perform, after, step, run,
}
use unified_runtime_primitiv.Agent.Frame.{Leaves-order, Respects, announce-Leaves}
use unified_runtime_primitiv.Agent.Edges.{Edge, Moves, wakes-Moves, fails-Moves, stops-Moves}
use unified_runtime_primitiv.Agent.Coherence.{
  IsCoherent, Fits, new-IsCoherent, initialize-IsCoherent, set_callback-IsCoherent,
  start-IsCoherent, send-IsCoherent,
}
use unified_runtime_primitiv.Agent.Waking.{wake-Woken}
use unified_runtime_primitiv.Agent.Shutdown.{
  Ending, terminates, hook_raised, loop_failed, shutdown_ends,
}

Fits-ne-error :
    (s : AgentStatus) (t : Option Task) (r : Option ProcessResult) → Fits s t r → s ≢ error
Fits-ne-error error t r h e = h
Fits-ne-error _ t r h e = cc

module _ {C W : Type 0} where
  send_at-status :
      (s : AgentStatus) (m : MessageEnvelope) (a : Agent C W)
      → (send_at s m a).1.state.status ≡ a.state.status
  unfolding send_at
  send_at-status terminated m a = refl
  send_at-status _ m a = refl

module _ {C W : Type 0} (p : Program C W) where
  -- What the operation on `a` that had the given outcome has done.
  pub record Performed (op : Operation C) (a : Agent C W) (outcome : Option (Result ⊤ × Agent C W))
      : Type 0 where
    pub returns : outcome ≢ none
    pub coherent : IsCoherent (after p a outcome)
    pub moved : Moves op a.state.status (after p a outcome).state.status

module _ {C W : Type 0} (p : Program C W) (respects : Respects p) where
  initialized-Moves :
      (context : AgentContext) (c : C) (r : Result ⊤) (a b : Agent C W)
      → a.state.status ≡ uninitialized
      → b.state.status ≡ a.state.status
      → Moves
          (initializes context c)
          a.state.status
          (continue (r, b) (λ _. modify (set_status initialized))).1.state.status
  initialized-Moves context c (ok _) a b e f = inr (rw e (Edge.initializes context c))
  initialized-Moves context c (raised x) a b e f = inl f

  initialize_at-Moves :
      (s : AgentStatus) (context : AgentContext) (c : C) (a : Agent C W)
      → a.state.status ≡ s
      → Moves (initializes context c) a.state.status (initialize_at p s context c a).1.state.status
  unfolding initialize_at set_callback
  initialize_at-Moves uninitialized context c a e =
      let a' = record a { context = some context; emit_callback = some c } in
      let (r, b) = p.on_initialize context a' in
      initialized-Moves context c r a b e ((respects.on_initialize context).at a').same_status
  initialize_at-Moves _ context c a e = inl refl

  pub checked-Moves :
      (r : Result (Bool × String)) (a b : Agent C W)
      → a.state.status ≡ initialized
      → b.state.status ≡ a.state.status
      → Moves {C = C} starts a.state.status (continue (r, b) (start_checked p)).1.state.status
  unfolding start_checked
  checked-Moves (raised x) a b e f = inl f
  checked-Moves (ok (true, t)) a b e f =
      let b' = set_task created (set_result idle_result (set_status waiting b)) in
      let l =
        (announce-Leaves p.runtime respects.runtime "AGENT_STARTED"
            (started_payload b.state.session_id)).at
          b' in
      inr (rw (e, l.same_status) Edge.starts)
  checked-Moves (ok (false, t)) a b e f =
      let l =
        (Keeps-bind Leaves-order _ _
            (announce-Leaves p.runtime respects.runtime "AGENT_START_PRECONDITIONS_VIOLATED"
              (refusal_payload t))
            (λ _. Keeps-raise Leaves-order _)).at
          b in
      inl (l.same_status ∙ f)

  start_at-Moves :
      (s : AgentStatus) (a : Agent C W)
      → a.state.status ≡ s
      → Moves {C = C} starts a.state.status (start_at p s a).1.state.status
  unfolding start_at
  start_at-Moves initialized a e =
      let (r, b) = p.check_start_preconditions a in
      checked-Moves r a b e (respects.check_start_preconditions.at a).same_status
  start_at-Moves _ a e = inl refl

  Ending-Moves :
      (n : ℕ) (a b : Agent C W) (r : Result ⊤)
      → a.state.status ≢ error
      → Ending p a r b
      → Moves {C = C} (shuts_down n) a.state.status b.state.status
  Ending-Moves n a b r ne (terminates e over) = rw e (stops-Moves n a.state.status ne)
  Ending-Moves n a b r ne (hook_raised e called is_raised same) = inl same
  Ending-Moves n a b r ne (loop_failed e task is_raised moved) = fails-Moves n _ _ moved

  -- If the subclass and the bus respect the agent's fields (`Respects`): in a coherent state every
  -- operation comes to an end, returning or raising, and leaves a coherent state. The status stays,
  -- or moves along one edge of that operation: `initialize` from UNINITIALIZED to INITIALIZED,
  -- `start` from INITIALIZED to WAITING, a run of the loop from WAITING to PROCESSING, and
  -- `shutdown` to TERMINATED, also from UNINITIALIZED and INITIALIZED, or from WAITING to PROCESSING
  -- if its last run of the loop fails. `send` and the binding of a callback never move it.
  pub perform-Performed :
      (op : Operation C) (a : Agent C W) → IsCoherent a → Performed p op a (perform p op a)
  unfolding perform
  perform-Performed (initializes context c) a h = record {
    returns = λ e. cc;
    coherent = initialize-IsCoherent p respects context c a h;
    moved = unfold initialize in initialize_at-Moves a.state.status context c a refl;
  }
  perform-Performed (rebinds c) a h = record {
    returns = λ e. cc;
    coherent = set_callback-IsCoherent c a h;
    moved = unfold set_callback in inl refl;
  }
  perform-Performed starts a h = record {
    returns = λ e. cc;
    coherent = start-IsCoherent p respects a h;
    moved = unfold start in start_at-Moves a.state.status a refl;
  }
  perform-Performed (sends m) a h = record {
    returns = λ e. cc;
    coherent = send-IsCoherent m a h;
    moved = unfold send in inl (send_at-status a.state.status m a);
  }
  perform-Performed wakes a h =
      let w = wake-Woken p respects a h in
      record { returns = λ e. cc; coherent = w.coherent; moved = wakes-Moves _ _ w.moved }
  perform-Performed (shuts_down n) a h =
      let s = shutdown_ends p respects n a h in
      rw s.returns (record {
        returns = λ e. cc;
        coherent = s.coherent;
        moved = Ending-Moves n a s.after s.result (Fits-ne-error _ _ _ h.fits) s.ending;
      })

  pub run-IsCoherent :
      (ops : List (Operation C)) (a : Agent C W) → IsCoherent a → IsCoherent (run p ops a)
  unfolding run step
  run-IsCoherent [] a h = h
  run-IsCoherent (op ∷ ops) a h =
      run-IsCoherent ops (step p op a) (perform-Performed op a h).coherent

  -- If the subclass and the bus respect the agent's fields (`Respects`): after any schedule of
  -- operations on a new agent the count of unfinished messages is the number of messages that wait,
  -- and the status fits the loop's task: none before the start, one that has not ended only while
  -- WAITING, none running once TERMINATED. The status is never ERROR.
  pub run-new-IsCoherent :
      (ops : List (Operation C)) (d : AgentDescriptor) (w : W)
      → IsCoherent (run p ops (new p d w)) × ((run p ops (new p d w)).state.status ≢ error)
  run-new-IsCoherent ops d w =
      let h = run-IsCoherent ops (new p d w) (new-IsCoherent p d w) in
      (h, Fits-ne-error _ _ _ h.fits)
