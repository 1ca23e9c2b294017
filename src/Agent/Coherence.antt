-- ===== src/Agent/Coherence.antt =====
-- The invariant of an agent between two operations.
use unified_runtime_primitiv.Base.{
  ◌≡◌, refl, ◌∙◌, ◌≢◌, String, Bool, true, false, Option, none, some, length-append, [], ◌∷◌, arith,
}
use unified_runtime_primitiv.Data.{
  AgentStatus, uninitialized, initialized, waiting, processing, error, terminated, ProcessResult,
  AgentContext, MessageEnvelope, AgentDescriptor,
}
use unified_runtime_primitiv.Exec.{Result, ok, raised, ⊤, continue, modify}
use unified_runtime_primitiv.Exec.Keeps.{Keeps-bind, Keeps-raise}
use unified_runtime_primitiv.Agent.State.{
  Agent, Program, Task, created, polling, returned, failed, new, set_status, set_task, set_result,
}
use unified_runtime_primitiv.Agent.Lifecycle.{
  set_callback, send_at, send, initialize_at, initialize, idle_result, started_payload,
  refusal_payload, start_checked, start_at, start,
}
use unified_runtime_primitiv.Agent.Frame.{Leaves, Leaves-order, Respects, announce-Leaves}
use unified_runtime_primitiv.Agent.Work.{IsCounted}
use unified_runtime_primitiv.Agent.Rounds.{Grows-IsCounted}

abbrev pub IsOver : Option Task → Type 0
IsOver none = Unit
IsOver (some returned) = Unit
IsOver (some (failed e)) = Unit
IsOver (some created) = ⊥
IsOver (some polling) = ⊥

-- Which tasks go with a status, and whether a result is recorded. A status PROCESSING is seen
-- between two operations only if the loop was cancelled or broken in the midst of a message.
abbrev pub Fits : AgentStatus → Option Task → Option ProcessResult → Type 0
Fits uninitialized t r = t ≡ none
Fits initialized t r = t ≡ none
Fits waiting t r = (t ≢ none) × (r ≢ none)
Fits processing t r = (t ≢ none) × IsOver t × (r ≢ none)
Fits error t r = ⊥
Fits terminated t r = IsOver t

pub record IsCoherent {C W : Type 0} (a : Agent C W) : Type 0 where
  pub counted : IsCounted a
  pub fits : Fits a.state.status a.task a.state.last_process_result

module _ {C W : Type 0} where
  pub Leaves-IsCoherent : (a b : Agent C W) → IsCoherent a → Leaves a b → IsCoherent b
  Leaves-IsCoherent a b h l = record {
    counted = Grows-IsCounted a b h.counted l.grows;
    fits = rw (l.same_status, l.grows.same_task, l.same_result) h.fits;
  }

  pub set_callback-IsCoherent :
      (c : C) (a : Agent C W) → IsCoherent a → IsCoherent (set_callback c a).1
  unfolding set_callback
  set_callback-IsCoherent c a h = record { counted = h.counted; fits = h.fits }

  send_at-IsCoherent :
      (s : AgentStatus) (m : MessageEnvelope) (a : Agent C W)
      → IsCoherent a
      → IsCoherent (send_at s m a).1
  unfolding send_at
  send_at-IsCoherent terminated m a h = h
  send_at-IsCoherent _ m a h = record {
    counted = omega (arith, h.counted, length-append a.mailbox.items (m ∷ []));
    fits = h.fits;
  }

  pub send-IsCoherent :
      (m : MessageEnvelope) (a : Agent C W) → IsCoherent a → IsCoherent (send m a).1
  unfolding send
  send-IsCoherent m a h = send_at-IsCoherent a.state.status m a h

module _ {C W : Type 0} (p : Program C W) where
  pub new-IsCoherent : (d : AgentDescriptor) (w : W) → IsCoherent (new p d w)
  unfolding new
  new-IsCoherent d w = record { counted = refl; fits = refl }

module _ {C W : Type 0} (p : Program C W) (respects : Respects p) where
  initialized-IsCoherent :
      (r : Result ⊤) (b : Agent C W)
      → b.state.status ≡ uninitialized
      → IsCoherent b
      → IsCoherent (continue (r, b) (λ _. modify (set_status initialized))).1
  initialized-IsCoherent (ok _) b e h = record {
    counted = h.counted;
    fits = ground (arith, h.fits);
  }
  initialized-IsCoherent (raised x) b e h = h

  initialize_at-IsCoherent :
      (s : AgentStatus) (context : AgentContext) (c : C) (a : Agent C W)
      → a.state.status ≡ s
      → IsCoherent a
      → IsCoherent (initialize_at p s context c a).1
  unfolding initialize_at set_callback
  initialize_at-IsCoherent uninitialized context c a e h =
      let a' = record a { context = some context; emit_callback = some c } in
      let (r, b) = p.on_initialize context a' in
      let l : Leaves a' b = (respects.on_initialize context).at a' in
      initialized-IsCoherent r b (l.same_status ∙ e)
        (Leaves-IsCoherent a' b (record { counted = h.counted; fits = h.fits }) l)
  initialize_at-IsCoherent _ context c a e h = h

  pub initialize-IsCoherent :
      (context : AgentContext) (c : C) (a : Agent C W)
      → IsCoherent a
      → IsCoherent (initialize p context c a).1
  unfolding initialize
  initialize-IsCoherent context c a = initialize_at-IsCoherent a.state.status context c a refl

  start_checked-IsCoherent :
      (checked : Bool × String) (a : Agent C W)
      → IsCoherent a
      → IsCoherent (start_checked p checked a).1
  unfolding start_checked
  start_checked-IsCoherent (true, t) a h =
      let b = set_task created (set_result idle_result (set_status waiting a)) in
      Leaves-IsCoherent b _ (record { counted = h.counted; fits = (λ e. cc, λ e. cc) })
        ((announce-Leaves p.runtime respects.runtime "AGENT_STARTED"
            (started_payload a.state.session_id)).at
          b)
  start_checked-IsCoherent (false, t) a h = Leaves-IsCoherent a _ h (
      (Keeps-bind Leaves-order _ _
          (announce-Leaves p.runtime respects.runtime "AGENT_START_PRECONDITIONS_VIOLATED"
            (refusal_payload t))
          (λ _. Keeps-raise Leaves-order _)).at
        a)

  checked-IsCoherent :
      (r : Result (Bool × String)) (b : Agent C W)
      → IsCoherent b
      → IsCoherent (continue (r, b) (start_checked p)).1
  checked-IsCoherent (ok checked) b h = start_checked-IsCoherent checked b h
  checked-IsCoherent (raised e) b h = h

  start_at-IsCoherent :
      (s : AgentStatus) (a : Agent C W) → IsCoherent a → IsCoherent (start_at p s a).1
  unfolding start_at
  start_at-IsCoherent initialized a h =
      let (r, b) = p.check_start_preconditions a in
      checked-IsCoherent r b (Leaves-IsCoherent a b h (respects.check_start_preconditions.at a))
  start_at-IsCoherent _ a h = h

  pub start-IsCoherent : (a : Agent C W) → IsCoherent a → IsCoherent (start p a).1
  unfolding start
  start-IsCoherent a h = start_at-IsCoherent a.state.status a h
