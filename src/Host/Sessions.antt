-- ===== src/Host/Sessions.antt =====
-- The shutdown of a host, and sequences of calls on it.
use unified_runtime_primitiv.Base.{
  ◌≡◌, refl, sym, subst, zero, suc, ℕ, String, true, Option, none, some, List, [], ◌∷◌,
}
use unified_runtime_primitiv.Data.{
  terminated, AgentDescriptor, AgentContext, MessageEnvelope, Payload,
}
use unified_runtime_primitiv.Exec.{Exception, Result, ok, raised, ⊤, pure, continue}
use unified_runtime_primitiv.Agent.{Program, wake, send, shutdown}
use unified_runtime_primitiv.Agent.Frame.{Respects}
use unified_runtime_primitiv.Agent.Coherence.{IsOver, IsCoherent, send-IsCoherent}
use unified_runtime_primitiv.Agent.Shutdown.{
  Ending, terminates, hook_raised, loop_failed, shutdown_ends,
}
use unified_runtime_primitiv.Agent.Waking.{wake-Woken}
use unified_runtime_primitiv.Host.Defs.{
  HostFields, HostedAgent, Held, idle, holds, Host, new_host, fields_of, hold, set_fields,
  set_emit_callback, initialize_and_start, send_message, send_to, get_next_event, next_from,
  released, shutdown_held, shutdown_host, envelope_for, fields_after_envelope,
}
use unified_runtime_primitiv.Host.Starting.{initialize_and_start-Launched}

module _ {E V : Type 0} where
  -- The agent that is held, if any, is coherent.
  abbrev pub HeldIsCoherent : Held E V → Type 0
  HeldIsCoherent (idle f) = Unit
  HeldIsCoherent (holds a) = IsCoherent a

  -- How a shutdown of `host` ends: there was no agent; or the shutdown of its agent returns, and the
  -- agent is let go, TERMINATED and with no loop; or that shutdown raises, and the agent is still
  -- held. The shutdown may await `n + 1` runs of the loop.
  pub data Closed (p : Program ⊤ (HostFields E V)) (n : ℕ) (host : Host E V)
      (outcome : Option (Result ⊤ × Host E V)) : Type 0 where
    was_idle :
        (f : HostFields E V)
        → host.held ≡ idle f
        → outcome ≡ some (ok tt, host)
        → Closed p n host outcome
    closes :
        (old a : HostedAgent E V)
        → host.held ≡ holds old
        → shutdown p (suc n) old ≡ some (ok tt, a)
        → a.state.status ≡ terminated
        → IsOver a.task
        → outcome ≡ some (ok tt, record host { held = idle a.world })
        → Closed p n host outcome
    refuses :
        (e : Exception) (old a : HostedAgent E V)
        → host.held ≡ holds old
        → shutdown p (suc n) old ≡ some (raised e, a)
        → IsCoherent a
        → a.shutdown_event ≡ true
        → outcome ≡ some (raised e, record host { held = holds a })
        → Closed p n host outcome

module _ {E V : Type 0} (p : Program ⊤ (HostFields E V)) (respects : Respects p) where
  closed :
      (n : ℕ) (host : Host E V) (r : Result ⊤) (a b : HostedAgent E V)
      → host.held ≡ holds a
      → shutdown p (suc n) a ≡ some (r, b)
      → IsCoherent b
      → b.shutdown_event ≡ true
      → Ending p a r b
      → Closed p n host (some (released p host (r, b)))
  unfolding released
  closed n host (raised e) a b held shut h stop ending = refuses e a b held shut h stop refl
  closed n host (ok _) a b held shut h stop (terminates done over) =
      closes a b held shut done over refl
  closed n host (ok _) a b held shut h stop (hook_raised e called is_raised same) = absurd cc
  closed n host (ok _) a b held shut h stop (loop_failed e task is_raised moved) = absurd cc

  shutdown_held-Closed :
      (s : Held E V) (n : ℕ) (host : Host E V)
      → host.held ≡ s
      → HeldIsCoherent s
      → Closed p n host (shutdown_held p s (suc n) host)
  unfolding shutdown_held
  shutdown_held-Closed (idle f) n host e h = was_idle f e refl
  shutdown_held-Closed (holds a) n host e h =
      let s = shutdown_ends p respects n a h in
      rw s.returns (closed n host s.result a s.after e s.returns s.coherent s.stopped s.ending)

  -- A host that holds a coherent agent, or none, comes to the end of its shutdown when the agent's
  -- loop may run once more. Either there was no agent and nothing changes; or the agent has
  -- TERMINATED, its loop is over and the host lets it go; or the shutdown of the agent raised, the
  -- host raises the same and still holds the agent, whose shutdown event is set.
  pub shutdown_host-Closed :
      (n : ℕ) (host : Host E V)
      → HeldIsCoherent host.held
      → Closed p n host (shutdown_host p (suc n) host)
  unfolding shutdown_host
  shutdown_host-Closed n host h = shutdown_held-Closed host.held n host refl h

-- The calls that a client makes on a host, and a run of the agent's task.
pub data HostCall (E : Type 0) : Type 0 where
  initializes_and_starts : AgentContext → HostCall E
  binds : E → HostCall E
  sends_message : String → Payload → String → HostCall E
  takes_event : Option ℕ → HostCall E
  shuts_host_down : ℕ → HostCall E
  runs_task : HostCall E

module _ {E V : Type 0} where
  -- The host afterwards; a call that waits for ever changes nothing.
  abbrev pub left : {A : Type 0} → Host E V → Option (Result A × Host E V) → Host E V
  left host none = host
  left host (some (r, k)) = k

module _ {E V : Type 0} (p : Program ⊤ (HostFields E V)) where
  abbrev pub woken : Held E V → Held E V
  woken (idle f) = idle f
  woken (holds a) = holds (wake p a)

  unfoldable pub host_step : HostCall E → Host E V → Host E V
  host_step (initializes_and_starts context) host = (initialize_and_start p context host).1
  host_step (binds c) host = set_emit_callback c host
  host_step (sends_message type payload sender) host = (send_message p type payload sender host).1
  host_step (takes_event timeout) host = left host (get_next_event timeout host)
  host_step (shuts_host_down n) host = left host (shutdown_host p (suc n) host)
  host_step runs_task host = record host { held = woken host.held }

  unfoldable pub host_run : List (HostCall E) → Host E V → Host E V
  host_run [] host = host
  host_run (c ∷ cs) host = host_run cs (host_step c host)

module _ {E V : Type 0} where
  pub set_fields-IsCoherent :
      (f : HostFields E V) (a : HostedAgent E V) → IsCoherent a → IsCoherent (set_fields f a)
  set_fields-IsCoherent f a h = record { counted = h.counted; fits = h.fits }

  hold-HeldIsCoherent :
      (f : HostFields E V) (s : Held E V) → HeldIsCoherent s → HeldIsCoherent (hold f s)
  hold-HeldIsCoherent f (idle g) h = tt
  hold-HeldIsCoherent f (holds a) h = set_fields-IsCoherent f a h

  next_from-HeldIsCoherent :
      (events : List MessageEnvelope) (timeout : Option ℕ) (host : Host E V)
      → HeldIsCoherent host.held
      → HeldIsCoherent (left host (next_from events timeout host)).held
  unfolding next_from
  next_from-HeldIsCoherent (event ∷ rest) timeout host h = hold-HeldIsCoherent _ host.held h
  next_from-HeldIsCoherent [] (some (suc n)) host h = h
  next_from-HeldIsCoherent [] (some zero) host h = h
  next_from-HeldIsCoherent [] none host h = h

  Closed-HeldIsCoherent :
      (p : Program ⊤ (HostFields E V)) (n : ℕ) (host : Host E V)
      (outcome : Option (Result ⊤ × Host E V))
      → HeldIsCoherent host.held
      → Closed p n host outcome
      → HeldIsCoherent (left host outcome).held
  Closed-HeldIsCoherent p n host outcome h (was_idle f held e) = rw e h
  Closed-HeldIsCoherent p n host outcome h (closes old a held shut done over e) = rw e tt
  Closed-HeldIsCoherent p n host outcome h (refuses x old a held shut coherent stop e) =
      rw e coherent

module _ {E V : Type 0} (p : Program ⊤ (HostFields E V)) (respects : Respects p) where
  continue-state :
      {S A B : Type 0} (q : Result A × S) (f : A → B) → (continue q (λ a. pure (f a))).1 ≡ q.1
  continue-state (ok a, s) f = refl
  continue-state (raised e, s) f = refl

  send_to-HeldIsCoherent :
      (s : Held E V) (host : Host E V) (type : String) (payload : Payload) (sender : String)
      → HeldIsCoherent host.held
      → HeldIsCoherent s
      → HeldIsCoherent (send_to p s host type payload sender).1.held
  send_to-HeldIsCoherent (idle f) host type payload sender k h = k
  send_to-HeldIsCoherent (holds a) host type payload sender k h =
      let envelope = envelope_for p host.descriptor type payload sender a.world in
      let a' = set_fields (fields_after_envelope p a.world) a in
      rw (continue-state (send envelope a') (λ _. envelope.message_id))
        (send-IsCoherent envelope a' (set_fields-IsCoherent _ a h))

  woken-HeldIsCoherent : (s : Held E V) → HeldIsCoherent s → HeldIsCoherent (woken p s)
  woken-HeldIsCoherent (idle f) h = tt
  woken-HeldIsCoherent (holds a) h = (wake-Woken p respects a h).coherent

  pub host_step-HeldIsCoherent :
      (c : HostCall E) (host : Host E V)
      → HeldIsCoherent host.held
      → HeldIsCoherent (host_step p c host).held
  unfolding host_step set_emit_callback send_message get_next_event
  host_step-HeldIsCoherent (initializes_and_starts context) host h =
      let l = initialize_and_start-Launched p respects context host in
      subst HeldIsCoherent (sym l.held) l.coherent
  host_step-HeldIsCoherent (binds c) host h = hold-HeldIsCoherent _ host.held h
  host_step-HeldIsCoherent (sends_message type payload sender) host h =
      send_to-HeldIsCoherent host.held host type payload sender h h
  host_step-HeldIsCoherent (takes_event timeout) host h =
      next_from-HeldIsCoherent (fields_of host.held).event_queue.items timeout host h
  host_step-HeldIsCoherent (shuts_host_down n) host h =
      Closed-HeldIsCoherent p n host _ h (shutdown_host-Closed p respects n host h)
  host_step-HeldIsCoherent runs_task host h = woken-HeldIsCoherent host.held h

  host_run-HeldIsCoherent :
      (cs : List (HostCall E)) (host : Host E V)
      → HeldIsCoherent host.held
      → HeldIsCoherent (host_run p cs host).held
  unfolding host_run
  host_run-HeldIsCoherent [] host h = h
  host_run-HeldIsCoherent (c ∷ cs) host h =
      host_run-HeldIsCoherent cs (host_step p c host) (host_step-HeldIsCoherent c host h)

  -- If the subclass and the bus respect the agent's fields (`Respects`): whatever is called on a
  -- new host, and whenever the agent's task runs in between, the agent that the host holds is
  -- coherent, and a shutdown of the host comes to an end when that task may run once more. Either
  -- there was no agent and nothing changes; or the agent has TERMINATED, its loop is over and the
  -- host lets it go; or the shutdown of the agent raised, the host raises the same and still holds
  -- the agent, whose shutdown event is set.
  pub host_run-Closed :
      (cs : List (HostCall E)) (d : AgentDescriptor) (v : V) (n : ℕ)
      → let host = host_run p cs (new_host d v) in
        HeldIsCoherent host.held × Closed p n host (shutdown_host p (suc n) host)
  host_run-Closed cs d v n =
      let host = host_run p cs (new_host d v) in
      let h = host_run-HeldIsCoherent cs (new_host d v) tt in
      (h, shutdown_host-Closed p respects n host h)
