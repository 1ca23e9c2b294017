-- ===== src/Host/Starting.antt =====
-- The agent that `initialize_and_start` leaves in the host.
use unified_runtime_primitiv.Base.{◌≡◌, refl, String, Bool, true, false, some}
use unified_runtime_primitiv.Data.{AgentStatus, initialized, waiting, AgentContext}
use unified_runtime_primitiv.Exec.{Exception, Result, ok, raised, ⊤, raise, continue}
use unified_runtime_primitiv.Agent.{
  Agent, Program, new, created, initialize, start, start_at, start_checked, idle_result,
  started_payload, set_status, set_result, set_task,
}
use unified_runtime_primitiv.Agent.Frame.{Respects, announce-Leaves}
use unified_runtime_primitiv.Agent.Coherence.{
  IsCoherent, new-IsCoherent, initialize-IsCoherent, start-IsCoherent,
}
use unified_runtime_primitiv.Host.Defs.{HostFields, Host, holds, fields_of, initialize_and_start}

module _ {C W : Type 0} where
  -- A start that returned has left a waiting agent, whose task is to run.
  pub record Started (q : Result ⊤ × Agent C W) : Type 0 where
    pub waits : q.0 ≡ ok tt → q.1.state.status ≡ waiting
    pub runs : q.0 ≡ ok tt → q.1.task ≡ some created

  raised-Started : (e : Exception) (a : Agent C W) → Started (raised e, a)
  raised-Started e a = record { waits = λ h. cc; runs = λ h. cc }

  refused-Started :
      (q : Result ⊤ × Agent C W) (e : Exception) → Started (continue q (λ _. raise {A = ⊤} e))
  refused-Started (ok _, b) e = raised-Started e b
  refused-Started (raised x, b) e = raised-Started x b

module _ {C W : Type 0} (p : Program C W) (respects : Respects p) where
  checked-Started :
      (r : Result (Bool × String)) (a : Agent C W) → Started (continue (r, a) (start_checked p))
  unfolding start_checked
  checked-Started (raised e) a = raised-Started e a
  checked-Started (ok (false, t)) a = refused-Started _ _
  checked-Started (ok (true, t)) a =
      let b = set_task created (set_result idle_result (set_status waiting a)) in
      let l =
        (announce-Leaves p.runtime respects.runtime "AGENT_STARTED"
            (started_payload a.state.session_id)).at
          b in
      record { waits = λ h. l.same_status; runs = λ h. l.grows.same_task }

  start_at-Started : (s : AgentStatus) (a : Agent C W) → Started (start_at p s a)
  unfolding start_at
  start_at-Started initialized a = let (r, b) = p.check_start_preconditions a in checked-Started r b
  start_at-Started _ a = raised-Started _ a

  launched :
      (q : Result ⊤ × Agent C W)
      → IsCoherent q.1
      → let k = continue q (λ _. start p) in IsCoherent k.1 × Started k
  unfolding start
  launched (ok _, a) h = (start-IsCoherent p respects a h, start_at-Started a.state.status a)
  launched (raised e, a) h = (h, raised-Started e a)

module _ {E V : Type 0} where
  -- What `initialize_and_start` has done: the host holds the agent, started or not.
  pub record Launched (outcome : Result ⊤ × Host E V) : Type 0 where
    pub agent : Agent ⊤ (HostFields E V)
    pub held : outcome.1.held ≡ holds agent
    pub coherent : IsCoherent agent
    pub waits : outcome.0 ≡ ok tt → agent.state.status ≡ waiting
    pub runs : outcome.0 ≡ ok tt → agent.task ≡ some created

module _ {E V : Type 0} (p : Program ⊤ (HostFields E V)) (respects : Respects p) where
  -- If the subclass and the bus respect the agent's fields (`Respects`): from any state of the host
  -- `initialize_and_start` ends, and leaves the host with a coherent agent. If it returns, the
  -- agent is WAITING and its loop is to run; if a hook raised or the start was refused, the host
  -- holds the agent all the same.
  pub initialize_and_start-Launched :
      (context : AgentContext) (host : Host E V) → Launched (initialize_and_start p context host)
  unfolding initialize_and_start
  initialize_and_start-Launched context host =
      let a = new p host.descriptor (fields_of host.held) in
      let h = new-IsCoherent p host.descriptor (fields_of host.held) in
      let (coherent, s) =
        launched p respects (initialize p context tt a)
          (initialize-IsCoherent p respects context tt a h) in
      record { agent = _; held = refl; coherent = coherent; waits = s.waits; runs = s.runs }
