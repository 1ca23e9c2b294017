-- ===== src/Sample/Quiet.antt =====
-- Hosts whose client and other tasks do not interfere with the agent.
use unified_runtime_primitiv.Base.{Option, none, some}
use unified_runtime_primitiv.Data.{MessageEnvelope}
use unified_runtime_primitiv.Exec.Keeps.{Keeps}
use unified_runtime_primitiv.Agent.Frame.{Leaves, RuntimeRespects}
use unified_runtime_primitiv.Agent.Opening.{Opens, Opens-order}
use unified_runtime_primitiv.Host.{
  HostedAgent, Environment, host_runtime, call_external, internal_emit_handler,
}
use unified_runtime_primitiv.Host.Queue.{IsQuiet, external-IsQuiet, host_runtime-Respects}
use unified_runtime_primitiv.Sample.Progress.{IsSteadyBus}

-- The client's callbacks and the tasks beside the agent's return. They leave the event queue and the
-- fields of the agent alone, but for messages that they send, and ask for no shutdown.
pub record IsQuietEnvironment {E V : Type 0} (env : Environment E V) : Type 0 where
  pub calls : (c : E) (e : MessageEnvelope) (a : HostedAgent E V) → IsQuiet a (env.call c e a)
  pub others : (a : HostedAgent E V) → IsQuiet a (env.others a)
  pub call_leaves : (c : E) (e : MessageEnvelope) → Keeps Leaves (env.call c e)
  pub others_leave : Keeps Leaves env.others
  pub call_opens : (c : E) (e : MessageEnvelope) → Keeps Opens (env.call c e)
  pub others_open : Keeps Opens env.others

module _ {E V : Type 0} (env : Environment E V) (quiet : IsQuietEnvironment env) where
  pub runtime_respects : RuntimeRespects (host_runtime env)
  runtime_respects = host_runtime-Respects env quiet.call_leaves quiet.others_leave

  external-Opens :
      (o : Option E) (e : MessageEnvelope) (a : HostedAgent E V)
      → Opens a (call_external env o e a).1
  unfolding call_external
  external-Opens none e a = Opens-order.same a
  external-Opens (some c) e a = (quiet.call_opens c e).at a

  pub steady_bus : IsSteadyBus (host_runtime env)
  unfolding internal_emit_handler
  steady_bus = record {
    delivers = λ c e a. (external-IsQuiet env quiet.calls _ e _).returns;
    resumes = λ a. (quiet.others a).returns;
    call_opens = λ c e. record { at = λ a. record { opens = λ h. (external-Opens _ e _).opens h } };
    others_opens = quiet.others_open;
  }
