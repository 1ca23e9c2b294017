-- ===== src/Web/Serving.antt =====
-- Initialising the server's agent, and sessions of requests to the server.
use mathlib.Core.Option
use unified_runtime_primitiv.Base.{
  ℕ, suc, ◌≡◌, refl, ap, none, String, Bool, true, false, Option, some, ◌==◌,
}
use unified_runtime_primitiv.Data.{terminated, AgentContext, Value}
use unified_runtime_primitiv.Exec.{Exception, Result, ok, raised, ⊤, continue}
use unified_runtime_primitiv.Agent.{shutdown}
use unified_runtime_primitiv.Agent.Frame.{Leaves, Leaves-order, Grows-of, Respects}
use unified_runtime_primitiv.Exec.Keeps.{Keeps}
use unified_runtime_primitiv.Sample.Echo.{echo_agent-Respects}
use unified_runtime_primitiv.Host.Queue.{host_runtime-Respects}
use unified_runtime_primitiv.Agent.Coherence.{IsOver, IsCoherent}
use unified_runtime_primitiv.Host.{
  host_runtime, idle, holds, new_host, set_emit_callback, initialize_and_start,
}
use unified_runtime_primitiv.Host.Starting.{Launched, initialize_and_start-Launched}
use unified_runtime_primitiv.Host.Sessions.{
  HeldIsCoherent, Closed, was_idle, closes, refuses, shutdown_host-Closed,
}
use unified_runtime_primitiv.Web.Endpoints.{
  ServedHost, ServedAgent, Server, unhosted, hosts, Platform, descriptor_for, class_of, create_host,
  world_of, launch, context_for, after_shutdown, shutdown_server, initialize_agent, init_agent,
  log_dump, log_event, server_environment, around_server, id_of_host, held_agent,
}

module _ {X : Type 0} where
  -- The agent that the server's host holds, if any, is coherent.
  abbrev pub ServedIsCoherent : Server X → Type 0
  ServedIsCoherent (unhosted f) = Unit
  ServedIsCoherent (hosts is_echo host) = HeldIsCoherent host.held

  abbrev pub served_agent : Server X → Option (ServedAgent X)
  served_agent (unhosted f) = none
  served_agent (hosts is_echo host) = held_agent host.held

  -- What became of the agent that the server had: there was none; or its shutdown, which may await
  -- `n + 1` runs of its loop, returned, and it is TERMINATED and its loop is over.
  pub data Retired (platform : Platform X) (n : ℕ) (server : Server X) : Type 0 where
    had_none : served_agent server ≡ none → Retired platform n server
    retires :
        (is_echo : Bool) (host : ServedHost X) (old a : ServedAgent X)
        → server ≡ hosts is_echo host
        → host.held ≡ holds old
        → shutdown (class_of platform is_echo) (suc n) old ≡ some (ok tt, a)
        → a.state.status ≡ terminated
        → IsOver a.task
        → Retired platform n server

  -- How `init_agent` ends: the old agent refused to shut down and is still held; or the old agent is
  -- retired, and a new host of the class asked for holds its agent, started or not.
  pub data Initialized (platform : Platform X) (n : ℕ) (server : Server X) (is_echo : Bool)
      (outcome : Option (Result String × Server X)) : Type 0 where
    old_stays :
        (e : Exception) (was_echo : Bool) (host : ServedHost X) (old a : ServedAgent X)
        → server ≡ hosts was_echo host
        → host.held ≡ holds old
        → shutdown (class_of platform was_echo) (suc n) old ≡ some (raised e, a)
        → IsCoherent a
        → a.shutdown_event ≡ true
        → outcome ≡ some (raised e, hosts was_echo (record host { held = holds a }))
        → Initialized platform n server is_echo outcome
    launches :
        (r : Result ⊤) (host : ServedHost X)
        → outcome
          ≡ some
              (continue (r, hosts is_echo host) (λ _ s. (ok (descriptor_for is_echo).agent_id, s)))
        → host.descriptor ≡ descriptor_for is_echo
        → Launched (r, host)
        → Retired platform n server
        → Initialized platform n server is_echo outcome

module _ {X : Type 0} where
  abbrev answered : Option (Result ⊤ × Server X) → Option (Result String × Server X)
  answered = Option.map (λ q. continue q (λ _. id_of_host))

  answered-launch :
      (r : Result ⊤) (is_echo : Bool) (host : ServedHost X)
      → answered (some (r, hosts is_echo host))
        ≡ some (continue (r, hosts is_echo host) (λ _ s. (ok host.descriptor.agent_id, s)))
  answered-launch (ok _) is_echo host = refl
  answered-launch (raised e) is_echo host = refl

-- Both agent classes respect the agent's fields, since `log_event` only writes to the log.
module _ {X : Type 0} (platform : Platform X) where
  pub log_dump-Leaves : (r : Result Value) (a : ServedAgent X) → Leaves a (log_dump platform r a).1
  log_dump-Leaves (ok dump) a = record {
    grows = Grows-of a _ refl refl refl refl refl refl;
    same_status = refl;
    same_result = refl;
  }
  log_dump-Leaves (raised e) a = Leaves-order.same a

  pub class_of-Respects :
      Keeps Leaves platform.others
      → Respects platform.sdk_class
      → (is_echo : Bool) → Respects (class_of platform is_echo)
  unfolding log_event
  class_of-Respects others sdk true =
      echo_agent-Respects platform.str (host_runtime (server_environment platform)) (
        host_runtime-Respects (server_environment platform)
          (λ c e. record { at = λ a. log_dump-Leaves (platform.model_dump e) a }) others)
  class_of-Respects others sdk false = sdk

module _ {X : Type 0} (platform : Platform X) (others : Keeps Leaves platform.others)
    (sdk : Respects platform.sdk_class) where
  -- `server` is the one that `init_agent` was called on.
  launch-Initialized :
      (n : ℕ) (server : Server X) (context : AgentContext) (agent_type : String)
      (emptied : Server X)
      → Retired platform n server
      → Initialized platform n server
          (agent_type == "echo")
          (answered (some (launch platform context (create_host agent_type emptied))))
  unfolding create_host initialize_and_start set_emit_callback
  launch-Initialized n server context agent_type emptied retired =
      let is_echo = agent_type == "echo" in
      let host = set_emit_callback tt (new_host (descriptor_for is_echo) (world_of emptied)) in
      let (r, k) = initialize_and_start (class_of platform is_echo) context host in
      launches r k (answered-launch r is_echo k) refl
        (initialize_and_start-Launched (class_of platform is_echo)
          (class_of-Respects platform others sdk is_echo) context host)
        retired

  after_shutdown-Initialized :
      (n : ℕ) (agent_type workspace_path : String) (conversation_id : Option String)
      (is_echo : Bool) (host : ServedHost X) (closing : Option (Result ⊤ × ServedHost X))
      → Closed (class_of platform is_echo) n host closing
      → Initialized platform n (hosts is_echo host) (agent_type == "echo") (
          answered (
            after_shutdown platform agent_type workspace_path conversation_id
              (Option.map (around_server is_echo) closing)))
  unfolding after_shutdown
  after_shutdown-Initialized n agent_type path id is_echo host closing (was_idle f held e) = rw e (
      launch-Initialized n (hosts is_echo host) (context_for (platform.abspath path) id) agent_type
        (hosts is_echo host) (had_none (ap held_agent held)))
  after_shutdown-Initialized n agent_type path id is_echo host closing
        (closes old a held shut done over e) =
      rw e (
        launch-Initialized n (hosts is_echo host) (context_for (platform.abspath path) id)
          agent_type (hosts is_echo (record host { held = idle a.world }))
          (retires is_echo host old a refl held shut done over))
  after_shutdown-Initialized n agent_type path id is_echo host closing
        (refuses x old a held shut h stop e) =
      old_stays x is_echo host old a refl held shut h stop (rw e refl)

  -- If `SDKURPAgent` and the tasks beside the agent's respect its fields (`Respects`, `Leaves`):
  -- with a server that has no host, or whose host holds no agent or a coherent one, `init_agent`
  -- ends when the loop of the old agent may run once more. Either the shutdown of the old agent
  -- raised: the request fails with the same and the old host stays, its agent told to shut down. Or
  -- the old agent, if there was one, has TERMINATED and its loop is over, and a new host with the
  -- descriptor of the class asked for holds a coherent agent: the answer is its agent id and the
  -- agent is WAITING with its loop to run, or what a hook or a refused start raised.
  pub init_agent-Initialized :
      (n : ℕ) (agent_type workspace_path : String) (conversation_id : Option String)
      (server : Server X)
      → ServedIsCoherent server
      → Initialized platform n server
          (agent_type == "echo")
          (init_agent platform (suc n) agent_type workspace_path conversation_id server)
  unfolding init_agent initialize_agent shutdown_server
  init_agent-Initialized n agent_type workspace_path conversation_id (unhosted f) h =
      unfold after_shutdown in
      launch-Initialized n (unhosted f)
        (context_for (platform.abspath workspace_path) conversation_id) agent_type (unhosted f)
        (had_none refl)
  init_agent-Initialized n agent_type workspace_path conversation_id (hosts is_echo host) h =
      after_shutdown-Initialized n agent_type workspace_path conversation_id is_echo host _ (
        shutdown_host-Closed (class_of platform is_echo)
          (class_of-Respects platform others sdk is_echo) n host h)
