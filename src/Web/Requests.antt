-- ===== src/Web/Requests.antt =====
-- Sessions of requests to the server.
use mathlib.Core.Option
use unified_runtime_primitiv.Base.{ℕ, suc, String, Bool, Option, none, some, List, [], ◌∷◌, ◌==◌}
use unified_runtime_primitiv.Data.{MessageEnvelope, Payload}
use unified_runtime_primitiv.Exec.{Result, ok, raised, continue}
use unified_runtime_primitiv.Agent.Frame.{Leaves, Respects}
use unified_runtime_primitiv.Exec.Keeps.{Keeps}
use unified_runtime_primitiv.Host.{get_next_event}
use unified_runtime_primitiv.Host.Sessions.{
  HeldIsCoherent, sends_message, takes_event, runs_task, left, host_step, host_step-HeldIsCoherent,
}
use unified_runtime_primitiv.Web.Endpoints.{
  ServerFields, ServedHost, Server, unhosted, hosts, Platform, class_of, around_server, init_agent,
  post_message,
}
use unified_runtime_primitiv.Web.Socket.{next_dump}
use unified_runtime_primitiv.Web.Serving.{
  class_of-Respects, ServedIsCoherent, Initialized, old_stays, launches, init_agent-Initialized,
}

-- The requests that change the server, a round of a web socket, and a run of the agent's task. The
-- number is what is left of the rounds of an agent's loop that a shutdown waits for.
pub data ServerCall : Type 0 where
  posts_init : ℕ → String → String → Option String → ServerCall
  posts_message : String → Payload → ServerCall
  pushes_event : ServerCall
  runs_agent : ServerCall

module _ {X : Type 0} where
  -- The server afterwards; a call that waits for ever changes nothing.
  abbrev pub left_server : {A : Type 0} → Server X → Option (Result A × Server X) → Server X
  left_server server none = server
  left_server server (some (r, k)) = k

module _ {X : Type 0} (platform : Platform X) where
  abbrev agent_runs : Server X → Server X
  agent_runs (unhosted f) = unhosted f
  agent_runs (hosts is_echo host) =
      hosts is_echo (host_step (class_of platform is_echo) runs_task host)

  unfoldable pub server_step : ServerCall → Server X → Server X
  server_step (posts_init n agent_type path id) server =
      left_server server (init_agent platform (suc n) agent_type path id server)
  server_step (posts_message type payload) server = (post_message platform type payload server).1
  server_step pushes_event server = left_server server (next_dump platform server)
  server_step runs_agent server = agent_runs server

  unfoldable pub server_run : List ServerCall → Server X → Server X
  server_run [] server = server
  server_run (c ∷ cs) server = server_run cs (server_step c server)

module _ {X : Type 0} where
  pub Initialized-ServedIsCoherent :
      (platform : Platform X) (n : ℕ) (is_echo : Bool) (server : Server X)
      (outcome : Option (Result String × Server X))
      → Initialized platform n server is_echo outcome
      → ServedIsCoherent (left_server server outcome)
  Initialized-ServedIsCoherent platform n is_echo server outcome
        (old_stays x was_echo host old a s held shut h stop e) =
      rw e h
  Initialized-ServedIsCoherent platform n is_echo server outcome
        (launches (ok _) host e d l ended) =
      rw (e, l.held) l.coherent
  Initialized-ServedIsCoherent platform n is_echo server outcome
        (launches (raised x) host e d l ended) =
      rw (e, l.held) l.coherent

module _ {X : Type 0} (platform : Platform X) (others : Keeps Leaves platform.others)
    (sdk : Respects platform.sdk_class) where
  next_dump-ServedIsCoherent :
      (is_echo : Bool) (host : ServedHost X) (o : Option (Result MessageEnvelope × ServedHost X))
      → HeldIsCoherent (left host o).held
      → ServedIsCoherent (
          left_server (hosts is_echo host) (
            Option.map
              (λ q. around_server is_echo (continue q (λ event k. (platform.model_dump event, k))))
              o))
  next_dump-ServedIsCoherent is_echo host none h = h
  next_dump-ServedIsCoherent is_echo host (some (ok e, k)) h = h
  next_dump-ServedIsCoherent is_echo host (some (raised e, k)) h = h

  hosted_step :
      (c : ServerCall) (is_echo : Bool) (host : ServedHost X)
      → HeldIsCoherent host.held
      → ServedIsCoherent (server_step platform c (hosts is_echo host))
  unfolding server_step post_message next_dump
  hosted_step (posts_init n agent_type path id) is_echo host h =
      Initialized-ServedIsCoherent platform n (agent_type == "echo") (hosts is_echo host) _
        (init_agent-Initialized platform others sdk n agent_type path id (hosts is_echo host) h)
  hosted_step (posts_message type payload) is_echo host h =
      unfold host_step in
      host_step-HeldIsCoherent (class_of platform is_echo)
        (class_of-Respects platform others sdk is_echo) (sends_message type payload "host") host h
  hosted_step pushes_event is_echo host h =
      next_dump-ServedIsCoherent is_echo host (get_next_event none host) (
        unfold host_step in
        host_step-HeldIsCoherent (class_of platform is_echo)
          (class_of-Respects platform others sdk is_echo) (takes_event none) host h)
  hosted_step runs_agent is_echo host h =
      host_step-HeldIsCoherent (class_of platform is_echo)
        (class_of-Respects platform others sdk is_echo) runs_task host h

  pub server_step-ServedIsCoherent :
      (c : ServerCall) (server : Server X)
      → ServedIsCoherent server
      → ServedIsCoherent (server_step platform c server)
  unfolding server_step post_message next_dump
  server_step-ServedIsCoherent (posts_init n agent_type path id) (unhosted f) h =
      Initialized-ServedIsCoherent platform n (agent_type == "echo") (unhosted f) _
        (init_agent-Initialized platform others sdk n agent_type path id (unhosted f) h)
  server_step-ServedIsCoherent (posts_message type payload) (unhosted f) h = h
  server_step-ServedIsCoherent pushes_event (unhosted f) h = h
  server_step-ServedIsCoherent runs_agent (unhosted f) h = h
  server_step-ServedIsCoherent c (hosts is_echo host) h = hosted_step c is_echo host h

  server_run-ServedIsCoherent :
      (cs : List ServerCall) (server : Server X)
      → ServedIsCoherent server
      → ServedIsCoherent (server_run platform cs server)
  unfolding server_run
  server_run-ServedIsCoherent [] server h = h
  server_run-ServedIsCoherent (c ∷ cs) server h =
      server_run-ServedIsCoherent cs (server_step platform c server)
        (server_step-ServedIsCoherent c server h)

  -- If `SDKURPAgent` and the tasks beside the agent's respect its fields (`Respects`, `Leaves`):
  -- whatever is requested of a new server, and whenever the agent's task runs in between, the agent
  -- that its host holds is coherent, and the next `init_agent` ends when the loop of that agent may
  -- run once more. Either the old agent's shutdown raised, the request fails with the same and the
  -- old host stays; or the old agent, if there was one, has TERMINATED with its loop over, a new
  -- host with the descriptor of the class asked for holds a coherent agent, and the answer is its
  -- agent id and the agent WAITING with its loop to run, or what a hook or a refused start raised.
  pub server_run-Initialized :
      (cs : List ServerCall) (f : ServerFields X) (n : ℕ) (agent_type workspace_path : String)
      (conversation_id : Option String)
      → let server = server_run platform cs (unhosted f) in
        ServedIsCoherent server
        × Initialized platform n server
            (agent_type == "echo")
            (init_agent platform (suc n) agent_type workspace_path conversation_id server)
  server_run-Initialized cs f n agent_type workspace_path conversation_id =
      let h = server_run-ServedIsCoherent cs (unhosted f) tt in
      (
        h,
        init_agent-Initialized platform others sdk n agent_type workspace_path conversation_id
            (server_run platform cs (unhosted f)) h,
      )
