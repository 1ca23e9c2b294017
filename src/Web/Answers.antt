-- ===== src/Web/Answers.antt =====
-- What the server answers after an agent was initialised.
use unified_runtime_primitiv.Base.{suc, ℕ, ◌≡◌, refl, String, Option, some, Bool, ◌==◌}
use unified_runtime_primitiv.Exec.{Result, ok, raised}
use unified_runtime_primitiv.Agent.{AgentView, view}
use unified_runtime_primitiv.Agent.Frame.{Leaves, Respects}
use unified_runtime_primitiv.Exec.Keeps.{Keeps}
use unified_runtime_primitiv.Web.Endpoints.{
  Server, hosts, Platform, descriptor_for, init_agent, online, get_state, conversation_of,
}
use unified_runtime_primitiv.Web.Serving.{
  ServedIsCoherent, Initialized, old_stays, launches, init_agent-Initialized,
}

module _ {X : Type 0} (platform : Platform X) where
  -- `/agent/state` gives an agent with the status WAITING.
  abbrev pub ShowsWaiting : Server X → Type 0
  ShowsWaiting server =
      (v : AgentView) × (id : Option String) × (get_state platform server ≡ online v "WAITING" id)

  shown :
      (n : ℕ) (before : Server X) (is_echo : Bool) (answer : String) (server : Server X)
      (outcome : Option (Result String × Server X))
      → outcome ≡ some (ok answer, server)
      → Initialized platform n before is_echo outcome
      → (answer ≡ (descriptor_for is_echo).agent_id) × ShowsWaiting server
  unfolding get_state view
  shown n before is_echo answer server outcome q (old_stays x old host b a s held shut h stop e) =
      absurd cc
  shown n before is_echo answer server outcome q (launches (raised x) host e d l ended) = absurd cc
  shown n before is_echo answer server outcome q (launches (ok _) host e d l ended) =
      let same : server ≡ hosts is_echo host = cc in
      (
        cc,
        (
          view l.agent,
          conversation_of platform is_echo l.agent,
          rw (same, l.held, l.waits refl) refl,
        ),
      )

module _ {X : Type 0} (platform : Platform X) (others : Keeps Leaves platform.others)
    (sdk : Respects platform.sdk_class) where
  -- If `SDKURPAgent` and the tasks beside the agent's respect its fields (`Respects`, `Leaves`),
  -- and `init_agent` returned, on a server with no host, or whose host holds no agent or a coherent
  -- one: the answer is the agent id of the class that was asked for, and the endpoint
  -- `/agent/state` then gives an agent with the status "WAITING".
  pub init_agent-get_state :
      (n : ℕ) (agent_type workspace_path : String) (conversation_id : Option String)
      (answer : String) (server after : Server X)
      → ServedIsCoherent server
      → init_agent platform (suc n) agent_type workspace_path conversation_id server
        ≡ some (ok answer, after)
      → (answer ≡ (descriptor_for (agent_type == "echo")).agent_id) × ShowsWaiting platform after
  init_agent-get_state n agent_type workspace_path conversation_id answer server after h q =
      shown platform n server (agent_type == "echo") answer after _ q (
        init_agent-Initialized platform others sdk n agent_type workspace_path conversation_id
          server h)
