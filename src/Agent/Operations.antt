-- ===== src/Agent/Operations.antt =====
-- Everything that can happen to an agent from outside, and runs of it: a schedule.
use unified_runtime_primitiv.Base.{ℕ, suc, Option, none, some, List, [], ◌∷◌}
use unified_runtime_primitiv.Data.{AgentContext, MessageEnvelope}
use unified_runtime_primitiv.Exec.{Result, ok, ⊤}
use unified_runtime_primitiv.Agent.State.{Agent, Program}
use unified_runtime_primitiv.Agent.Lifecycle.{set_callback, send, initialize, start}
use unified_runtime_primitiv.Agent.Loop.{wake, shutdown}

-- A call of a method, or one run of the loop's task; `shuts_down n` allows `n + 1` such runs.
pub data Operation (C : Type 0) : Type 0 where
  initializes : AgentContext → C → Operation C
  rebinds : C → Operation C
  starts : Operation C
  sends : MessageEnvelope → Operation C
  wakes : Operation C
  shuts_down : ℕ → Operation C

module _ {C W : Type 0} (p : Program C W) where
  unfoldable pub perform : Operation C → Agent C W → Option (Result ⊤ × Agent C W)
  perform (initializes context c) a = some (initialize p context c a)
  perform (rebinds c) a = some (set_callback c a)
  perform starts a = some (start p a)
  perform (sends message) a = some (send message a)
  perform wakes a = some (ok tt, wake p a)
  perform (shuts_down n) a = shutdown p (suc n) a

  -- The state afterwards; the caller sees the exception, and the agent lives on.
  abbrev pub after : Agent C W → Option (Result ⊤ × Agent C W) → Agent C W
  after a none = a
  after a (some (r, b)) = b

  unfoldable pub step : Operation C → Agent C W → Agent C W
  unfolding perform
  step op a = after a (perform op a)

  unfoldable pub run : List (Operation C) → Agent C W → Agent C W
  run [] a = a
  run (op ∷ ops) a = run ops (step op a)
