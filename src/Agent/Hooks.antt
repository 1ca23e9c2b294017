-- ===== src/Agent/Hooks.antt =====
-- The bodies that `AbstractURPAgent` gives its optional hooks.
use unified_runtime_primitiv.Base.{String, Bool, true}
use unified_runtime_primitiv.Data.{MessageEnvelope, ProcessResult}
use unified_runtime_primitiv.Exec.{Exec, ⊤, pure}
use unified_runtime_primitiv.Agent.State.{Agent}

module _ {C W : Type 0} where
  unfoldable pub default_check_start_preconditions : Exec (Agent C W) (Bool × String)
  default_check_start_preconditions = pure (true, "Start precondition check successful")

  unfoldable pub default_check_preconditions : MessageEnvelope → Exec (Agent C W) (Bool × String)
  default_check_preconditions message = pure (true, "Precondition check successful")

  unfoldable pub default_check_postconditions :
      MessageEnvelope → ProcessResult → Exec (Agent C W) (Bool × String × ProcessResult)
  default_check_postconditions message result =
      pure (true, "Postcondition check successful", result)

  unfoldable pub default_on_shutdown : Exec (Agent C W) ⊤
  default_on_shutdown = pure tt
