-- ===== src/Agent/Loop.antt =====
-- `_lifecycle_loop` as a task, and `shutdown`, which waits for it. A task runs until it is
-- suspended: `wake` is one such run of the loop, from one wait for a message to the next.
use unified_runtime_primitiv.Base.{
  ℕ, zero, suc, Bool, true, false, Option, none, some, List, [], ◌∷◌,
}
use unified_runtime_primitiv.Data.{waiting, terminated, MessageEnvelope}
use unified_runtime_primitiv.Exec.{
  Exec, Exception, timeout_error, cancelled_error, base_exception, Result, ok, raised, ⊤, pure,
  raise, modify, continue, ◌>>=◌, ◌>>◌, try,
}
use unified_runtime_primitiv.Mailbox.{drop_items}
use unified_runtime_primitiv.Agent.State.{
  Agent, Program, Task, created, polling, returned, failed, set_status, set_task, set_mailbox,
}
use unified_runtime_primitiv.Agent.Events.{announcement, announce}
use unified_runtime_primitiv.Agent.Handling.{handle_message}

-- What awaiting the task gives, once it has ended; with no task there is nothing to await.
abbrev pub ended : Option Task → Option (Result ⊤)
ended none = some (ok tt)
ended (some returned) = some (ok tt)
ended (some (failed e)) = some (raised e)
ended (some created) = none
ended (some polling) = none

module _ {C W : Type 0} where
  -- The oldest message, or the timeout of the wait.
  unfoldable pub take_from : List MessageEnvelope → Exec (Agent C W) MessageEnvelope
  take_from [] a = (raised timeout_error, a)
  take_from (message ∷ rest) a = (ok message, set_mailbox (drop_items rest a.mailbox) a)

  unfoldable pub take_message : Exec (Agent C W) MessageEnvelope
  unfolding take_from
  take_message a = take_from a.mailbox.items a

  -- `while not self._shutdown_event.is_set()`, on to the wait
  unfoldable pub loop_next : Bool → Agent C W → Agent C W
  loop_next true a = set_task returned a
  loop_next false a = set_task polling (set_status waiting a)

  unfoldable pub loop_test : Agent C W → Agent C W
  unfolding loop_next
  loop_test a = loop_next a.shutdown_event a

  -- The outer `except` clauses: true to go on, false for `break`.
  unfoldable pub survive : Exception → Exec (Agent C W) Bool
  survive cancelled_error = pure false
  survive (base_exception text) = raise (base_exception text)
  survive _ = pure true

  unfoldable pub settle : Result Bool × Agent C W → Agent C W
  unfolding loop_test
  settle (ok true, a) = loop_test a
  settle (ok false, a) = set_task returned a
  settle (raised e, a) = set_task (failed e) a

module _ {C W : Type 0} (p : Program C W) where
  -- From the wait for a message to the end of the loop's body.
  unfoldable pub receive_and_handle : Exec (Agent C W) Bool
  receive_and_handle = do message ← take_message; handle_message p message; pure true

  unfoldable pub iteration : Exec (Agent C W) Bool
  unfolding receive_and_handle
  iteration = try (p.others >> receive_and_handle) survive

  unfoldable pub wake_at : Option Task → Agent C W → Agent C W
  wake_at (some created) a = loop_test a
  wake_at (some polling) a = settle (iteration a)
  wake_at _ a = a

  unfoldable pub wake : Agent C W → Agent C W
  unfolding wake_at
  wake a = wake_at a.task a

  -- `await self._task`, for at most that many runs of it; `none` if it has not ended by then.
  unfoldable pub await_task : ℕ → Agent C W → Option (Result ⊤ × Agent C W)
  await_task zero a = elim (ended a.task) [ none ↦ none | some r ↦ some (r, a) ]
  await_task (suc n) a = elim (ended a.task) [ none ↦ await_task n (wake a) | some r ↦ some (r, a) ]

  unfoldable pub begin_shutdown : Exec (Agent C W) ⊤
  begin_shutdown = do modify λ a. record a { shutdown_event = true }; p.on_shutdown

  unfoldable pub end_shutdown : Exec (Agent C W) ⊤
  end_shutdown = do
    modify (set_status terminated)
    announce p.runtime "AGENT_TERMINATED" (announcement "Agent has terminated successfully.")

  unfoldable pub joined : Option (Result ⊤ × Agent C W) → Option (Result ⊤ × Agent C W)
  joined none = none
  joined (some r) = some (continue r (λ _. end_shutdown))

  unfoldable pub await_then_end : ℕ → Result ⊤ × Agent C W → Option (Result ⊤ × Agent C W)
  unfolding joined
  await_then_end n (raised e, a) = some (raised e, a)
  await_then_end n (ok _, a) = joined (await_task n a)

  unfoldable pub shutdown : ℕ → Agent C W → Option (Result ⊤ × Agent C W)
  unfolding await_then_end
  shutdown n a = await_then_end n (begin_shutdown a)
