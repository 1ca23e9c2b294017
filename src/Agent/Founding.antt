-- ===== src/Agent/Founding.antt =====
-- What `_on_initialize` establishes in the world, and everything else leaves.
use unified_runtime_primitiv.Base.{
  ◌≡◌, refl, sym, subst, ℕ, zero, suc, String, Bool, true, false, Option, none, some, List, [], ◌∷◌,
  arith,
}
use unified_runtime_primitiv.Data.{
  AgentStatus, initialized, waiting, terminated, MessageEnvelope, Payload,
}
use unified_runtime_primitiv.Exec.{
  Exception, cancelled_error, base_exception, Result, ok, raised, ⊤, modify, continue, try, finish,
}
use unified_runtime_primitiv.Exec.Keeps.{
  Keeps, Preorder, Keeps-pure, Keeps-raise, Keeps-bind, Keeps-try,
}
use unified_runtime_primitiv.Agent.State.{
  Agent, Program, Task, created, polling, set_status, set_result, set_task,
}
use unified_runtime_primitiv.Agent.Events.{announcement, announce}
use unified_runtime_primitiv.Agent.Operations.{after}
use unified_runtime_primitiv.Agent.Taking.{run_task, await_task-run_task}
use unified_runtime_primitiv.Agent.Lifecycle.{
  start_checked, start_at, idle_result, started_payload, refusal_payload, start_refused,
}
use unified_runtime_primitiv.Agent.Handling.{mark_done, handle_message, attempt, recover}
use unified_runtime_primitiv.Agent.Loop.{
  take_from, take_message, loop_next, loop_test, survive, settle, receive_and_handle, iteration,
  wake_at, wake, await_task, begin_shutdown, end_shutdown, joined, await_then_end, shutdown,
}
use unified_runtime_primitiv.Agent.Emitting.{announce-Keeps}
use unified_runtime_primitiv.Agent.Keeping.{IsKept, tried-Keeps}

-- What holds of the world before holds of it afterwards.
abbrev pub Saves : {C W : Type 0} → (W → Type 0) → Agent C W → Agent C W → Type 0
Saves P a b = P a.world → P b.world

-- Everything but the initialisation leaves `P` to hold of the world.
pub record IsSaved {C W : Type 0} (p : Program C W) (P : W → Type 0) : Type 0 where
  pub kept : IsKept p (Saves P)
  pub others_keep : Keeps (Saves P) p.others
  pub start_keeps : Keeps (Saves P) p.check_start_preconditions
  pub shutdown_keeps : Keeps (Saves P) p.on_shutdown

module _ {C W : Type 0} (P : W → Type 0) where
  pub Saves-order : Preorder (Saves {C = C} P)
  Saves-order = record { same = λ a h. h; then = λ a b c f g h. g (f h) }

  pub Saves-modify :
      (f : Agent C W → Agent C W)
      → ((a : Agent C W) → (f a).world ≡ a.world)
      → Keeps (Saves P) (modify f)
  Saves-modify f e = record { at = λ a h. subst P (sym (e a)) h }

  take_from-Saves : (ms : List MessageEnvelope) → Keeps (Saves {C = C} P) (take_from ms)
  unfolding take_from
  take_from-Saves [] = record { at = λ a h. h }
  take_from-Saves (m ∷ ms) = record { at = λ a h. h }

  survive-Saves : (e : Exception) → Keeps (Saves {C = C} P) (survive e)
  unfolding survive
  survive-Saves cancelled_error = Keeps-pure Saves-order false
  survive-Saves (base_exception t) = Keeps-raise Saves-order _
  survive-Saves _ = Keeps-pure Saves-order true

  loop_next-Saves : (b : Bool) (a : Agent C W) → Saves P a (loop_next b a)
  unfolding loop_next
  loop_next-Saves true a h = h
  loop_next-Saves false a h = h

  settle-Saves : (q : Result Bool × Agent C W) → Saves P q.1 (settle q)
  unfolding settle loop_test
  settle-Saves (ok true, a) h = loop_next-Saves a.shutdown_event a h
  settle-Saves (ok false, a) h = h
  settle-Saves (raised e, a) h = h

  finish-Saves : {A : Type 0} (r : Result A) (q : Result ⊤ × Agent C W) → Saves P q.1 (finish r q).1
  finish-Saves r (ok _, a) h = h
  finish-Saves r (raised e, a) h = h

module _ {C W : Type 0} (p : Program C W) (P : W → Type 0) (saved : IsSaved p P) where
  mark_done-world : (a : Agent C W) → (mark_done p a).1.world ≡ a.world
  unfolding mark_done
  mark_done-world a = ground arith

  mark_done-Saves : Keeps (Saves P) (mark_done p)
  mark_done-Saves = record { at = λ a h. subst P (sym (mark_done-world a)) h }

  handle_message-Saves : (m : MessageEnvelope) → Keeps (Saves P) (handle_message p m)
  unfolding handle_message
  handle_message-Saves m = record {
    at = λ a h.
        let (r, b) = try (attempt p m) (recover p m) a in
        finish-Saves P r (mark_done p b)
          (mark_done-Saves.at b ((tried-Keeps p saved.kept m).at a h));
  }

  iteration-Saves : Keeps (Saves P) (iteration p)
  unfolding iteration receive_and_handle take_message
  iteration-Saves =
      Keeps-try (Saves-order P) _ _
        (Keeps-bind (Saves-order P) _ _ saved.others_keep λ _.
          Keeps-bind (Saves-order P) _ _
            (record { at = λ a. (take_from-Saves P a.mailbox.items).at a })
            λ m.
              Keeps-bind (Saves-order P) _ _ (handle_message-Saves m)
                λ _. Keeps-pure (Saves-order P) true)
        (survive-Saves P)

  wake_at-Saves : (t : Option Task) (a : Agent C W) → Saves P a (wake_at p t a)
  unfolding wake_at loop_test
  wake_at-Saves (some created) a h = loop_next-Saves P a.shutdown_event a h
  wake_at-Saves (some polling) a h = settle-Saves P (iteration p a) (iteration-Saves.at a h)
  wake_at-Saves _ a h = h

  pub wake-Saves : (a : Agent C W) → Saves P a (wake p a)
  unfolding wake
  wake-Saves a = wake_at-Saves a.task a

  run_task-Saves : (n : ℕ) (a : Agent C W) → Saves P a (run_task p n a)
  unfolding run_task
  run_task-Saves zero a h = h
  run_task-Saves (suc n) a h = run_task-Saves n (wake p a) (wake-Saves a h)

  await_task-Saves :
      (n : ℕ) (a b : Agent C W) (r : Result ⊤) → await_task p n a ≡ some (r, b) → Saves P a b
  await_task-Saves n a b r e =
      subst (Saves P a) (await_task-run_task p n a b r e) (run_task-Saves n a)

  announce-Saves :
      (type : String) (payload : Payload) → Keeps (Saves P) (announce p.runtime type payload)
  announce-Saves = announce-Keeps p.runtime saved.kept.by_bus

  start_checked-Saves : (checked : Bool × String) → Keeps (Saves P) (start_checked p checked)
  unfolding start_checked
  start_checked-Saves (false, reason) =
      Keeps-bind (Saves-order P) _ _
        (announce-Saves "AGENT_START_PRECONDITIONS_VIOLATED" (refusal_payload reason))
        (λ _. Keeps-raise (Saves-order P) (start_refused reason))
  start_checked-Saves (true, reason) = record {
    at = λ a h.
        (announce-Saves "AGENT_STARTED" (started_payload a.state.session_id)).at
          (set_task created (set_result idle_result (set_status waiting a))) h;
  }

  pub start_at-Saves : (s : AgentStatus) → Keeps (Saves P) (start_at p s)
  unfolding start_at
  start_at-Saves initialized = Keeps-bind (Saves-order P) _ _ saved.start_keeps start_checked-Saves
  start_at-Saves _ = Keeps-raise (Saves-order P) _

  begin_shutdown-Saves : Keeps (Saves P) (begin_shutdown p)
  unfolding begin_shutdown
  begin_shutdown-Saves =
      Keeps-bind (Saves-order P) _ _
        (Saves-modify P (λ a. record a { shutdown_event = true }) (λ a. refl))
        λ _. saved.shutdown_keeps

  end_shutdown-Saves : Keeps (Saves P) (end_shutdown p)
  unfolding end_shutdown
  end_shutdown-Saves =
      Keeps-bind (Saves-order P) _ _ (Saves-modify P (set_status terminated) (λ a. refl))
        λ _. announce-Saves "AGENT_TERMINATED" (announcement "Agent has terminated successfully.")

  ended-Saves :
      (r : Result ⊤) (a c : Agent C W)
      → Saves P a c
      → Saves P a (continue (r, c) (λ _. end_shutdown p)).1
  ended-Saves (ok _) a c s h = end_shutdown-Saves.at c (s h)
  ended-Saves (raised e) a c s h = s h

  joined-Saves :
      (o : Option (Result ⊤ × Agent C W)) (n : ℕ) (a b : Agent C W)
      → await_task p n b ≡ o
      → Saves P a b
      → Saves P a (after p a (joined p o))
  unfolding joined
  joined-Saves none n a b e s h = h
  joined-Saves (some (r, c)) n a b e s h =
      ended-Saves r a c (λ h. await_task-Saves n b c r e (s h)) h

  begun-Saves :
      (r : Result ⊤) (n : ℕ) (a b : Agent C W)
      → Saves P a b
      → Saves P a (after p a (await_then_end p n (r, b)))
  unfolding await_then_end
  begun-Saves (raised e) n a b s = s
  begun-Saves (ok _) n a b s = joined-Saves (await_task p n b) n a b refl s

  pub shutdown-Saves : (n : ℕ) (a : Agent C W) → Saves P a (after p a (shutdown p n a))
  unfolding shutdown
  shutdown-Saves n a =
      let (r, b) = begin_shutdown p a in begun-Saves r n a b (begin_shutdown-Saves.at a)
