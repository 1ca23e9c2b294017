-- ===== src/Agent/Opening.antt =====
-- Actions that do not ask for a shutdown.
use unified_runtime_primitiv.Base.{◌≡◌, refl, ◌∙◌, false, arith}
use unified_runtime_primitiv.Data.{MessageEnvelope}
use unified_runtime_primitiv.Exec.{Result, ok, raised, ⊤, modify, try, finish}
use unified_runtime_primitiv.Exec.Keeps.{Keeps, Preorder}
use unified_runtime_primitiv.Agent.State.{Agent, Program}
use unified_runtime_primitiv.Agent.Handling.{attempt, recover, mark_done, handle_message}
use unified_runtime_primitiv.Agent.Keeping.{IsKept, tried-Keeps}

module _ {C W : Type 0} where
  -- If no shutdown was asked for before, none is afterwards.
  pub record Opens (a b : Agent C W) : Type 0 where
    pub opens : a.shutdown_event ≡ false → b.shutdown_event ≡ false

  pub Opens-order : Preorder Opens
  Opens-order = record {
    same = λ a. record { opens = λ h. h };
    then = λ a b c f g. record { opens = λ h. g.opens (f.opens h) };
  }

  pub Opens-modify :
      (f : Agent C W → Agent C W)
      → ((a : Agent C W) → (f a).shutdown_event ≡ a.shutdown_event)
      → Keeps Opens (modify f)
  Opens-modify f h = record { at = λ a. record { opens = λ e. h a ∙ e } }

  pub finish-state : {A : Type 0} (r : Result A) (q : Result ⊤ × Agent C W) → (finish r q).1 ≡ q.1
  finish-state r (ok _, a) = refl
  finish-state r (raised e, a) = refl

module _ {C W : Type 0} (p : Program C W) where
  mark_done-event : (a : Agent C W) → (mark_done p a).1.shutdown_event ≡ a.shutdown_event
  unfolding mark_done
  mark_done-event a = ground arith

  pub handle_message-Opens :
      IsKept p Opens → (m : MessageEnvelope) → Keeps Opens (handle_message p m)
  unfolding handle_message
  handle_message-Opens kept m = record {
    at = λ a.
        let (r, t) = try (attempt p m) (recover p m) a in
        record {
          opens = λ h.
              rw (finish-state r (mark_done p t))
                (mark_done-event t ∙ ((tried-Keeps p kept m).at a).opens h);
        };
  }
