-- ===== src/Agent/Rounds.antt =====
-- One run of the loop's task, and the messages that it takes from the mailbox.
use unified_runtime_primitiv.Base.{
  suc, ◌≤◌, ◌≡◌, refl, ◌∙◌, ap, ◌⊎◌, ◌≢◌, none, List, [], ◌∷◌, ◌++◌, length, arith, append_assoc,
  true, inl, length-append, sym, subst,
}
use unified_runtime_primitiv.Data.{MessageEnvelope, processing}
use unified_runtime_primitiv.Exec.{
  Exception, timeout_error, cancelled_error, base_exception, Result, ok, raised, ⊤, pure, continue,
  handle, try,
}
use unified_runtime_primitiv.Mailbox.{drop_items}
use unified_runtime_primitiv.Agent.State.{Agent, Program, set_mailbox}
use unified_runtime_primitiv.Agent.Handling.{attempt, recover, handle_message}
use unified_runtime_primitiv.Agent.Loop.{
  take_from, take_message, survive, receive_and_handle, iteration,
}
use unified_runtime_primitiv.Agent.Frame.{Grows, Leaves, Works, Respects}
use unified_runtime_primitiv.Agent.Work.{IsCounted, tried-Works, handle_message_lem}

-- The first of the waiting messages, if there is one.
abbrev pub front : List MessageEnvelope → List MessageEnvelope
front [] = []
front (m ∷ ms) = m ∷ []

module _ {C W : Type 0} where
  -- What the loop takes once the other tasks have run, with this outcome.
  abbrev pub taken_after : Result ⊤ × Agent C W → List MessageEnvelope
  taken_after (ok _, b) = front b.mailbox.items
  taken_after (raised e, b) = []

  -- From `a` to `b` the messages `taken` have left the mailbox at its front.
  pub record Round (taken : List MessageEnvelope) (a b : Agent C W) : Type 0 where
    pub arrivals : List MessageEnvelope
    pub flow : a.mailbox.items ++ arrivals ≡ taken ++ b.mailbox.items
    pub at_most_one : length taken ≤ 1
    pub counted : IsCounted b
    pub stops : a.shutdown_event ≡ true → b.shutdown_event ≡ true
    pub same_task : b.task ≡ a.task
    pub same_descriptor : b.descriptor ≡ a.descriptor
    pub same_context : b.context ≡ a.context
    pub same_session : b.state.session_id ≡ a.state.session_id
    pub recorded : a.state.last_process_result ≢ none → b.state.last_process_result ≢ none
    pub worked : (b.state.status ≡ a.state.status) ⊎ (b.state.status ≡ processing)

  pub survive-state : (e : Exception) (a : Agent C W) → (survive e a).1 ≡ a
  unfolding survive
  survive-state cancelled_error a = refl
  survive-state (base_exception t) a = refl
  survive-state _ a = refl

  pub closing-state :
      (r : Result ⊤) (a : Agent C W) → (handle (continue (r, a) (λ _. pure true)) survive).1 ≡ a
  closing-state (ok _) a = refl
  closing-state (raised e) a = survive-state e a

  pub Grows-IsCounted : (a b : Agent C W) → IsCounted a → Grows a b → IsCounted b
  Grows-IsCounted a b counted g =
      omega
        (arith, counted, g.counted, ap length g.queued, length-append a.mailbox.items g.arrivals)

  -- Nothing was taken.
  Round-none : (a b : Agent C W) → IsCounted a → Leaves a b → Round [] a b
  Round-none a b counted l = record {
    arrivals = l.grows.arrivals;
    flow = sym l.grows.queued;
    at_most_one = omega arith;
    counted = Grows-IsCounted a b counted l.grows;
    stops = l.grows.stops;
    same_task = l.grows.same_task;
    same_descriptor = l.grows.same_descriptor;
    same_context = l.grows.same_context;
    same_session = l.grows.same_session;
    recorded = λ h e. h (sym l.same_result ∙ e);
    worked = inl l.same_status;
  }

module _ {C W : Type 0} (p : Program C W) (respects : Respects p) where
  -- The message `m` was taken from `b`, and handled.
  Round-one :
      (a b : Agent C W) (m : MessageEnvelope) (ms : List MessageEnvelope)
      → IsCounted a
      → Leaves a b
      → b.mailbox.items ≡ m ∷ ms
      → Round (m ∷ []) a (handle_message p m (set_mailbox (drop_items ms b.mailbox) b)).1
  Round-one a b m ms counted l e =
      subst (λ (q : Result ⊤ × Agent C W). Round (m ∷ []) a q.1)
        (sym (handle_message_lem p respects m c (length ms) counted'))
        (record {
          arrivals = l.grows.arrivals ++ w.grows.arrivals;
          flow = ground (
            arith,
            append_assoc a.mailbox.items l.grows.arrivals w.grows.arrivals,
            w.grows.queued,
          );
          at_most_one = omega arith;
          counted = omega (arith, ap length w.grows.queued, length-append ms w.grows.arrivals);
          stops = λ h. w.grows.stops (l.grows.stops h);
          same_task = w.grows.same_task ∙ l.grows.same_task;
          same_descriptor = w.grows.same_descriptor ∙ l.grows.same_descriptor;
          same_context = w.grows.same_context ∙ l.grows.same_context;
          same_session = w.grows.same_session ∙ l.grows.same_session;
          recorded = λ h. w.recorded (λ e. h (sym l.same_result ∙ e));
          worked = ground (arith, w.worked, l.same_status);
        })
    where
      c : Agent C W
      c = set_mailbox (drop_items ms b.mailbox) b

      counted' : c.mailbox.unfinished_tasks ≡ suc (length ms)
      counted' = omega (arith, Grows-IsCounted a b counted l.grows, ap length e)

      w : Works c (try (attempt p m) (recover p m) c).1
      w = (tried-Works p respects m).at c

  after_take :
      (a b : Agent C W) (items : List MessageEnvelope)
      → IsCounted a
      → Leaves a b
      → b.mailbox.items ≡ items
      → Round
          (front items)
          a
          (handle
            (continue (take_from items b) (λ m s. continue (handle_message p m s) λ _. pure true))
            survive).1
  unfolding take_from
  after_take a b [] counted l e = rw (survive-state timeout_error b) (Round-none a b counted l)
  after_take a b (m ∷ ms) counted l e =
      let (r, t) = handle_message p m (set_mailbox (drop_items ms b.mailbox) b) in
      rw (closing-state r t) (Round-one a b m ms counted l e)

  after_others :
      (a b : Agent C W) (r : Result ⊤)
      → IsCounted a
      → Leaves a b
      → Round
          (taken_after (r, b))
          a
          (handle (continue (r, b) (λ _. receive_and_handle p)) survive).1
  unfolding receive_and_handle take_message
  after_others a b (ok _) counted l = after_take a b b.mailbox.items counted l refl
  after_others a b (raised e) counted l = rw (survive-state e b) (Round-none a b counted l)

  pub iteration-Round :
      (a : Agent C W) → IsCounted a → Round (taken_after (p.others a)) a (iteration p a).1
  unfolding iteration
  iteration-Round a counted =
      let (r, b) = p.others a in after_others a b r counted (respects.others.at a)
