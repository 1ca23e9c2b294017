-- ===== src/Agent/Draining.antt =====
-- The loop's progress: messages that wait are taken.
use unified_runtime_primitiv.Base.{
  ℕ, suc, ◌≡◌, refl, sym, ◌∙◌, ap, true, false, some, List, [], ◌∷◌, ◌++◌, append-nil, append_assoc,
  length, arith,
}
use unified_runtime_primitiv.Data.{MessageEnvelope}
use unified_runtime_primitiv.Exec.{
  cancelled_error, base_exception, Returns, Result, ok, raised, ⊤, pure, continue, handle,
}
use unified_runtime_primitiv.Mailbox.{drop_items}
use unified_runtime_primitiv.Agent.State.{Agent, Program, polling, set_mailbox}
use unified_runtime_primitiv.Agent.Handling.{handle_message}
use unified_runtime_primitiv.Agent.Loop.{
  take_from, take_message, loop_next, loop_test, survive, settle, receive_and_handle, iteration,
  wake_at, wake,
}
use unified_runtime_primitiv.Agent.Frame.{Respects}
use unified_runtime_primitiv.Agent.Rounds.{front, taken_after, Grows-IsCounted}
use unified_runtime_primitiv.Agent.Coherence.{IsCoherent}
use unified_runtime_primitiv.Agent.Waking.{wake-Woken}
use unified_runtime_primitiv.Agent.Taking.{takes_at, wake_takes, run_task, wake-Flow}

-- Nobody ends the loop: the other tasks do not interrupt its wait, no hook or callback cancels it or
-- raises a `BaseException`, and none of them asks for a shutdown.
pub record Steady {C W : Type 0} (p : Program C W) : Type 0 where
  pub others_return : (a : Agent C W) → (p.others a).0 ≡ ok tt
  pub others_open :
      (a : Agent C W) → a.shutdown_event ≡ false → (p.others a).1.shutdown_event ≡ false
  pub handled :
      (m : MessageEnvelope) (a : Agent C W) (n : ℕ)
      → a.mailbox.unfinished_tasks ≡ suc n
      → a.shutdown_event ≡ false
      → Returns (handle_message p m a).0 × ((handle_message p m a).1.shutdown_event ≡ false)

-- The loop waits for a message, and no shutdown was asked for.
pub record IsLive {C W : Type 0} (a : Agent C W) : Type 0 where
  pub coherent : IsCoherent a
  pub waits : a.task ≡ some polling
  pub open_yet : a.shutdown_event ≡ false

module _ {C W : Type 0} where
  survive-ordinary :
      (r : Result ⊤) (a : Agent C W)
      → Returns r
      → handle (continue (r, a) (λ _. pure true)) survive ≡ (ok true, a)
  unfolding survive
  survive-ordinary (ok _) a h = refl
  survive-ordinary (raised cancelled_error) a h = absurd h
  survive-ordinary (raised (base_exception t)) a h = absurd h
  survive-ordinary (raised _) a h = refl

  settle-open :
      (a : Agent C W)
      → a.shutdown_event ≡ false
      → ((settle (ok true, a)).task ≡ some polling) × ((settle (ok true, a)).shutdown_event ≡ false)
  unfolding settle loop_test loop_next
  settle-open a h = rw h (refl, refl)

  taken_after-ok :
      (q : Result ⊤ × Agent C W) → q.0 ≡ ok tt → taken_after q ≡ front q.1.mailbox.items
  taken_after-ok (ok _, b) h = refl
  taken_after-ok (raised e, b) h = cc

abbrev rest_of : List MessageEnvelope → List MessageEnvelope
rest_of [] = []
rest_of (m ∷ ms) = ms

module _ {C W : Type 0} (p : Program C W) where
  -- The state in which the message that a run takes is handled.
  abbrev pub at_work : Agent C W → Agent C W
  at_work a =
      let b = (p.others a).1 in set_mailbox (drop_items (rest_of b.mailbox.items) b.mailbox) b

  -- What a run is that handles the message `m`: the handling, then the loop's test.
  abbrev pub handled_by : MessageEnvelope → Agent C W → Agent C W
  handled_by m a = settle (ok true, (handle_message p m (at_work a)).1)

  -- The runs of the task from `a` on take the messages `ms`, one by one, each in a state with `Q`,
  -- and handle them.
  abbrev pub TakesEach :
      (MessageEnvelope → Agent C W → Type 0) → List MessageEnvelope → Agent C W → Type 0
  TakesEach Q [] a = Unit
  TakesEach Q (m ∷ ms) a =
      (wake_takes p a ≡ m ∷ [])
      × (wake p a ≡ handled_by m a)
      × Q m (at_work a)
      × TakesEach Q ms (wake p a)

module _ {C W : Type 0} (p : Program C W) (respects : Respects p) (steady : Steady p) where
  iteration-handled :
      (a : Agent C W) (m : MessageEnvelope) (ms : List MessageEnvelope)
      → let b = (p.others a).1 in
        let t = handle_message p m (set_mailbox (drop_items ms b.mailbox) b) in
        b.mailbox.items ≡ m ∷ ms → Returns t.0 → iteration p a ≡ (ok true, t.1)
  unfolding iteration receive_and_handle take_message take_from
  iteration-handled a m ms e h =
      let b = (p.others a).1 in
      let (r, t) = handle_message p m (set_mailbox (drop_items ms b.mailbox) b) in
      rw (steady.others_return a, e) (survive-ordinary r t h)

  -- What one run does that takes the message `m`, with `ms` behind it.
  record First (a : Agent C W) (m : MessageEnvelope) (ms : List MessageEnvelope) : Type 0 where
    takes_m : wake_takes p a ≡ m ∷ []
    handles_m : wake p a ≡ handled_by p m a
    later : IsLive (wake p a)
    arrivals : List MessageEnvelope
    behind : (wake p a).mailbox.items ≡ ms ++ arrivals
    count : ℕ
    counted : (at_work p a).mailbox.unfinished_tasks ≡ suc count

  wake-First :
      (a : Agent C W) (m : MessageEnvelope) (ms : List MessageEnvelope)
      → IsLive a
      → a.mailbox.items ≡ m ∷ ms
      → First a m ms
  unfolding wake wake_at
  wake-First a m ms live e =
      let b = (p.others a).1 in
      let g = (respects.others.at a).grows in
      let front_is_m : b.mailbox.items ≡ m ∷ (ms ++ g.arrivals) = ground (arith, g.queued, e) in
      let takes_m : wake_takes p a ≡ m ∷ [] =
        ap (λ t. takes_at p t a) live.waits
        ∙ taken_after-ok (p.others a) (steady.others_return a)
        ∙ ap front front_is_m in
      let c = set_mailbox (drop_items (ms ++ g.arrivals) b.mailbox) b in
      let counted : b.mailbox.unfinished_tasks ≡ suc (length (ms ++ g.arrivals)) =
        omega (arith, Grows-IsCounted a b live.coherent.counted g, ap length front_is_m) in
      let (returns, open_yet) =
        steady.handled m c (length (ms ++ g.arrivals)) counted
          (steady.others_open a live.open_yet) in
      let t = (handle_message p m c).1 in
      let settled : wake p a ≡ settle (ok true, t) =
        ap (λ t. wake_at p t a) live.waits
        ∙ ap settle (iteration-handled a m (ms ++ g.arrivals) front_is_m returns) in
      let (waits, still_open) = settle-open t open_yet in
      let flow = wake-Flow p respects a live.coherent in
      record {
        takes_m = takes_m;
        handles_m =
            settled
            ∙ ap
                (λ es. settle (
                  ok true,
                  (handle_message p m (set_mailbox (drop_items (rest_of es) b.mailbox) b)).1,
                ))
                (sym front_is_m);
        later = record {
          coherent = (wake-Woken p respects a live.coherent).coherent;
          waits = ap (λ (x : Agent C W). x.task) settled ∙ waits;
          open_yet = ap (λ (x : Agent C W). x.shutdown_event) settled ∙ still_open;
        };
        arrivals = flow.arrivals;
        behind = ground (arith, flow.flow, takes_m, e);
        count = length (ms ++ g.arrivals);
        counted = counted;
      }

  all_taken_from :
      (Q : MessageEnvelope → Agent C W → Type 0)
      → ((m : MessageEnvelope) (c : Agent C W) (n : ℕ) → c.mailbox.unfinished_tasks ≡ suc n → Q m c)
      → (ms rest : List MessageEnvelope) (a : Agent C W) → IsLive a
      → a.mailbox.items ≡ ms ++ rest
      → TakesEach p Q ms a × IsLive (run_task p (length ms) a)
  unfolding run_task
  all_taken_from Q q [] rest a live e = (tt, live)
  all_taken_from Q q (m ∷ ms) rest a live e =
      let f = wake-First a m (ms ++ rest) live e in
      let (each, still) =
        all_taken_from Q q ms (rest ++ f.arrivals) (wake p a) f.later
          (f.behind ∙ append_assoc ms rest f.arrivals) in
      ((f.takes_m, f.handles_m, q m (at_work p a) f.count f.counted, each), still)

  -- If the subclass and the bus respect the agent's fields (`Respects`) and nobody ends the loop
  -- (`Steady`): a loop that waits takes every message that waits in the mailbox, one in a run and
  -- in their order, whatever arrives meanwhile, and handles it; then it waits again. In the states
  -- in which they are handled whatever `Q` holds that holds of every message which stands in the
  -- mailbox's count.
  pub waiting_are_taken :
      (Q : MessageEnvelope → Agent C W → Type 0)
      → ((m : MessageEnvelope) (c : Agent C W) (n : ℕ) → c.mailbox.unfinished_tasks ≡ suc n → Q m c)
      → (a : Agent C W) → IsLive a
      → TakesEach p Q a.mailbox.items a × IsLive (run_task p (length a.mailbox.items) a)
  waiting_are_taken Q q a live =
      all_taken_from Q q a.mailbox.items [] a live (sym (append-nil a.mailbox.items))
