-- ===== src/Mailbox.antt =====
-- `asyncio.Queue`, without a size limit, as the agent's mailbox and the host's event queue use it:
-- the waiting items, oldest first, and the count that `put` raises and `task_done` lowers.
use unified_runtime_primitiv.Base.{
  ℕ, zero, suc, ◌+◌, List, [], ◌∷◌, ◌++◌, length, Option, none, some,
}

pub record Mailbox (A : Type 0) : Type 0 where
  pub items : List A
  pub unfinished_tasks : ℕ

-- `none` is the `ValueError` of one call too many.
abbrev one_less : ℕ → Option ℕ
one_less zero = none
one_less (suc n) = some n

module _ {A : Type 0} where
  abbrev pub empty : Mailbox A
  empty = record { items = []; unfinished_tasks = 0 }

  abbrev pub put : A → Mailbox A → Mailbox A
  put a q = record { items = q.items ++ a ∷ []; unfinished_tasks = q.unfinished_tasks + 1 }

  abbrev pub qsize : Mailbox A → ℕ
  qsize q = length q.items

  -- What taking an item leaves. The count stays until `task_done`.
  abbrev pub drop_items : List A → Mailbox A → Mailbox A
  drop_items items q = record q { items = items }

  abbrev pub task_done : Mailbox A → Option (Mailbox A)
  task_done q = elim (one_less q.unfinished_tasks) [
    | none ↦ none
    | some n ↦ some (record q { unfinished_tasks = n })
  ]
