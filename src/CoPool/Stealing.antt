-- ===== src/CoPool/Stealing.antt =====
-- What a round of a worker takes: its own items in their order, and of the others' only those that may
-- be stolen.
use luce.Prelude.{ℕ, suc, ◌≡◌, ◌<◌, Bool, true, Option, none, some, length, set, Outcome, ok}
use luce.Queue.{BlockingQueue, try_pop_if}
use luce.Queue.Many.{total}
use luce.CoPool.{TaskItem, ThreadPool}
use luce.CoPool.Scheduled.{IsPool}

module _ {H : Type 0} where
  -- what a search for an item to steal comes to, and the pool it leaves
  abbrev pub Found : ThreadPool H → Option (TaskItem H) → ThreadPool H → Type 0
  Found p none p' = p' ≡ p
  Found p (some t) p' =
      IsPool p' × (t.can_steal ≡ true) × (total p.task_queues_ ≡ suc (total p'.task_queues_))

  abbrev try_steal :
      Bool → BlockingQueue (TaskItem H) → (Option (TaskItem H) × BlockingQueue (TaskItem H))
  try_steal lock q = try_pop_if lock (some (λ t. t.can_steal)) q

  -- a try_pop_if gives nothing, or an item that may be stolen, taken from its front
  abbrev Takes :
      BlockingQueue (TaskItem H) → (Option (TaskItem H) × BlockingQueue (TaskItem H)) → Type 0
  Takes q (none, q') = Unit
  Takes q (some t, q') = (t.can_steal ≡ true) × (length q.queue_ ≡ suc (length q'.queue_))

  -- what the round makes of it
  abbrev settle :
      ThreadPool H
      → ℕ
      → Outcome (Option (TaskItem H) × ThreadPool H)
      → (Option (TaskItem H) × BlockingQueue (TaskItem H))
      → Outcome (Option (TaskItem H) × ThreadPool H)
  settle p index later r = elim r.0 [
    | none ↦ later
    | some t ↦ ok (some t, record p { task_queues_ = set p.task_queues_ index r.1 })
  ]

  abbrev Finds : ThreadPool H → Outcome (Option (TaskItem H) × ThreadPool H) → Type 0
  Finds p result =
      (item : Option (TaskItem H)) × (p' : ThreadPool H) × (result ≡ ok (item, p'))
      × Found p item p'
