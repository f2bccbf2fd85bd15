-- ===== src/Queue.antt =====
-- luce/common/blocking_queue.h: each method body runs under the queue's mutex, so a run of several
-- threads is a sequence of whole operations. `pop` on an empty queue that is not stopped waits, and
-- so is no step of such a sequence; `try_lock` is whether the mutex was free.
pub mod Fifo
pub mod Many
use luce.Prelude.{
  ℕ, zero, suc, Bool, true, false, not, ◌&&◌, Option, none, some, List, [], ◌∷◌, ◌++◌, length,
  if◌then◌else◌,
}

pub record BlockingQueue (T : Type 0) : Type 0 where
  pub queue_ : List T
  pub stop_ : Bool

module _ {T : Type 0} where
  abbrev pub new_queue : BlockingQueue T
  new_queue = record { queue_ = []; stop_ = false }

  unfoldable pub push : T → BlockingQueue T → BlockingQueue T
  push value q = record q { queue_ = q.queue_ ++ (value ∷ []) }

  unfoldable pub try_push : Bool → T → BlockingQueue T → Bool × BlockingQueue T
  try_push try_lock value q =
      if not try_lock then (false, q) else (true, record q { queue_ = q.queue_ ++ (value ∷ []) })

  -- none: the caller waits; otherwise what it returns with, the item none for false
  unfoldable pub pop : BlockingQueue T → Option (Option T × BlockingQueue T)
  pop q = elim q.queue_ [
    | [] ↦ if q.stop_ then some (none, q) else none
    | x ∷ xs ↦ some (some x, record q { queue_ = xs })
  ]

  -- the null predicate is `none`
  unfoldable pub try_pop_if :
      Bool → Option (T → Bool) → BlockingQueue T → Option T × BlockingQueue T
  try_pop_if try_lock predict q = if not try_lock then (none, q) else elim q.queue_ [
    | [] ↦ (none, q)
    | x ∷ xs ↦ elim predict [
      | none ↦ (some x, record q { queue_ = xs })
      | some test ↦ if test x then (some x, record q { queue_ = xs }) else (none, q)
    ]
  ]

  unfoldable pub size : BlockingQueue T → ℕ
  size q = length q.queue_

  unfoldable pub empty : BlockingQueue T → Bool
  empty q = elim q.queue_ [ [] ↦ true | _ ∷ _ ↦ false ]

  unfoldable pub stop : BlockingQueue T → BlockingQueue T
  stop q = record q { stop_ = true }
