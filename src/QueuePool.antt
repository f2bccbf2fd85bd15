-- ===== src/QueuePool.antt =====
-- luce/common/blocking_queue_thread_pool.h: the pool with a queue for each worker. `random` is what
-- rand() gives; a size_t is below 2^64. `ndebug` is whether the build defines NDEBUG, with which
-- assert does nothing. A task is `T`; an empty std::function is `none`.
pub mod Tasks
use luce.Prelude.{
  ℕ, zero, suc, ◌%◌, ◌^◌, ◌-◌, Bool, true, false, not, ◌&&◌, ◌||◌, Option, none, some, List, [],
  ◌∷◌, ◌++◌, map, replicate, if◌then◌else◌, ltb, ◌==◌, get_elem?, set, Outcome, ok, undefined,
  exits, out_of_fuel, ◌>>=◌, or_undefined,
}
use luce.Queue.{BlockingQueue, new_queue, pop, stop}
use luce.Queue.Many.{push_to, size_loop}

pub record ThreadPool (T : Type 0) : Type 0 where
  pub queues_ : List (BlockingQueue T)
  pub thread_num_ : ℕ
  pub stop_ : Bool

-- the default argument -1 of a size_t
abbrev pub no_id : ℕ
no_id = 2 ^ 64 - 1

-- assert(test), which aborts
abbrev pub assert_ : Bool → Bool → Outcome Bool
assert_ ndebug test = if ndebug || test then ok true else exits

module _ {T : Type 0} where
  unfoldable pub new_pool : ℕ → ThreadPool T
  new_pool thread_num = record {
    queues_ = replicate thread_num new_queue;
    thread_num_ = thread_num;
    stop_ = false;
  }

  -- rand() % thread_num_
  unfoldable pub random_id : ℕ → ThreadPool T → Outcome ℕ
  random_id random p = if p.thread_num_ == 0 then undefined else ok (random % p.thread_num_)

  unfoldable pub commit : ℕ → T → ThreadPool T → Outcome (ThreadPool T)
  commit random task p = do
    id ← random_id random p
    qs ← push_to id task p.queues_
    ok record p { queues_ = qs }

  unfoldable pub commit_by_id :
      Bool → ℕ → Option T → ℕ → ThreadPool T → Outcome (Bool × ThreadPool T)
  commit_by_id ndebug random none id p = ok (false, p)
  commit_by_id ndebug random (some func) id p = if p.stop_ then ok (false, p) else (do
    id' ← if ltb id 0 then random_id random p else ok id
    _ ← assert_ ndebug (ltb id' p.thread_num_)
    qs ← push_to id' func p.queues_
    ok (true, record p { queues_ = qs }))

  unfoldable pub task_num : ThreadPool T → Outcome ℕ
  task_num p = size_loop undefined p.thread_num_ p.queues_

  -- Shutdown as far as the joins of the threads
  unfoldable pub shutdown : ThreadPool T → ThreadPool T
  shutdown p = record p { stop_ = true; queues_ = map stop p.queues_ }

  -- The loop of the worker of one queue after Shutdown, when no task is pushed any more: the tasks it
  -- runs before it returns. A pop that waits would not come back.
  unfoldable pub worker_loop : ℕ → Bool → BlockingQueue T → Outcome (List T)
  worker_loop zero stop_ q = out_of_fuel
  worker_loop (suc fuel) stop_ q = elim (pop q) [
    | none ↦ out_of_fuel
    | some r ↦ elim r.0 [
      | none ↦ if stop_ then ok [] else worker_loop fuel stop_ r.1
      | some task ↦ do ran ← worker_loop fuel stop_ r.1; ok (task ∷ ran)
    ]
  ]
