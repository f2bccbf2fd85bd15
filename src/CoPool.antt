-- ===== src/CoPool.antt =====
-- luce/co/co_thread_pool.{h,cpp}: the pool that resumes coroutines. A handle is `H`, a null one `none`;
-- `random` is what rand() gives, `ndebug` whether assert does nothing, and `locks i` whether the mutex
-- that the round `i` of a loop tries is free. The core bindings are in Cores.
pub mod Scheduled
pub mod Stealing
pub mod Cores
use luce.Prelude.{
  ℕ, zero, suc, ◌+◌, ◌*◌, ◌%◌, Bool, true, false, not, ◌||◌, Option, none, some, List, [], ◌∷◌, map,
  replicate, if◌then◌else◌, ltb, ◌==◌, get_elem?, set, ℤ, pos, negsuc, Outcome, ok, throws,
  undefined, exits, ◌>>=◌, or_undefined,
}
use luce.Queue.{BlockingQueue, new_queue, try_push, try_pop_if, pop, stop}
use luce.Queue.Many.{push_to, size_loop}

pub record TaskItem (H : Type 0) : Type 0 where
  pub handle : Option H
  pub can_steal : Bool

pub record ThreadPool (H : Type 0) : Type 0 where
  pub thread_num_ : ℕ
  pub task_queues_ : List (BlockingQueue (TaskItem H))
  pub stopped_ : Bool
  pub enable_work_steal_ : Bool

-- what a worker's round comes to: it waits in pop, resumes a coroutine, goes around, or ends
pub data Round (H : Type 0) : Type 0 where
  waits : Round H
  resumes : H → Round H
  again : Round H
  ends : Round H

-- std::vector's at
abbrev pub or_throws : {A : Type 0} → Option A → Outcome A
or_throws none = throws
or_throws (some a) = ok a

module _ {H : Type 0} where
  -- `cores` is std::thread::hardware_concurrency()
  unfoldable pub new_pool : ℕ → ℕ → Bool → ThreadPool H
  new_pool cores thread_num enable_work_steal = record {
    thread_num_ = if thread_num == 0 then cores else thread_num;
    task_queues_ = replicate thread_num new_queue;
    stopped_ = false;
    enable_work_steal_ = enable_work_steal;
  }

  -- the destructor as far as the joins of the threads
  unfoldable pub stop_pool : ThreadPool H → ThreadPool H
  stop_pool p = record p { stopped_ = true; task_queues_ = map stop p.task_queues_ }

  -- the loop over try_push, with `count` rounds left of which `i` is the first: the queues when a
  -- push succeeded
  unfoldable pub push_loop :
      (ℕ → Bool) → ℕ → ℕ → TaskItem H → ThreadPool H → Outcome (Option (ThreadPool H))
  push_loop locks zero i item p = ok none
  push_loop locks (suc count) i item p = do
    let id = i % p.thread_num_
    let later = push_loop locks count (suc i) item p
    q ← or_throws (get_elem? p.task_queues_ id)
    let (pushed, q') = try_push (locks i) item q
    if pushed then ok (some record p { task_queues_ = set p.task_queues_ id q' }) else later

  unfoldable pub push_item : ℕ → TaskItem H → ThreadPool H → Outcome (ThreadPool H)
  push_item id item p = do qs ← push_to id item p.task_queues_; ok record p { task_queues_ = qs }

  -- rand() % thread_num_, and the push
  unfoldable pub push_random : ℕ → H → ThreadPool H → Outcome (ThreadPool H)
  push_random random coro p =
      let item : TaskItem H = record { handle = some coro; can_steal = p.enable_work_steal_ } in
      if p.thread_num_ == 0 then undefined else push_item (random % p.thread_num_) item p

  unfoldable pub push_somewhere : (ℕ → Bool) → ℕ → H → ThreadPool H → Outcome (ThreadPool H)
  push_somewhere locks random coro p = do
    let item : TaskItem H = record { handle = some coro; can_steal = true }
    pushed ← if p.enable_work_steal_ then push_loop locks (p.thread_num_ * 2) 0 item p else ok none
    elim pushed [ some p' ↦ ok p' | none ↦ push_random random coro p ]

  -- An id below -1 is, as a size_t, not less than the number of threads, nor the index of a queue.
  unfoldable pub push_by_id : Bool → (ℕ → Bool) → ℕ → H → ℤ → ThreadPool H → Outcome (ThreadPool H)
  push_by_id ndebug locks random coro (negsuc zero) p = push_somewhere locks random coro p
  push_by_id ndebug locks random coro (negsuc (suc n)) p = if ndebug then undefined else exits
  push_by_id ndebug locks random coro (pos id) p =
      let item : TaskItem H = record { handle = some coro; can_steal = false } in
      if ndebug || ltb id p.thread_num_ then push_item id item p else exits

  unfoldable pub schedule_by_id :
      Bool → (ℕ → Bool) → ℕ → Option H → ℤ → ThreadPool H → Outcome (ThreadPool H)
  schedule_by_id ndebug locks random none id p = ok p
  schedule_by_id ndebug locks random (some coro) id p =
      if p.stopped_ then ok p else push_by_id ndebug locks random coro id p

  unfoldable pub get_item_count : ThreadPool H → Outcome ℕ
  get_item_count p = size_loop throws p.thread_num_ p.task_queues_

  -- the loop over try_pop_if, from the worker's own queue on: the item, if any, and the pool
  unfoldable pub steal_loop :
      (ℕ → Bool) → ℕ → ℕ → ℕ → ThreadPool H → Outcome (Option (TaskItem H) × ThreadPool H)
  steal_loop locks zero i id p = ok (none, p)
  steal_loop locks (suc count) i id p = do
    let index = (id + i) % p.thread_num_
    let later = steal_loop locks count (suc i) id p
    q ← or_undefined (get_elem? p.task_queues_ index)
    let (item, q') = try_pop_if (locks i) (some (λ t. t.can_steal)) q
    elim item [
      | none ↦ later
      | some t ↦ ok (some t, record p { task_queues_ = set p.task_queues_ index q' })
    ]

  -- task_queues_[id].pop, where no coroutine was stolen
  unfoldable pub pop_own : ℕ → ThreadPool H → Outcome (Round H × ThreadPool H)
  pop_own id p = do
    q ← or_undefined (get_elem? p.task_queues_ id)
    elim (pop q) [
      | none ↦ ok (waits, p)
      | some r ↦
          let p' : ThreadPool H = record p { task_queues_ = set p.task_queues_ id r.1 } in
          elim r.0 [
            | none ↦ ok (if p.stopped_ then ends else again, p')
            | some t ↦ elim t.handle [ none ↦ ok (again, p') | some h ↦ ok (resumes h, p') ]
          ]
    ]

  -- a round of the worker `id`
  unfoldable pub worker_round : (ℕ → Bool) → ℕ → ThreadPool H → Outcome (Round H × ThreadPool H)
  worker_round locks id p = do
    (item, p') ←
        if p.enable_work_steal_ then steal_loop locks p.thread_num_ 0 id p else ok (none, p)
    elim item [
      | none ↦ pop_own id p'
      | some t ↦ elim t.handle [ none ↦ pop_own id p' | some h ↦ ok (resumes h, p') ]
    ]
