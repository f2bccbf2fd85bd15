-- ===== src/QueuePool/Tasks.antt =====
-- Tasks in the pool with a queue for each worker: where they are put, and that a worker runs all of its
-- own before it ends.
use native.Mathlib.Nat.{mod-lt}
use mathlib.Core.Option
use luce.Prelude.{
  ℕ, zero, suc, ◌%◌, ◌^◌, ◌≡◌, ◌<◌, ◌≤◌, refl, Bool, true, false, some, List, [], ◌∷◌, length,
  if◌then◌else◌, ltb, ◌==◌, get_elem?, ok, undefined, exits, arith, sym, ap, ◌∙◌, subst, map,
}
use luce.Queue.{BlockingQueue, pop, stop, size}
use luce.Queue.Many.{total, size_loop-total, push_to-out, push_to-total}
use luce.QueuePool.{
  ThreadPool, no_id, random_id, commit, commit_by_id, task_num, worker_loop, shutdown,
}

positive : (n : ℕ) → 1 ≤ n → (n == 0) ≡ false
positive n h = ground arith

get_elem?-map :
    {A : Type 0} (f : A → A) (xs : List A) (i : ℕ) (x : A)
    → get_elem? xs i ≡ some x
    → get_elem? (map f xs) i ≡ some (f x)
get_elem?-map f [] zero x h = cc
get_elem?-map f [] (suc i) x h = cc
get_elem?-map f (y ∷ xs) zero x h = ap (λ o. Option.map f o) h
get_elem?-map f (y ∷ xs) (suc i) x h = get_elem?-map f xs i x h

module _ {T : Type 0} where
  -- a pool of at least one worker, as its constructor makes it and its operations keep it
  abbrev pub IsPool : ThreadPool T → Type 0
  IsPool p = (length p.queues_ ≡ p.thread_num_) × (1 ≤ p.thread_num_)

  task_num-IsPool : (p : ThreadPool T) → IsPool p → task_num p ≡ ok (total p.queues_)
  unfolding task_num
  task_num-IsPool p (size, _) = rw (← size) (size_loop-total undefined p.queues_)

  -- Commit on a pool with at least one worker returns, keeps the pool well-formed, and TaskNum is one
  -- more than it was.
  commit-task_num :
      (random : ℕ) (task : T) (p : ThreadPool T)
      → IsPool p
      → (p' : ThreadPool T) × (n : ℕ) × (commit random task p ≡ ok p')
        × IsPool p'
        × (task_num p ≡ ok n)
        × (task_num p' ≡ ok (suc n))
  unfolding commit random_id
  commit-task_num random task p (size, some_worker) =
      let id = random % p.thread_num_ in
      let (qs, e, same_size, more) =
        push_to-total id task p.queues_ (subst (id <◌) (sym size) (mod-lt random some_worker)) in
      let p' : ThreadPool T = record p { queues_ = qs } in
      let well : IsPool p' = (same_size ∙ size, some_worker) in
      (
        p',
        total p.queues_,
        rw (positive p.thread_num_ some_worker, e) refl,
        well,
        task_num-IsPool p (size, some_worker),
        task_num-IsPool p' well ∙ ap ok more,
      )

  -- CommitById with its default id runs into its assertion or, where assertions are off, pushes to a
  -- queue that is not there: an id of type size_t is never below 0.
  commit_by_id-no_id :
      (ndebug : Bool) (random : ℕ) (func : T) (p : ThreadPool T)
      → IsPool p
      → p.thread_num_ < 2 ^ 64
      → p.stop_ ≡ false
      → commit_by_id ndebug random (some func) no_id p ≡ (if ndebug then undefined else exits)
  unfolding commit_by_id
  commit_by_id-no_id true random func p (size, _) small running =
      let out = push_to-out no_id func p.queues_ (omega arith) in rw (running, out) refl
  commit_by_id-no_id false random func p (size, _) small running =
      let far : ltb no_id p.thread_num_ ≡ false = ground arith in rw (running, far) refl

  drains :
      (ts : List T)
      → worker_loop (suc (length ts)) true record { queue_ = ts; stop_ = true } ≡ ok ts
  unfolding worker_loop pop
  drains [] = refl
  drains (t ∷ ts) = rw (drains ts) refl

  -- After Shutdown the worker of each queue runs the tasks of the queue in their order, all of them, and
  -- returns.
  pub worker_loop-shutdown :
      (i : ℕ) (q : BlockingQueue T) (p : ThreadPool T)
      → get_elem? p.queues_ i ≡ some q
      → (get_elem? (shutdown p).queues_ i ≡ some (stop q))
        × (worker_loop (suc (size q)) (shutdown p).stop_ (stop q) ≡ ok q.queue_)
  unfolding shutdown stop size
  worker_loop-shutdown i q p h = (get_elem?-map stop p.queues_ i q h, drains q.queue_)
