-- ===== src/CoPool/Scheduled.antt =====
-- What ScheduleById does to the number of items, and what becomes of a pool of no threads.
use native.Mathlib.Nat.{mod-lt}
use luce.Prelude.{
  ℕ, zero, suc, ◌*◌, ◌%◌, ◌≡◌, ◌⊎◌, ◌<◌, ◌≤◌, refl, sym, ap, ◌∙◌, subst, Bool, true, false, ◌||◌,
  none, some, [], ◌∷◌, ◌++◌, length, if◌then◌else◌, ltb, ◌==◌, set, ℤ, pos, negsuc, ok, throws,
  undefined, arith, length-set, length-append, inl, inr, Bool-cases, lt→ltb,
}
use luce.Queue.{BlockingQueue, try_push}
use luce.Queue.Many.{
  push_to, size_loop, total, size_loop-total, push_to-total, total-set, get_elem?-in,
}
use luce.CoPool.{
  TaskItem, ThreadPool, new_pool, push_loop, push_item, push_random, push_somewhere, push_by_id,
  schedule_by_id, get_item_count,
}

positive : (n : ℕ) → 1 ≤ n → (n == 0) ≡ false
positive n h = ground arith

either : (a b : Bool) → b ≡ true → (a || b) ≡ true
either true b h = refl
either false b h = h

module _ {H : Type 0} where
  abbrev pub IsPool : ThreadPool H → Type 0
  IsPool p = (length p.task_queues_ ≡ p.thread_num_) × (1 ≤ p.thread_num_)

  -- the second pool is the first with one item more
  abbrev pub OneMore : ThreadPool H → ThreadPool H → Type 0
  OneMore p p' = IsPool p' × (total p'.task_queues_ ≡ suc (total p.task_queues_))

  -- -1, or the number of a worker
  abbrev pub IsId : ℤ → ThreadPool H → Type 0
  IsId (negsuc zero) p = Unit
  IsId (negsuc (suc n)) p = ⊥
  IsId (pos id) p = id < p.thread_num_

  push_item-OneMore :
      (id : ℕ) (item : TaskItem H) (p : ThreadPool H)
      → IsPool p
      → id < p.thread_num_
      → (p' : ThreadPool H) × (push_item id item p ≡ ok p') × OneMore p p'
  unfolding push_item
  push_item-OneMore id item p (size, some_worker) h =
      let (qs, e, same_size, more) =
        push_to-total id item p.task_queues_ (subst (id <◌) (sym size) h) in
      (record p { task_queues_ = qs }, rw e refl, ((same_size ∙ size, some_worker), more))

  push_loop-OneMore :
      (locks : ℕ → Bool) (count i : ℕ) (item : TaskItem H) (p : ThreadPool H)
      → IsPool p
      → (push_loop locks count i item p ≡ ok none)
        ⊎ ((p' : ThreadPool H) × (push_loop locks count i item p ≡ ok (some p')) × OneMore p p')
  unfolding push_loop try_push
  push_loop-OneMore locks zero i item p w = inl refl
  push_loop-OneMore locks (suc count) i item p (size, some_worker) =
      let id = i % p.thread_num_ in
      let (q, e) =
        get_elem?-in p.task_queues_ id (subst (id <◌) (sym size) (mod-lt i some_worker)) in
      elim (Bool-cases (locks i)) [
        | inl free ↦
            let q' : BlockingQueue (TaskItem H) = record q { queue_ = q.queue_ ++ item ∷ [] } in
            inr (
              record p { task_queues_ = set p.task_queues_ id q' },
              rw (e, free) refl,
              (
                (length-set p.task_queues_ id q' ∙ size, some_worker),
                omega
                    (arith, total-set p.task_queues_ id q q' e, length-append q.queue_ (item ∷ [])),
              ),
            )
        | inr taken ↦ elim (push_loop-OneMore locks count (suc i) item p (size, some_worker)) [
          | inl none_free ↦ inl (rw (e, taken) none_free)
          | inr (p', later, more) ↦ inr (p', rw (e, taken) later, more)
        ]
      ]

  push_random-OneMore :
      (random : ℕ) (coro : H) (p : ThreadPool H)
      → IsPool p
      → (p' : ThreadPool H) × (push_random random coro p ≡ ok p') × OneMore p p'
  unfolding push_random
  push_random-OneMore random coro p (size, some_worker) =
      let item : TaskItem H = record { handle = some coro; can_steal = p.enable_work_steal_ } in
      let (p', e, more) =
        push_item-OneMore (random % p.thread_num_) item p (size, some_worker)
          (mod-lt random some_worker) in
      (p', rw (positive p.thread_num_ some_worker) e, more)

  push_somewhere-OneMore :
      (locks : ℕ → Bool) (random : ℕ) (coro : H) (p : ThreadPool H)
      → IsPool p
      → (p' : ThreadPool H) × (push_somewhere locks random coro p ≡ ok p') × OneMore p p'
  unfolding push_somewhere
  push_somewhere-OneMore locks random coro p w =
      let item : TaskItem H = record { handle = some coro; can_steal = true } in
      let (p', e, more) = push_random-OneMore random coro p w in
      elim (Bool-cases p.enable_work_steal_) [
        | inr off ↦ (p', simp (off, e), more)
        | inl on ↦ elim (push_loop-OneMore locks (p.thread_num_ * 2) 0 item p w) [
          | inl none_free ↦ (p', simp (on, none_free, e), more)
          | inr (p'', first, more') ↦ (p'', simp (on, first), more')
        ]
      ]

  push_by_id-OneMore :
      (ndebug : Bool) (locks : ℕ → Bool) (random : ℕ) (coro : H) (id : ℤ) (p : ThreadPool H)
      → IsPool p
      → IsId id p
      → (p' : ThreadPool H) × (push_by_id ndebug locks random coro id p ≡ ok p') × OneMore p p'
  unfolding push_by_id
  push_by_id-OneMore ndebug locks random coro (negsuc zero) p w h =
      push_somewhere-OneMore locks random coro p w
  push_by_id-OneMore ndebug locks random coro (negsuc (suc n)) p w h = absurd h
  push_by_id-OneMore ndebug locks random coro (pos i) p w h =
      let item : TaskItem H = record { handle = some coro; can_steal = false } in
      let (p', e, more) = push_item-OneMore i item p w h in
      (p', rw (either ndebug (ltb i p.thread_num_) (lt→ltb i p.thread_num_ h)) e, more)

  get_item_count-IsPool :
      (p : ThreadPool H) → IsPool p → get_item_count p ≡ ok (total p.task_queues_)
  unfolding get_item_count
  get_item_count-IsPool p (size, _) = rw (← size) (size_loop-total throws p.task_queues_)

  -- On a running pool with at least one worker, ScheduleById of a coroutine with the id -1 or a worker's
  -- returns whatever mutexes are free, keeps the pool well-formed, and GetItemCount is one more.
  pub schedule_by_id-get_item_count :
      (ndebug : Bool) (locks : ℕ → Bool) (random : ℕ) (coro : H) (id : ℤ) (p : ThreadPool H)
      → IsPool p
      → p.stopped_ ≡ false
      → IsId id p
      → (p' : ThreadPool H) × (n : ℕ) × (schedule_by_id ndebug locks random (some coro) id p
          ≡ ok p')
        × IsPool p'
        × (get_item_count p ≡ ok n)
        × (get_item_count p' ≡ ok (suc n))
  unfolding schedule_by_id
  schedule_by_id-get_item_count ndebug locks random coro id p w running h =
      let (p', e, (w', more)) = push_by_id-OneMore ndebug locks random coro id p w h in
      (
        p',
        total p.task_queues_,
        simp (running, e),
        w',
        get_item_count-IsPool p w,
        get_item_count-IsPool p' w' ∙ ap ok more,
      )

  push_loop-throws :
      (locks : ℕ → Bool) (count i : ℕ) (item : TaskItem H) (p : ThreadPool H)
      → 1 ≤ count
      → p.task_queues_ ≡ []
      → push_loop locks count i item p ≡ throws
  unfolding push_loop
  push_loop-throws locks zero i item p h e = absurd (omega arith)
  push_loop-throws locks (suc count) i item p h e = rw e refl

  -- A pool made for 0 threads runs as many as there are cores, but has no queue: with stealing on
  -- ScheduleById throws std::out_of_range, with it off it pushes to a queue that is not there, and
  -- GetItemCount throws.
  new_pool-no_queue :
      (cores : ℕ) (steal ndebug : Bool) (locks : ℕ → Bool) (random : ℕ) (coro : H)
      → 1 ≤ cores
      → (schedule_by_id ndebug locks random (some coro) (negsuc 0) (new_pool cores 0 steal)
          ≡ (if steal then throws else undefined))
        × (get_item_count (new_pool {H = H} cores 0 steal) ≡ throws)
  unfolding schedule_by_id push_by_id push_somewhere push_random push_item push_to get_item_count
      new_pool size_loop
  new_pool-no_queue zero steal ndebug locks random coro h = absurd (omega arith)
  new_pool-no_queue (suc n) true ndebug locks random coro h = (
    rw
        (push_loop-throws locks (suc n * 2) 0 record { handle = some coro; can_steal = true }
          (new_pool (suc n) 0 true) (omega arith) refl)
        refl,
    refl,
  )
  new_pool-no_queue (suc n) false ndebug locks random coro h = (rw (positive (suc n) h) refl, refl)
