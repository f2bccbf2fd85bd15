-- ===== src/Tests/Parts.antt =====
-- The queue, the buffers and the timers on concrete input.
use luce.Prelude.{
  ℕ, length, zero, suc, ◌≡◌, ◌+◌, ◌/◌, ◌≤◌, ◌<◌, ◌⊎◌, refl, false, List, [], ◌∷◌, ◌++◌, some, none,
  ok, undefined, exits, arith,
}
use luce.Queue.{BlockingQueue, new_queue, push, pop}
use luce.Queue.Fifo.{pushed, popped, Run, done, next, fifo_order}
use luce.Pool.{
  IoBuf, BufPool, copy, new_buf_pool, new_io_buf, alloc_buf, class_of, bucket, mem_limit,
}
use luce.Latch.{CountDownLatch, new_latch, wait, count_down}
use luce.Latch.Threads.{Steps, none_yet, waits, counts_down, stays_shut}
use luce.Pool.Buffers.{contents, copy-contents}
use luce.Pool.Classes.{IsPool, new_buf_pool-IsPool, alloc_buf-IsPool}
use luce.Timers.{Timer, TimerManager, expiry_at, tick}
use luce.Timers
use luce.Timers.Heap.{IsHeap, push-IsHeap}
use luce.Timers.Ticks.{tick_two_timers}

-- two pushes and a pop
abbrev filled_queue : BlockingQueue ℕ
filled_queue = push 8 (push 7 new_queue)

abbrev left_queue : BlockingQueue ℕ
left_queue = record { queue_ = 8 ∷ []; stop_ = false }

two_in_one_out : Run new_queue (7 ∷ 8 ∷ []) (7 ∷ []) left_queue
unfolding push pop
two_in_one_out = next _ _ _ (7 ∷ []) (8 ∷ []) [] (7 ∷ []) (pushed 7 new_queue) (
    next _ _ _ (8 ∷ []) [] [] (7 ∷ []) (pushed 8 (push 7 new_queue)) (
      next _ _ _ [] [] (7 ∷ []) [] (popped (some 7) filled_queue left_queue refl)
        (done left_queue)))

abbrev both : List ℕ
both = 7 ∷ 8 ∷ []

fifo_order_example : (7 ∷ []) ++ left_queue.queue_ ≡ new_queue.queue_ ++ both
fifo_order_example = fifo_order new_queue left_queue (7 ∷ 8 ∷ []) (7 ∷ []) two_in_one_out

-- a window of two bytes behind three that are processed
abbrev window : IoBuf
window = record { capacity = 4096; valid_length = 2; head = 3; data_ = λ i. i }

copy-contents_example :
    (((4096 < 2) ⊎ (4096 < 3 + 2)) × (copy (new_io_buf 4096) window ≡ undefined))
    ⊎ ((2 ≤ 4096)
        × (3 + 2 ≤ 4096)
        × ((b' : IoBuf) × (copy (new_io_buf 4096) window ≡ ok b')
            × (b'.head ≡ 0)
            × (b'.valid_length ≡ 2)
            × (contents b' ≡ contents window)
            × (b'.capacity ≡ 4096)))
copy-contents_example = copy-contents (new_io_buf 4096) window

alloc_buf-IsPool_example :
    ((key : ℕ) × (class_of 5000 ≡ some key)
      × (bucket key new_buf_pool ≡ [])
      × (mem_limit ≤ new_buf_pool.total_mem_ + key / 1024)
      × (alloc_buf 5000 new_buf_pool ≡ exits))
    ⊎ ((8388608 < 5000) × (alloc_buf 5000 new_buf_pool ≡ ok (none, new_buf_pool)))
    ⊎ ((b : IoBuf) × (p' : BufPool) × (alloc_buf 5000 new_buf_pool ≡ ok (some b, p'))
        × (class_of 5000 ≡ some b.capacity)
        × (5000 ≤ b.capacity)
        × (b.valid_length ≡ 0)
        × (b.head ≡ 0)
        × IsPool p')
alloc_buf-IsPool_example = alloc_buf-IsPool 5000 new_buf_pool new_buf_pool-IsPool

abbrev pub at_time : ℕ → Timer ℕ
at_time t = record { expiry_time = t; timer_id = t; task = t }

two_timers-IsHeap : IsHeap (at_time 5 ∷ at_time 9 ∷ [])
unfolding expiry_at
two_timers-IsHeap zero l = omega arith
two_timers-IsHeap (suc i) l = absurd (omega arith)

push-IsHeap_example :
    IsHeap (Timers.push (at_time 3) (at_time 5 ∷ at_time 9 ∷ []))
    × (length (Timers.push (at_time 3) (at_time 5 ∷ at_time 9 ∷ [])) ≡ 3)
push-IsHeap_example = push-IsHeap (at_time 3) (at_time 5 ∷ at_time 9 ∷ []) two_timers-IsHeap

tick_two_timers_example :
    tick 6
      (at_time 0)
      record { timers_ = at_time 5 ∷ at_time 1000 ∷ []; next_id = 2; stop_ = false }
    ≡ ok (some 1000, record { timers_ = at_time 1000 ∷ []; next_id = 2; stop_ = false })
tick_two_timers_example =
    tick_two_timers 6 2 (at_time 0) (at_time 5) (at_time 1000) false (omega arith)

-- a latch of two, with one thread that waits and one that has counted down
abbrev half_open : CountDownLatch
half_open = count_down (wait (new_latch 2))

half_open-Steps : Steps (new_latch 2) half_open
half_open-Steps = counts_down _ _ (waits _ _ (none_yet (new_latch 2)))

stays_shut_example : half_open.returned ≡ 0
unfolding count_down wait new_latch
stays_shut_example = stays_shut 2 half_open half_open-Steps refl
