-- ===== src/Tests/Pools.antt =====
-- The thread pools in concrete states.
use luce.Prelude.{
  ◌≡◌, ◌⊎◌, refl, Bool, true, false, List, [], ◌∷◌, ◌++◌, ℕ, suc, ok, negsuc, arith, some, ◌==◌,
  get_elem?,
}
use luce.Queue.{BlockingQueue, stop, size}
use luce.ThreadPool.{
  ThreadPool, new_pool, commit, work, finish, shutdown, notify_all, put_worker, take_turn,
  notify_closer,
}
use luce.ThreadPool.Runs.{
  Steps, none_yet, commits, works, finishes, closes, sounds_alarm, notifies_nobody, weigh, busy,
  gone,
}
use luce.ThreadPool.Sound.{tally, is_sleeping}
use luce.ThreadPool.Shutdown.{takes_in_order, shutdown_finishes, no_lost_wake_up}
use luce.QueuePool
use luce.QueuePool.{no_id, commit_by_id, worker_loop}
use luce.QueuePool.Tasks.{worker_loop-shutdown}
use luce.CoPool
use luce.CoPool.{schedule_by_id, get_item_count}
use luce.CoPool.Scheduled.{IsPool, schedule_by_id-get_item_count}

-- one worker takes the task 7 and finishes it; Shutdown follows, and the worker returns
abbrev start : ThreadPool ℕ
start = new_pool 1

abbrev given : ThreadPool ℕ
given = commit 7 start

abbrev noticed : ThreadPool ℕ
noticed = record given { notices = 0 }

abbrev taken_up : ThreadPool ℕ
taken_up = work [] [] noticed

abbrev done : ThreadPool ℕ
done = finish 7 [] [] taken_up

abbrev closed : ThreadPool ℕ
closed = shutdown done

abbrev alarmed : ThreadPool ℕ
alarmed = notify_all closed

abbrev ended : ThreadPool ℕ
ended = work [] [] alarmed

ended-Steps : Steps start ended
unfolding new_pool commit work finish shutdown notify_all put_worker take_turn notify_closer
ended-Steps = works [] [] start alarmed refl (
    sounds_alarm start closed refl (
      closes start done refl (
        finishes 7 [] [] start taken_up refl (
          works [] [] start noticed refl
            (notifies_nobody 0 start given refl refl (commits 7 start start (none_yet start)))))))

ended-stop_ : ended.stop_ ≡ true
unfolding new_pool commit work finish shutdown notify_all put_worker take_turn
ended-stop_ = refl

ended-gone : weigh gone ended.workers_ ≡ 1
unfolding new_pool commit work finish shutdown notify_all put_worker take_turn
ended-gone = refl

ended-idle : (weigh busy ended.workers_ ≡ 0) × (ended.notices ≡ 0) × (ended.alarm ≡ false)
unfolding new_pool commit work finish shutdown notify_all put_worker take_turn
ended-idle = (refl, refl, refl)

takes_in_order_example : ended.accepted ≡ ended.taken ++ ended.tasks_
takes_in_order_example = takes_in_order 1 ended ended-Steps

shutdown_finishes_example : tally (λ t. t == 7) ended.finished ≡ tally (λ t. t == 7) ended.accepted
shutdown_finishes_example =
    shutdown_finishes 1 ended (λ t. t == 7) ended-Steps ended-stop_ ended-gone

no_lost_wake_up_example :
    (ended.tasks_ ≡ [])
    × (is_sleeping ended.closer ≡ false)
    × ((ended.stop_ ≡ false) ⊎ (weigh gone ended.workers_ ≡ 1))
no_lost_wake_up_example =
    no_lost_wake_up 1 ended ended-Steps (omega arith) ended-idle.0 ended-idle.1 ended-idle.2

abbrev queue_of : List ℕ → BlockingQueue ℕ
queue_of ts = record { queue_ = ts; stop_ = false }

abbrev two_queues : QueuePool.ThreadPool ℕ
two_queues = record {
  queues_ = queue_of [] ∷ queue_of (4 ∷ 5 ∷ []) ∷ [];
  thread_num_ = 2;
  stop_ = false;
}

worker_loop-shutdown_example :
    (get_elem? (QueuePool.shutdown two_queues).queues_ 1 ≡ some (stop (queue_of (4 ∷ 5 ∷ []))))
    × (worker_loop
          (suc (size (queue_of (4 ∷ 5 ∷ []))))
          (QueuePool.shutdown two_queues).stop_
          (stop (queue_of (4 ∷ 5 ∷ [])))
        ≡ ok (4 ∷ 5 ∷ []))
worker_loop-shutdown_example = worker_loop-shutdown 1 (queue_of (4 ∷ 5 ∷ [])) two_queues refl

abbrev item : ℕ → Bool → CoPool.TaskItem ℕ
item h can_steal = record { handle = some h; can_steal = can_steal }

abbrev items_of : List (CoPool.TaskItem ℕ) → BlockingQueue (CoPool.TaskItem ℕ)
items_of ts = record { queue_ = ts; stop_ = false }

abbrev stealing : CoPool.ThreadPool ℕ
stealing = record {
  thread_num_ = 2;
  task_queues_ = items_of [] ∷ items_of (item 8 true ∷ []) ∷ [];
  stopped_ = false;
  enable_work_steal_ = true;
}

-- the mutex of the second queue only is free
abbrev second_free : ℕ → Bool
second_free i = i == 1

schedule_by_id-get_item_count_example :
    (p' : CoPool.ThreadPool ℕ) × (n : ℕ) × (schedule_by_id false second_free 5
        (some 9)
        (negsuc 0)
        stealing
      ≡ ok p')
    × IsPool p'
    × (get_item_count stealing ≡ ok n)
    × (get_item_count p' ≡ ok (suc n))
schedule_by_id-get_item_count_example =
    schedule_by_id-get_item_count false second_free 5 9 (negsuc 0) stealing (refl, omega arith) refl
      tt
