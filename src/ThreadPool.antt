-- ===== src/ThreadPool.antt =====
-- luce/common/thread_pool.h: the pool with one queue. What a thread does while it holds queue_mtx_ is one
-- step. A thread that waits on a condition variable is asleep until it is notified, or wakes by
-- itself; what comes after the mutex is left (a notification, a task's run) is a step of its own.
pub mod Runs
pub mod Sound
pub mod Turns
pub mod Closing
pub mod Shutdown
use luce.Prelude.{
  ℕ, zero, suc, Bool, true, false, List, [], ◌∷◌, ◌++◌, map, replicate, if◌then◌else◌,
}

-- where a worker's thread stands: about to take the mutex, asleep in condition.wait, in a task, or at
-- its end
pub data Worker (T : Type 0) : Type 0 where
  awake : Worker T
  asleep : Worker T
  running : T → Worker T
  returned : Worker T

-- the same of the thread that calls Shutdown: before it holds the mutex, asleep in
-- condition_producers_.wait, or behind it
pub data Closer : Type 0 where
  looking : Closer
  sleeping : Closer
  joining : Closer

-- `notices` and `alarm` are the calls of notify_one and notify_all that threads have yet to make.
-- `accepted`, `taken` and `finished` are the tasks so far, in their order.
pub record ThreadPool (T : Type 0) : Type 0 where
  pub workers_ : List (Worker T)
  pub tasks_ : List T
  pub stop_ : Bool
  pub notices : ℕ
  pub alarm : Bool
  pub closer : Closer
  pub accepted : List T
  pub taken : List T
  pub finished : List T

-- condition_producers_.notify_one
unfoldable pub notify_closer : Closer → Closer
notify_closer sleeping = looking
notify_closer looking = looking
notify_closer joining = joining

module _ {T : Type 0} where
  unfoldable pub new_pool : ℕ → ThreadPool T
  new_pool thread_num = record {
    workers_ = replicate thread_num awake;
    tasks_ = [];
    stop_ = false;
    notices = 0;
    alarm = false;
    closer = looking;
    accepted = [];
    taken = [];
    finished = [];
  }

  -- Commit under the mutex; the call of notify_one is outstanding
  unfoldable pub commit : T → ThreadPool T → ThreadPool T
  commit t p = if p.stop_ then record p { notices = suc p.notices } else record p {
    notices = suc p.notices;
    tasks_ = p.tasks_ ++ (t ∷ []);
    accepted = p.accepted ++ (t ∷ []);
  }

  -- a worker's round under the mutex: where it stands then, and the pool
  unfoldable pub take_turn : ThreadPool T → Worker T × ThreadPool T
  take_turn p = if p.stop_ then (returned, p) else elim p.tasks_ [
    | [] ↦ (asleep, p)
    | t ∷ ts ↦ (
      running t,
      record p {
        tasks_ = ts;
        taken = p.taken ++ (t ∷ []);
        closer = elim ts [ [] ↦ notify_closer p.closer | _ ∷ _ ↦ p.closer ];
      },
    )
  ]

  -- the worker between the others `a` and `b` goes on to stand at `w`
  unfoldable pub put_worker :
      List (Worker T) → Worker T → List (Worker T) → ThreadPool T → ThreadPool T
  put_worker a w b p = record p { workers_ = a ++ (w ∷ b) }

  unfoldable pub work : List (Worker T) → List (Worker T) → ThreadPool T → ThreadPool T
  work a b p = let (w, p') = take_turn p in put_worker a w b p'

  -- task() comes back
  unfoldable pub finish : T → List (Worker T) → List (Worker T) → ThreadPool T → ThreadPool T
  finish t a b p = put_worker a awake b record p { finished = p.finished ++ (t ∷ []) }

  -- Shutdown under the mutex; the call of notify_all is outstanding
  unfoldable pub shutdown : ThreadPool T → ThreadPool T
  shutdown p = elim p.tasks_ [
    | [] ↦ record p { stop_ = true; alarm = true; closer = joining }
    | _ ∷ _ ↦ record p { closer = sleeping }
  ]

  abbrev pub wake : Worker T → Worker T
  wake asleep = awake
  wake awake = awake
  wake (running t) = running t
  wake returned = returned

  -- condition.notify_all
  unfoldable pub notify_all : ThreadPool T → ThreadPool T
  notify_all p = record p { alarm = false; workers_ = map wake p.workers_ }
