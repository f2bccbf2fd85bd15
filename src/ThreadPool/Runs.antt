-- ===== src/ThreadPool/Runs.antt =====
-- The runs of a pool: the steps of its threads in any order.
use luce.Prelude.{ℕ, suc, ◌+◌, ◌≡◌, Bool, true, List, [], ◌∷◌, ◌++◌, length, arith, if◌then◌else◌}
use luce.ThreadPool.{
  Worker, awake, asleep, running, returned, looking, sleeping, ThreadPool, commit, put_worker, work,
  finish, shutdown, notify_all,
}

module _ {T : Type 0} where
  -- how many workers count, each as often as `f` says
  abbrev pub weigh : (Worker T → ℕ) → List (Worker T) → ℕ
  weigh f [] = 0
  weigh f (w ∷ ws) = f w + weigh f ws

  pub weigh-append :
      (f : Worker T → ℕ) (a : List (Worker T)) (w : Worker T) (b : List (Worker T))
      → weigh f (a ++ (w ∷ b)) ≡ weigh f a + (f w + weigh f b)
  weigh-append f [] w b = omega arith
  weigh-append f (x ∷ a) w b = omega (arith, weigh-append f a w b)

  abbrev pub sleeper : Worker T → ℕ
  sleeper asleep = 1
  sleeper awake = 0
  sleeper (running t) = 0
  sleeper returned = 0

  abbrev pub busy : Worker T → ℕ
  busy asleep = 0
  busy awake = 1
  busy (running t) = 1
  busy returned = 0

  abbrev pub gone : Worker T → ℕ
  gone asleep = 0
  gone awake = 0
  gone (running t) = 0
  gone returned = 1

  -- the tasks that workers run and that pass the test
  abbrev pub held : (T → Bool) → Worker T → ℕ
  held test asleep = 0
  held test awake = 0
  held test (running t) = if test t then 1 else 0
  held test returned = 0

  pub everyone :
      (ws : List (Worker T)) → weigh sleeper ws + weigh busy ws + weigh gone ws ≡ length ws
  everyone [] = omega arith
  everyone (asleep ∷ ws) = omega (arith, everyone ws)
  everyone (awake ∷ ws) = omega (arith, everyone ws)
  everyone (running t ∷ ws) = omega (arith, everyone ws)
  everyone (returned ∷ ws) = omega (arith, everyone ws)

  pub data Steps : ThreadPool T → ThreadPool T → Type 0 where
    none_yet : (p : ThreadPool T) → Steps p p
    commits : (t : T) (p q : ThreadPool T) → Steps p q → Steps p (commit t q)
    notifies :
        (a b : List (Worker T)) (n : ℕ) (p q : ThreadPool T)
        → q.workers_ ≡ a ++ (asleep ∷ b)
        → q.notices ≡ suc n
        → Steps p q
        → Steps p (put_worker a awake b record q { notices = n })
    notifies_nobody :
        (n : ℕ) (p q : ThreadPool T)
        → weigh sleeper q.workers_ ≡ 0
        → q.notices ≡ suc n
        → Steps p q
        → Steps p record q { notices = n }
    wakes_by_itself :
        (a b : List (Worker T)) (p q : ThreadPool T)
        → q.workers_ ≡ a ++ (asleep ∷ b)
        → Steps p q
        → Steps p (put_worker a awake b q)
    works :
        (a b : List (Worker T)) (p q : ThreadPool T)
        → q.workers_ ≡ a ++ (awake ∷ b)
        → Steps p q
        → Steps p (work a b q)
    finishes :
        (t : T) (a b : List (Worker T)) (p q : ThreadPool T)
        → q.workers_ ≡ a ++ (running t ∷ b)
        → Steps p q
        → Steps p (finish t a b q)
    closes : (p q : ThreadPool T) → q.closer ≡ looking → Steps p q → Steps p (shutdown q)
    closer_wakes :
        (p q : ThreadPool T)
        → q.closer ≡ sleeping
        → Steps p q
        → Steps p record q { closer = looking }
    sounds_alarm : (p q : ThreadPool T) → q.alarm ≡ true → Steps p q → Steps p (notify_all q)
