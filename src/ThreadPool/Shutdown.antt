-- ===== src/ThreadPool/Shutdown.antt =====
-- What a pool promises on every run of its threads.
use luce.Prelude.{
  ℕ, ◌≤◌, ◌≡◌, ◌⊎◌, ap, ◌∙◌, Bool, true, false, List, [], ◌∷◌, ◌++◌, length, arith, append-nil,
  Bool-cases, inl, inr,
}
use luce.ThreadPool.{Worker, awake, asleep, running, returned, ThreadPool, new_pool}
use luce.ThreadPool.Runs.{
  weigh, busy, gone, held, everyone, Steps, none_yet, commits, notifies, notifies_nobody,
  wakes_by_itself, works, finishes, closes, closer_wakes, sounds_alarm,
}
use luce.ThreadPool.Sound.{tally, is_sleeping, Sound, new_pool-Sound, commit-Sound, awake-Sound}
use luce.ThreadPool.Turns.{List-cases, work-Sound, finish-Sound}
use luce.ThreadPool.Closing.{shutdown-Sound, looking-Sound, notify_all-Sound, nobody-Sound}

module _ {T : Type 0} (n : ℕ) where
  Steps-Sound : (p : ThreadPool T) → Steps (new_pool n) p → Sound n p
  Steps-Sound _ (none_yet _) = new_pool-Sound n
  Steps-Sound _ (commits t _ q s) = commit-Sound n t q (Steps-Sound q s)
  Steps-Sound _ (notifies a b m _ q e _ s) = awake-Sound n m a b q e (Steps-Sound q s)
  Steps-Sound _ (notifies_nobody m _ q e _ s) = nobody-Sound n m q e (Steps-Sound q s)
  Steps-Sound _ (wakes_by_itself a b _ q e s) = awake-Sound n q.notices a b q e (Steps-Sound q s)
  Steps-Sound _ (works a b _ q e s) = work-Sound n a b q e (Steps-Sound q s)
  Steps-Sound _ (finishes t a b _ q e s) = finish-Sound n t a b q e (Steps-Sound q s)
  Steps-Sound _ (closes _ q _ s) = shutdown-Sound n q (Steps-Sound q s)
  Steps-Sound _ (closer_wakes _ q _ s) = looking-Sound n q (Steps-Sound q s)
  Steps-Sound _ (sounds_alarm _ q _ s) = notify_all-Sound n q (Steps-Sound q s)

  -- On every run of a new pool's threads, the workers have taken the accepted tasks in the order of
  -- their commits, and each once: those taken and those still queued make up the accepted ones.
  pub takes_in_order : (p : ThreadPool T) → Steps (new_pool n) p → p.accepted ≡ p.taken ++ p.tasks_
  takes_in_order p s = (Steps-Sound p s).order

  held-busy : (test : T → Bool) (ws : List (Worker T)) → weigh (held test) ws ≤ weigh busy ws
  held-busy test [] = omega arith
  held-busy test (asleep ∷ ws) = omega (arith, held-busy test ws)
  held-busy test (awake ∷ ws) = omega (arith, held-busy test ws)
  held-busy test (running t ∷ ws) = elim (Bool-cases (test t)) [
    | inl e ↦ rw e (omega (arith, held-busy test ws))
    | inr e ↦ rw e (omega (arith, held-busy test ws))
  ]
  held-busy test (returned ∷ ws) = omega (arith, held-busy test ws)

  -- On every run, once Shutdown has stopped the pool and all its workers have returned, every accepted
  -- task is finished: as many tasks pass a test among the finished as among the accepted.
  pub shutdown_finishes :
      (p : ThreadPool T) (test : T → Bool)
      → Steps (new_pool n) p
      → p.stop_ ≡ true
      → weigh gone p.workers_ ≡ n
      → tally test p.finished ≡ tally test p.accepted
  shutdown_finishes p test s stop all =
      let sound = Steps-Sound p s in
      let whole : p.accepted ≡ p.taken =
        sound.order ∙ ap (p.taken ++◌) (sound.drained stop) ∙ append-nil p.taken in
      rw whole
        (omega (arith, sound.kept test, held-busy test p.workers_, everyone p.workers_, sound.size))

  -- On every run of a pool with a worker, if no worker is awake or in a task and no notification is
  -- outstanding, then no task is queued, Shutdown does not sleep, and the pool is not stopped or all
  -- its workers have returned: no wake-up is lost.
  pub no_lost_wake_up :
      (p : ThreadPool T)
      → Steps (new_pool n) p
      → 1 ≤ n
      → weigh busy p.workers_ ≡ 0
      → p.notices ≡ 0
      → p.alarm ≡ false
      → (p.tasks_ ≡ [])
        × (is_sleeping p.closer ≡ false)
        × ((p.stop_ ≡ false) ⊎ (weigh gone p.workers_ ≡ n))
  no_lost_wake_up p s some_worker idle quiet still =
      let sound = Steps-Sound p s in
      let none_left : length p.tasks_ ≡ 0 = elim (List-cases p.tasks_) [
        | inl e ↦ ap length e
        | inr (t, ts, e) ↦
            absurd (omega (arith, sound.served some_worker (omega (arith, ap length e))))
      ] in
      (
        elim (List-cases p.tasks_) [
          | inl e ↦ e
          | inr (t, ts, e) ↦ absurd (omega (arith, ap length e))
        ],
        elim (Bool-cases (is_sleeping p.closer)) [
          | inl e ↦ absurd (omega (arith, sound.closing e))
          | inr e ↦ e
        ],
        elim (Bool-cases p.stop_) [
          | inl stop ↦
              inr (omega (arith, sound.alarmed stop still, everyone p.workers_, sound.size))
          | inr stop ↦ inl stop
        ],
      )
