-- ===== src/ThreadPool/Sound.antt =====
-- What holds of a pool however its threads interleave.
use mathlib.Core.Bool.{false≢true}
use luce.Prelude.{
  ℕ, zero, suc, ◌+◌, ◌≤◌, ◌≡◌, refl, ap, ◌∙◌, Bool, true, false, List, [], ◌∷◌, ◌++◌, length, arith,
  if◌then◌else◌, append_assoc, length-append, Bool-cases, inl, inr, replicate, length-replicate,
}
use luce.ThreadPool.{
  Worker, awake, asleep, Closer, looking, sleeping, joining, ThreadPool, new_pool, commit,
  put_worker,
}
use luce.ThreadPool.Runs.{weigh, weigh-append, sleeper, busy, gone, held}

abbrev pub is_sleeping : Closer → Bool
is_sleeping looking = false
is_sleeping sleeping = true
is_sleeping joining = false

module _ {T : Type 0} where
  -- how many tasks pass the test
  abbrev pub tally : (T → Bool) → List T → ℕ
  tally test [] = 0
  tally test (t ∷ ts) = (if test t then 1 else 0) + tally test ts

  pub tally-append :
      (test : T → Bool) (xs ys : List T) → tally test (xs ++ ys) ≡ tally test xs + tally test ys
  tally-append test [] ys = omega arith
  tally-append test (x ∷ xs) ys = omega (arith, tally-append test xs ys)

  -- a pool of `n` workers: the tasks are taken in the order in which they were accepted, none is lost
  -- on the way, a stopped pool has none left, and no thread sleeps while it has something to do
  pub record Sound (n : ℕ) (p : ThreadPool T) : Type 0 where
    pub order : p.accepted ≡ p.taken ++ p.tasks_
    pub drained : p.stop_ ≡ true → p.tasks_ ≡ []
    pub kept :
        (test : T → Bool)
        → tally test p.taken ≡ tally test p.finished + weigh (held test) p.workers_
    pub size : length p.workers_ ≡ n
    pub staying : p.stop_ ≡ false → weigh gone p.workers_ ≡ 0
    pub served : 1 ≤ n → 1 ≤ length p.tasks_ → 1 ≤ p.notices + weigh busy p.workers_
    pub alarmed : p.stop_ ≡ true → p.alarm ≡ false → weigh sleeper p.workers_ ≡ 0
    pub closing : is_sleeping p.closer ≡ true → 1 ≤ length p.tasks_

  weigh-replicate : (f : Worker T → ℕ) (n : ℕ) → f awake ≡ 0 → weigh f (replicate n awake) ≡ 0
  weigh-replicate f zero e = refl
  weigh-replicate f (suc n) e = omega (arith, weigh-replicate f n e)

  pub new_pool-Sound : (n : ℕ) → Sound n (new_pool n)
  unfolding new_pool
  new_pool-Sound n = record {
    order = refl;
    drained = λ h. refl;
    kept = λ test. omega (arith, weigh-replicate (held test) n refl);
    size = length-replicate n awake;
    staying = λ h. weigh-replicate gone n refl;
    served = λ h k. omega arith;
    alarmed = λ h k. weigh-replicate sleeper n refl;
    closing = λ h. absurd (false≢true h);
  }

  pub commit-Sound : (n : ℕ) (t : T) (p : ThreadPool T) → Sound n p → Sound n (commit t p)
  unfolding commit
  commit-Sound n t p s = elim (Bool-cases p.stop_) [
    | inl e ↦ rw e record {
      order = s.order;
      drained = λ h. s.drained e;
      kept = s.kept;
      size = s.size;
      staying = λ h. cc;
      served = λ h k. omega arith;
      alarmed = λ h k. s.alarmed e k;
      closing = s.closing;
    }
    | inr e ↦ rw e record {
      order = ap (λ ts. ts ++ t ∷ []) s.order ∙ append_assoc p.taken p.tasks_ (t ∷ []);
      drained = λ h. cc;
      kept = s.kept;
      size = s.size;
      staying = λ h. s.staying e;
      served = λ h k. omega arith;
      alarmed = λ h k. cc;
      closing = λ h. omega (arith, length-append p.tasks_ (t ∷ []));
    }
  ]

  -- one worker moves: what it does to each weight
  pub moves :
      (f : Worker T → ℕ) (ws a b : List (Worker T)) (w w' : Worker T)
      → ws ≡ a ++ (w ∷ b)
      → weigh f (a ++ (w' ∷ b)) + f w ≡ weigh f ws + f w'
  moves f ws a b w w' e = rw e (omega (arith, weigh-append f a w b, weigh-append f a w' b))

  pub length-moves :
      (ws a b : List (Worker T)) (w w' : Worker T)
      → ws ≡ a ++ (w ∷ b)
      → length (a ++ (w' ∷ b)) ≡ length ws
  length-moves ws a b w w' e =
      rw e (omega (arith, length-append a (w ∷ b), length-append a (w' ∷ b)))

  -- a sleeping worker wakes, and `m` notices are left
  pub awake-Sound :
      (n m : ℕ) (a b : List (Worker T)) (p : ThreadPool T)
      → p.workers_ ≡ a ++ (asleep ∷ b)
      → Sound n p
      → Sound n (put_worker a awake b record p { notices = m })
  unfolding put_worker
  awake-Sound n m a b p e s = record {
    order = s.order;
    drained = s.drained;
    kept = λ test. omega (arith, s.kept test, moves (held test) p.workers_ a b asleep awake e);
    size = length-moves p.workers_ a b asleep awake e ∙ s.size;
    staying = λ h. omega (arith, s.staying h, moves gone p.workers_ a b asleep awake e);
    served = λ h k. omega (arith, moves busy p.workers_ a b asleep awake e);
    alarmed = λ h k. omega (arith, s.alarmed h k, moves sleeper p.workers_ a b asleep awake e);
    closing = s.closing;
  }
