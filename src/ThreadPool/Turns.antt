-- ===== src/ThreadPool/Turns.antt =====
-- The steps of workers keep a pool sound.
use mathlib.Core.Bool.{false≢true}
use luce.Prelude.{
  ℕ, ◌⊎◌, ◌≤◌, ◌≡◌, refl, sym, ap, ◌∙◌, subst, true, false, List, [], ◌∷◌, ◌++◌, length, arith,
  append_assoc, Bool-cases, inl, inr,
}
use luce.ThreadPool.{
  Worker, awake, asleep, running, returned, Closer, looking, sleeping, joining, ThreadPool,
  put_worker, work, finish, notify_closer, take_turn,
}
use luce.ThreadPool.Runs.{sleeper, busy, gone, held}
use luce.ThreadPool.Sound.{tally-append, Sound, is_sleeping, moves, length-moves}

notify_closer-is_sleeping : (c : Closer) → is_sleeping (notify_closer c) ≡ false
unfolding notify_closer
notify_closer-is_sleeping looking = refl
notify_closer-is_sleeping sleeping = refl
notify_closer-is_sleeping joining = refl

pub List-cases {ℓ} :
    {A : Type ℓ} (xs : List A) → (xs ≡ []) ⊎ ((x : A) × (ys : List A) × (xs ≡ x ∷ ys))
List-cases [] = inl refl
List-cases (x ∷ ys) = inr (x, ys, refl)

module _ {T : Type 0} (n : ℕ) where
  return-Sound :
      (a b : List (Worker T)) (p : ThreadPool T)
      → p.workers_ ≡ a ++ (awake ∷ b)
      → p.stop_ ≡ true
      → Sound n p
      → Sound n (put_worker a returned b p)
  unfolding put_worker
  return-Sound a b p e stop s = record {
    order = s.order;
    drained = s.drained;
    kept = λ test. omega (arith, s.kept test, moves (held test) p.workers_ a b awake returned e);
    size = length-moves p.workers_ a b awake returned e ∙ s.size;
    staying = λ h. absurd (false≢true (sym h ∙ stop));
    served = λ h k. absurd (omega (arith, ap length (s.drained stop)));
    alarmed = λ h k. omega (arith, s.alarmed h k, moves sleeper p.workers_ a b awake returned e);
    closing = s.closing;
  }

  sleep-Sound :
      (a b : List (Worker T)) (p : ThreadPool T)
      → p.workers_ ≡ a ++ (awake ∷ b)
      → p.stop_ ≡ false
      → p.tasks_ ≡ []
      → Sound n p
      → Sound n (put_worker a asleep b p)
  unfolding put_worker
  sleep-Sound a b p e stop none_left s = record {
    order = s.order;
    drained = s.drained;
    kept = λ test. omega (arith, s.kept test, moves (held test) p.workers_ a b awake asleep e);
    size = length-moves p.workers_ a b awake asleep e ∙ s.size;
    staying = λ h. omega (arith, s.staying h, moves gone p.workers_ a b awake asleep e);
    served = λ h k. absurd (omega (arith, ap length none_left));
    alarmed = λ h k. absurd (false≢true (sym stop ∙ h));
    closing = s.closing;
  }

  -- the closer that take_turn leaves
  abbrev closer_behind : List T → Closer → Closer
  closer_behind [] c = notify_closer c
  closer_behind (t ∷ ts) c = c

  closer_behind-closing :
      (ts : List T) (c : Closer) → is_sleeping (closer_behind ts c) ≡ true → 1 ≤ length ts
  closer_behind-closing [] c h = absurd (false≢true (sym (notify_closer-is_sleeping c) ∙ h))
  closer_behind-closing (t ∷ ts) c h = omega arith

  take-Sound :
      (t : T) (ts : List T) (a b : List (Worker T)) (p : ThreadPool T)
      → p.workers_ ≡ a ++ (awake ∷ b)
      → p.stop_ ≡ false
      → p.tasks_ ≡ t ∷ ts
      → Sound n p
      → Sound n (
          put_worker a (running t) b record p {
            tasks_ = ts;
            taken = p.taken ++ (t ∷ []);
            closer = closer_behind ts p.closer;
          })
  unfolding put_worker
  take-Sound t ts a b p e stop next s = record {
    order = s.order ∙ ap (p.taken ++◌) next ∙ sym (append_assoc p.taken (t ∷ []) ts);
    drained = λ h. absurd (false≢true (sym stop ∙ h));
    kept = λ test. omega (
      arith,
      s.kept test,
      moves (held test) p.workers_ a b awake (running t) e,
      tally-append test p.taken (t ∷ []),
    );
    size = length-moves p.workers_ a b awake (running t) e ∙ s.size;
    staying = λ h. omega (arith, s.staying h, moves gone p.workers_ a b awake (running t) e);
    served = λ h k. omega (
      arith,
      s.served h (omega (arith, ap length next)),
      moves busy p.workers_ a b awake (running t) e,
    );
    alarmed = λ h k. absurd (false≢true (sym stop ∙ h));
    closing = closer_behind-closing ts p.closer;
  }

  work-returns :
      (a b : List (Worker T)) (p : ThreadPool T)
      → p.stop_ ≡ true
      → work a b p ≡ put_worker a returned b p
  unfolding work take_turn
  work-returns a b p stop = rw stop refl

  work-sleeps :
      (a b : List (Worker T)) (p : ThreadPool T)
      → p.stop_ ≡ false
      → p.tasks_ ≡ []
      → work a b p ≡ put_worker a asleep b p
  unfolding work take_turn
  work-sleeps a b p stop next = simp (stop, next)

  work-takes :
      (t : T) (ts : List T) (a b : List (Worker T)) (p : ThreadPool T)
      → p.stop_ ≡ false
      → p.tasks_ ≡ t ∷ ts
      → work a b p
        ≡ put_worker a (running t) b record p {
          tasks_ = ts;
          taken = p.taken ++ (t ∷ []);
          closer = closer_behind ts p.closer;
        }
  unfolding work take_turn
  work-takes t [] a b p stop next = simp (stop, next)
  work-takes t (u ∷ ts) a b p stop next = simp (stop, next)

  pub work-Sound :
      (a b : List (Worker T)) (p : ThreadPool T)
      → p.workers_ ≡ a ++ (awake ∷ b)
      → Sound n p
      → Sound n (work a b p)
  work-Sound a b p e s = elim (Bool-cases p.stop_) [
    | inl stop ↦ subst (Sound n) (sym (work-returns a b p stop)) (return-Sound a b p e stop s)
    | inr stop ↦ elim (List-cases p.tasks_) [
      | inl none_left ↦
          subst (Sound n) (sym (work-sleeps a b p stop none_left))
            (sleep-Sound a b p e stop none_left s)
      | inr (t, ts, next) ↦
          subst (Sound n) (sym (work-takes t ts a b p stop next))
            (take-Sound t ts a b p e stop next s)
    ]
  ]

  pub finish-Sound :
      (t : T) (a b : List (Worker T)) (p : ThreadPool T)
      → p.workers_ ≡ a ++ (running t ∷ b)
      → Sound n p
      → Sound n (finish t a b p)
  unfolding finish put_worker
  finish-Sound t a b p e s = record {
    order = s.order;
    drained = s.drained;
    kept = λ test. omega (
      arith,
      s.kept test,
      moves (held test) p.workers_ a b (running t) awake e,
      tally-append test p.finished (t ∷ []),
    );
    size = length-moves p.workers_ a b (running t) awake e ∙ s.size;
    staying = λ h. omega (arith, s.staying h, moves gone p.workers_ a b (running t) awake e);
    served = λ h k. omega (arith, s.served h k, moves busy p.workers_ a b (running t) awake e);
    alarmed = λ h k. omega (arith, s.alarmed h k, moves sleeper p.workers_ a b (running t) awake e);
    closing = s.closing;
  }
