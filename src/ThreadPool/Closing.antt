-- ===== src/ThreadPool/Closing.antt =====
-- The steps of Shutdown and of its notification keep a pool sound.
use mathlib.Core.Bool.{false≢true}
use luce.Prelude.{
  ℕ, ◌+◌, ◌≤◌, ◌≡◌, refl, sym, ap, ◌∙◌, subst, true, List, [], ◌∷◌, map, length, arith, Bool-cases,
  inl, inr,
}
use luce.ThreadPool.{
  Worker, awake, asleep, running, returned, Closer, looking, sleeping, joining, ThreadPool,
  shutdown, notify_all, wake,
}
use luce.ThreadPool.Runs.{weigh, sleeper, busy, gone, held, everyone}
use luce.ThreadPool.Sound.{Sound, is_sleeping}
use luce.ThreadPool.Turns.{List-cases}

module _ {T : Type 0} (n : ℕ) where
  stopped-Sound :
      (p : ThreadPool T)
      → p.tasks_ ≡ []
      → Sound n p
      → Sound n record p { stop_ = true; alarm = true; closer = joining }
  stopped-Sound p e s = record {
    order = s.order;
    drained = λ h. e;
    kept = s.kept;
    size = s.size;
    staying = λ h. absurd (false≢true (sym h));
    served = s.served;
    alarmed = λ h k. absurd (false≢true (sym k));
    closing = λ h. absurd (false≢true h);
  }

  closer-Sound :
      (c : Closer) (p : ThreadPool T)
      → (is_sleeping c ≡ true → 1 ≤ length p.tasks_)
      → Sound n p
      → Sound n record p { closer = c }
  closer-Sound c p h s = record {
    order = s.order;
    drained = s.drained;
    kept = s.kept;
    size = s.size;
    staying = s.staying;
    served = s.served;
    alarmed = s.alarmed;
    closing = h;
  }

  pub looking-Sound : (p : ThreadPool T) → Sound n p → Sound n record p { closer = looking }
  looking-Sound p s = closer-Sound looking p (λ h. absurd (false≢true h)) s

  shutdown-stops :
      (p : ThreadPool T)
      → p.tasks_ ≡ []
      → shutdown p ≡ record p { stop_ = true; alarm = true; closer = joining }
  unfolding shutdown
  shutdown-stops p e = rw e refl

  shutdown-waits :
      (t : T) (ts : List T) (p : ThreadPool T)
      → p.tasks_ ≡ t ∷ ts
      → shutdown p ≡ record p { closer = sleeping }
  unfolding shutdown
  shutdown-waits t ts p e = rw e refl

  pub shutdown-Sound : (p : ThreadPool T) → Sound n p → Sound n (shutdown p)
  shutdown-Sound p s = elim (List-cases p.tasks_) [
    | inl none_left ↦
        subst (Sound n) (sym (shutdown-stops p none_left)) (stopped-Sound p none_left s)
    | inr (t, ts, next) ↦
        subst (Sound n) (sym (shutdown-waits t ts p next))
          (closer-Sound sleeping p (λ h. omega (arith, ap length next)) s)
  ]

  weigh-wake :
      (f : Worker T → ℕ) (ws : List (Worker T))
      → f asleep ≡ f awake
      → weigh f (map wake ws) ≡ weigh f ws
  weigh-wake f [] e = refl
  weigh-wake f (asleep ∷ ws) e = omega (arith, weigh-wake f ws e)
  weigh-wake f (awake ∷ ws) e = omega (arith, weigh-wake f ws e)
  weigh-wake f (running t ∷ ws) e = omega (arith, weigh-wake f ws e)
  weigh-wake f (returned ∷ ws) e = omega (arith, weigh-wake f ws e)

  all_woken :
      (ws : List (Worker T))
      → (weigh sleeper (map wake ws) ≡ 0)
        × (weigh busy (map wake ws) ≡ weigh busy ws + weigh sleeper ws)
        × (length (map wake ws) ≡ length ws)
  all_woken [] = (refl, refl, refl)
  all_woken (asleep ∷ ws) =
      let (x, y, z) = all_woken ws in (omega (arith, x), omega (arith, y), omega (arith, z))
  all_woken (awake ∷ ws) =
      let (x, y, z) = all_woken ws in (omega (arith, x), omega (arith, y), omega (arith, z))
  all_woken (running t ∷ ws) =
      let (x, y, z) = all_woken ws in (omega (arith, x), omega (arith, y), omega (arith, z))
  all_woken (returned ∷ ws) =
      let (x, y, z) = all_woken ws in (omega (arith, x), omega (arith, y), omega (arith, z))

  pub notify_all-Sound : (p : ThreadPool T) → Sound n p → Sound n (notify_all p)
  unfolding notify_all
  notify_all-Sound p s =
      let (x, y, z) = all_woken p.workers_ in
      record {
        order = s.order;
        drained = s.drained;
        kept = λ test. omega (arith, s.kept test, weigh-wake (held test) p.workers_ refl);
        size = z ∙ s.size;
        staying = λ h. weigh-wake gone p.workers_ refl ∙ s.staying h;
        served = λ h k. omega (arith, s.served h k, y);
        alarmed = λ h k. x;
        closing = s.closing;
      }

  -- a notice that finds nobody asleep
  pub nobody-Sound :
      (m : ℕ) (p : ThreadPool T)
      → weigh sleeper p.workers_ ≡ 0
      → Sound n p
      → Sound n record p { notices = m }
  nobody-Sound m p e s = record {
    order = s.order;
    drained = s.drained;
    kept = s.kept;
    size = s.size;
    staying = s.staying;
    served = λ h k. elim (Bool-cases p.stop_) [
      | inl stop ↦ absurd (omega (arith, ap length (s.drained stop)))
      | inr stop ↦ omega (arith, s.staying stop, everyone p.workers_, s.size)
    ];
    alarmed = s.alarmed;
    closing = s.closing;
  }
