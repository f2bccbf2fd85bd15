-- ===== src/Tests/Timing.antt =====
-- Timers that are removed.
use luce.Prelude.{ℕ, zero, suc, false, ◌≡◌, refl, ◌-◌, List, [], ◌∷◌, length, arith}
use luce.Timers.{Timer, TimerManager, expiry_at, find_id, remove_timer}
use luce.Timers.Heap.{IsHeap}
use luce.Timers.Kept.{Holds}
use luce.Tests.Parts.{at_time}
use luce.Timers.Removing.{remove_timer-IsHeap, remove_timer-broken}

abbrev manager : List (Timer ℕ) → TimerManager ℕ
manager ts = record { timers_ = ts; next_id = 20; stop_ = false }

abbrev four : List (Timer ℕ)
four = at_time 1 ∷ at_time 2 ∷ at_time 3 ∷ at_time 4 ∷ []

four-IsHeap : IsHeap four
unfolding expiry_at
four-IsHeap zero l = omega arith
four-IsHeap (suc zero) l = omega arith
four-IsHeap (suc (suc zero)) l = omega arith
four-IsHeap (suc (suc (suc i))) l = absurd (omega (arith, l))

remove_timer-IsHeap_example :
    IsHeap (remove_timer 2 (manager four)).timers_
    × (length (remove_timer 2 (manager four)).timers_ ≡ 4 - 1)
    × Holds (remove_timer 2 (manager four)).timers_ (at_time 3)
unfolding find_id expiry_at
remove_timer-IsHeap_example =
    remove_timer-IsHeap 2 1 (manager four) refl 2 (at_time 3) four-IsHeap (omega arith)
      (omega arith) refl

-- the timer for 4 takes the place of the one for 11, below the one for 10
abbrev seven : List (Timer ℕ)
seven = at_time 1 ∷ at_time 10 ∷ at_time 2 ∷ at_time 11 ∷ at_time 12 ∷ at_time 3 ∷ at_time 4 ∷ []

remove_timer-broken_example : ¬ IsHeap (remove_timer 11 (manager seven)).timers_
unfolding find_id expiry_at
remove_timer-broken_example =
    remove_timer-broken 11 3 (manager seven) refl 2 refl (omega arith) (omega arith) (omega arith)
