-- ===== src/Timers/Ticks.antt =====
-- What Tick starts. `pop` keeps a reference to the vector's first place and copies it after Erase(0).
use luce.Prelude.{
  ℕ, zero, suc, ◌/◌, ◌≤◌, ◌<◌, ◌≡◌, refl, Bool, true, some, List, [], ◌∷◌, leb, length, ok,
  undefined, arith,
}
use luce.Timers.{Timer, swap, expiry_at, smaller_index, heapify_down, erase, pop, tick}
use luce.Timers.Heap.{IsHeap}

le→leb : (a b : ℕ) → a ≤ b → leb a b ≡ true
le→leb a b h = ground arith

module _ {Task : Type 0} where
  earliest :
      (fuel : ℕ) (ts : List (Timer Task)) (i : ℕ)
      → i ≤ fuel
      → IsHeap ts
      → i < length ts
      → expiry_at ts 0 ≤ expiry_at ts i
  earliest fuel ts zero enough h l = omega arith
  earliest zero ts (suc i) enough h l = absurd (omega arith)
  earliest (suc fuel) ts (suc i) enough h l =
      omega (arith, h i l, earliest fuel ts (i / 2) (omega (arith, enough)) h (omega (arith, l)))

  -- In a heap no timer expires before the first, so that testing the first one is enough for Tick.
  front-IsEarliest :
      (ts : List (Timer Task)) (i : ℕ) → IsHeap ts → i < length ts → expiry_at ts 0 ≤ expiry_at ts i
  front-IsEarliest ts i h l = earliest i ts i (omega arith) h l

  -- If a manager's only timer is due, Tick reads a timer that is already destroyed: it has no defined
  -- result, and the task is not started.
  tick_one_timer :
      (now next_id : ℕ) (unset t : Timer Task) (stop_ : Bool)
      → t.expiry_time ≤ now
      → tick now unset record { timers_ = t ∷ []; next_id = next_id; stop_ = stop_ } ≡ undefined
  unfolding tick pop erase swap heapify_down
  tick_one_timer now next_id unset t stop_ due = rw (le→leb t.expiry_time now due) refl

  -- If the first of two timers is due, Tick starts the task of the second, whatever its time is, and
  -- takes the first timer out, whose task it does not start; the second timer stays in the manager.
  pub tick_two_timers :
      (now next_id : ℕ) (unset t u : Timer Task) (stop_ : Bool)
      → t.expiry_time ≤ now
      → tick now unset record { timers_ = t ∷ u ∷ []; next_id = next_id; stop_ = stop_ }
        ≡ ok (some u.task, record { timers_ = u ∷ []; next_id = next_id; stop_ = stop_ })
  unfolding tick pop erase swap heapify_down smaller_index
  tick_two_timers now next_id unset t u stop_ due = rw (le→leb t.expiry_time now due) refl
