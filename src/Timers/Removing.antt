-- ===== src/Timers/Removing.antt =====
-- RemoveTimer: the timer with the id goes, the others stay, and the heap order with them unless the last
-- timer has to rise.
use luce.Prelude.{
  ℕ, suc, ◌+◌, ◌-◌, ◌*◌, ◌/◌, ◌≤◌, ◌<◌, ◌≡◌, ◌≢◌, refl, none, some, List, [], ◌∷◌, length,
  get_elem?, arith, ◌==◌, Bool-cases, Option-cases, inl, inr,
}
use luce.Timers.{Timer, TimerManager, expiry_at, erase, find_id, remove_timer}
use luce.Timers.Heap.{IsHeap}
use luce.Timers.Erasing.{MayTake, erase-IsHeap, erase-broken}
use luce.Timers.Kept.{Holds, below_length, erase-Holds, length-erase}

number_of : (a b : ℕ) → some a ≡ some b → a ≡ b
number_of a b e = cc

module _ {Task : Type 0} where
  find_id-below :
      (timer_id : ℕ) (ts : List (Timer Task)) (i : ℕ) → find_id timer_id ts ≡ some i → i < length ts
  unfolding find_id
  find_id-below timer_id [] i e = absurd (cc)
  find_id-below timer_id (t ∷ ts) i e = elim (Bool-cases (t.timer_id == timer_id)) [
    | inl hit ↦ omega (arith, number_of 0 i (rw hit at e))
    | inr miss ↦ elim (Option-cases (find_id timer_id ts)) [
      | inl gone ↦ absurd (let f : none ≡ some i = rw (miss, gone) at e in cc)
      | inr (k, there) ↦
          let f : some (suc k) ≡ some i = rw (miss, there) at e in
          omega (arith, number_of (suc k) i f, find_id-below timer_id ts k there)
    ]
  ]

  module _ (timer_id index : ℕ) (m : TimerManager Task)
      (found : find_id timer_id m.timers_ ≡ some index) where
    removed : (remove_timer timer_id m).timers_ ≡ erase index m.timers_
    unfolding remove_timer
    removed = rw (remove_timer, found) refl

    -- RemoveTimer of a timer that is there takes one timer out, keeps each timer t at another place x,
    -- and keeps the heap order, if the removed timer is the first or the last one does not expire
    -- before the parent of the removed one.
    pub remove_timer-IsHeap :
        (x : ℕ) (t : Timer Task)
        → IsHeap m.timers_
        → MayTake index m.timers_
        → x ≢ index
        → get_elem? m.timers_ x ≡ some t
        → IsHeap (remove_timer timer_id m).timers_
          × (length (remove_timer timer_id m).timers_ ≡ length m.timers_ - 1)
          × Holds (remove_timer timer_id m).timers_ t
    remove_timer-IsHeap x t order may ne e =
        let inside = find_id-below timer_id m.timers_ index found in
        rw removed (
          erase-IsHeap index m.timers_ inside order may,
          length-erase index m.timers_,
          erase-Holds index x m.timers_ t inside (below_length m.timers_ x t e) ne e,
        )

    -- Otherwise the order can be lost: where no timer stands behind the removed one as its child, and its
    -- parent expires after the last timer, that last timer takes the place below a later one, so what
    -- RemoveTimer leaves is no heap.
    pub remove_timer-broken :
        (p : ℕ)
        → index ≡ suc p
        → index < length m.timers_ - 1
        → length m.timers_ - 1 ≤ index * 2 + 1
        → expiry_at m.timers_ (length m.timers_ - 1) < expiry_at m.timers_ (p / 2)
        → ¬ IsHeap (remove_timer timer_id m).timers_
    remove_timer-broken p e inside leaf less =
        rw removed
          (rw e (erase-broken p m.timers_ (omega (arith, e, inside)) (omega (arith, e, leaf)) less))
