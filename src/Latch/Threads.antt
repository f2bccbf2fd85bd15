-- ===== src/Latch/Threads.antt =====
-- Which threads a latch lets through, on every interleaving, and which it leaves asleep.
use luce.Prelude.{
  ℕ, zero, suc, ◌≡◌, refl, true, ℤ, pos, negsuc, pred, is_positive, is_zero, Bool-cases, inl, inr,
}
use luce.Latch.{CountDownLatch, new_latch, wait, wake_one, count_down}

-- one step of some thread; a condition variable may also wake a thread without a notification
pub data Steps : CountDownLatch → CountDownLatch → Type 0 where
  none_yet : (l : CountDownLatch) → Steps l l
  waits : (l l' : CountDownLatch) → Steps l l' → Steps l (wait l')
  counts_down : (l l' : CountDownLatch) → Steps l l' → Steps l (count_down l')
  woken : (l l' : CountDownLatch) → Steps l l' → Steps l (wake_one l'.sleeping l')

abbrev IsShut : CountDownLatch → Type 0
IsShut l = is_positive l.count_ ≡ true → l.returned ≡ 0

wait-IsShut : (l : CountDownLatch) → IsShut l → IsShut (wait l)
unfolding wait
wait-IsShut l h = elim (Bool-cases (is_positive l.count_)) [
  | inl e ↦ rw e (λ _. h e)
  | inr e ↦ rw e (λ k. cc)
]

wake_one-IsShut : (n : ℕ) (l : CountDownLatch) → IsShut l → IsShut (wake_one n l)
unfolding wake_one
wake_one-IsShut zero l h = h
wake_one-IsShut (suc n) l h = elim (Bool-cases (is_positive l.count_)) [
  | inl e ↦ rw e (λ _. h e)
  | inr e ↦ rw e (λ k. cc)
]

pred-is_positive : (c : ℤ) → is_positive (pred c) ≡ true → is_positive c ≡ true
pred-is_positive (pos zero) h = cc
pred-is_positive (pos (suc n)) h = refl
pred-is_positive (negsuc n) h = cc

count_down-IsShut : (l : CountDownLatch) → IsShut l → IsShut (count_down l)
unfolding count_down
count_down-IsShut l h =
    let l' : CountDownLatch = record l { count_ = pred l.count_ } in
    let h' : IsShut l' = λ k. h (pred-is_positive l.count_ k) in
    elim (Bool-cases (is_zero (pred l.count_))) [
      | inl e ↦ rw e (wake_one-IsShut l.sleeping l' h')
      | inr e ↦ rw e h'
    ]

Steps-IsShut : (n : ℕ) (l : CountDownLatch) → Steps (new_latch n) l → IsShut l
unfolding new_latch
Steps-IsShut n _ (none_yet _) = λ k. refl
Steps-IsShut n _ (waits _ l' s) = wait-IsShut l' (Steps-IsShut n l' s)
Steps-IsShut n _ (counts_down _ l' s) = count_down-IsShut l' (Steps-IsShut n l' s)
Steps-IsShut n _ (woken _ l' s) = wake_one-IsShut l'.sleeping l' (Steps-IsShut n l' s)

-- On every interleaving of Wait, CountDown and wake-ups from a new latch, no Wait has returned while
-- the count is positive.
pub stays_shut :
    (n : ℕ) (l : CountDownLatch)
    → Steps (new_latch n) l
    → is_positive l.count_ ≡ true
    → l.returned ≡ 0
stays_shut n l s = Steps-IsShut n l s

abbrev pub times : ℕ → CountDownLatch → CountDownLatch
times zero l = l
times (suc n) l = times n (count_down l)

below_zero :
    (k m waiting returned : ℕ)
    → (times k record { count_ = negsuc m; sleeping = waiting; returned = returned }).sleeping
      ≡ waiting
unfolding count_down
below_zero zero m waiting returned = refl
below_zero (suc k) m waiting returned = below_zero k (suc m) waiting returned

-- The call of CountDown that brings the count to zero lets one of the sleeping threads through, and
-- no later call wakes another one: all the rest sleep on.
last_count_down :
    (k waiting returned : ℕ)
    → (times
        (suc k)
        record { count_ = pos 1; sleeping = suc waiting; returned = returned }).sleeping
      ≡ waiting
unfolding count_down wake_one
last_count_down zero waiting returned = refl
last_count_down (suc k) waiting returned = below_zero k 0 waiting (suc returned)
