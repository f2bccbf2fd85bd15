-- ===== src/Latch.antt =====
-- luce/common/count_down_latch.h: each method body is one step under the mutex, but for Wait, whose
-- thread sleeps in the condition variable and tests the count again each time it is woken. The state
-- counts the threads that sleep and those whose Wait has returned. The count is an int32_t; 2 ^ 31
-- calls of CountDown below zero, where it overflows, are left out. A notified thread tests the count
-- in the step that notifies it: once the count is not positive it stays so, and a later test is the same.
pub mod Threads
use luce.Prelude.{
  ℕ, zero, suc, Bool, true, false, if◌then◌else◌, ℤ, pos, negsuc, pred, is_positive, is_zero,
}

pub record CountDownLatch : Type 0 where
  pub count_ : ℤ
  pub sleeping : ℕ
  pub returned : ℕ

unfoldable pub new_latch : ℕ → CountDownLatch
new_latch count = record { count_ = pos count; sleeping = 0; returned = 0 }

-- a thread calls Wait
unfoldable pub wait : CountDownLatch → CountDownLatch
wait l =
    if is_positive l.count_
    then record l { sleeping = suc l.sleeping }
    else record l { returned = suc l.returned }

-- one sleeping thread, if there is any, is woken and tests the count again
unfoldable pub wake_one : ℕ → CountDownLatch → CountDownLatch
wake_one zero l = l
wake_one (suc n) l =
    if is_positive l.count_ then l else record l { sleeping = n; returned = suc l.returned }

unfoldable pub count_down : CountDownLatch → CountDownLatch
count_down l =
    let l' : CountDownLatch = record l { count_ = pred l.count_ } in
    if is_zero l'.count_ then wake_one l'.sleeping l' else l'

unfoldable pub get_count : CountDownLatch → ℤ
get_count l = l.count_
