-- ===== src/Tests/Sockets.antt =====
-- A socket's registration with a kernel that keeps the manual page's rules.
use luce.Prelude.{◌≡◌, refl, Bool, true, false, Option, none, some, ok}
use luce.Events.{Mask, Ctl, ctl_add, Socket}
use luce.Events.Registration.{IsEpoll}
use luce.Awaiters.{await_read, close}
use luce.Awaiters.Waiting.{open_on, receiving, received, await_read-open}

abbrev pub kernel : Ctl → Option Mask → Bool
kernel ctl_add none = true
kernel ctl_add (some m) = false
kernel _ none = false
kernel _ (some m) = true

pub kernel-IsEpoll : IsEpoll kernel
kernel-IsEpoll = record {
  adds = refl;
  changes = λ m. refl;
  fails = refl;
  removes = λ m. refl;
  has_none = refl;
}

abbrev pub listener : Socket
listener = record {
  recv_coro = none;
  send_coro = none;
  io_state = record { epollin = false; epollout = false; epollet = false };
  detached = true;
}

await_read-open_example :
    (await_read kernel none (some 5) 7 (λ c. c) (open_on listener)
      ≡ ok (some 5, open_on (received listener)))
    × (await_read kernel none (some 5) 7 close (open_on listener)
        ≡ ok (none, close (open_on (receiving 7 listener))))
await_read-open_example = await_read-open kernel kernel-IsEpoll none (some 5) 7 listener
