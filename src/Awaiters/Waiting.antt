-- ===== src/Awaiters/Waiting.antt =====
-- What an awaiter gives back, and how it leaves the socket's registration.
use luce.Prelude.{ℕ, ◌≡◌, refl, Bool, true, false, Option, none, some, if◌then◌else◌, ok, exits}
use luce.Events.{
  Mask, Ctl, Socket, Watched, attach, update_event, set_state, attached, set_recv_coro, add_recv,
  del_recv,
}
use luce.Events.Registration.{expected, IsEpoll, del_recv-detached}
use luce.Awaiters.{
  Connection, close, first_result, read_suspend, read_resume, await_read, await_accept,
}

-- a socket as its manager keeps it
abbrev pub watch : Socket → Watched
watch s = record { socket = s; registered = expected s; is_shutdown = false }

abbrev pub open_on : Socket → Connection
open_on s = record { watched = watch s; is_closed_ = false }

-- the socket while a coroutine waits for input, and behind that
abbrev pub receiving : ℕ → Socket → Socket
receiving handle s = record s {
  recv_coro = some handle;
  io_state =
      if s.detached
      then record { epollin = true; epollout = false; epollet = true }
      else record s.io_state { epollin = true };
  detached = false;
}

abbrev pub received : Socket → Socket
received s = record s {
  recv_coro = none;
  io_state =
      if s.detached
      then record { epollin = false; epollout = false; epollet = true }
      else record s.io_state { epollin = false };
  detached = false;
}

module _ (epoll_ctl : Ctl → Option Mask → Bool) (e : IsEpoll epoll_ctl) where
  abbrev pub socket : Option ℕ → Option ℕ → Mask → Bool → Socket
  socket r s m d = record { recv_coro = r; send_coro = s; io_state = m; detached = d }

  pub add_recv-receiving :
      (handle : ℕ) (r s : Option ℕ) (m : Mask) (d : Bool)
      → add_recv epoll_ctl handle (watch (socket r s m d))
        ≡ ok (watch (receiving handle (socket r s m d)))
  unfolding add_recv attached attach set_state update_event set_recv_coro
  add_recv-receiving handle r s m true =
      rw (e.adds, e.changes record { epollin = true; epollout = false; epollet = true }) refl
  add_recv-receiving handle r s m false = rw (e.changes m) refl

  pub del_recv-received :
      (handle : ℕ) (r s : Option ℕ) (m : Mask) (d : Bool)
      → del_recv epoll_ctl (watch (receiving handle (socket r s m d)))
        ≡ ok (watch (received (socket r s m d)))
  unfolding del_recv set_state update_event set_recv_coro
  del_recv-received handle r s m true =
      rw (e.changes record { epollin = true; epollout = false; epollet = true }) refl
  del_recv-received handle r s m false = rw (e.changes record m { epollin = true }) refl

  pub del_recv-attached :
      (r s : Option ℕ) (m : Mask)
      → del_recv epoll_ctl (watch (socket r s m false)) ≡ ok (watch (received (socket r s m false)))
  unfolding del_recv set_state update_event set_recv_coro
  del_recv-attached r s m = rw (e.changes m) refl

  -- An awaiter of read on an open connection gives what its first read returns, and then leaves the
  -- connection as it is; where that read fails it waits for input, gives what its second read returns,
  -- and leaves no coroutine waiting for input. If the connection is closed while it waits, it gives the
  -- failure; the descriptor is then in no epoll set, and the socket keeps the coroutine's handle.
  pub await_read-open :
      (given again : Option ℕ) (handle : ℕ) (s : Socket)
      → (await_read epoll_ctl given again handle (λ c. c) (open_on s)
          ≡ ok (elim given [ some n ↦ (some n, open_on s) | none ↦ (again, open_on (received s)) ]))
        × (await_read epoll_ctl given again handle close (open_on s)
            ≡ ok (elim given [
              | some n ↦ (some n, open_on s)
              | none ↦ (none, close (open_on (receiving handle s)))
            ]))
  unfolding await_read first_result read_suspend read_resume close
  await_read-open (some n) again handle s = (refl, refl)
  await_read-open none again handle s =
      let adds = add_recv-receiving handle s.recv_coro s.send_coro s.io_state s.detached in
      let dels = del_recv-received handle s.recv_coro s.send_coro s.io_state s.detached in
      (rw (adds, dels) refl, rw adds refl)

  -- An accept that finds a connection at once, on a listening socket that is not attached yet, ends the
  -- program.
  await_accept-at_once :
      (fd : ℕ) (again : Option ℕ) (handle : ℕ) (s : Socket)
      → s.detached ≡ true
      → await_accept epoll_ctl (some fd) again handle (watch s) ≡ exits
  unfolding await_accept
  await_accept-at_once fd again handle s d = rw (del_recv-detached epoll_ctl e s d) refl
