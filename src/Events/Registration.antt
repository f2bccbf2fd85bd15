-- ===== src/Events/Registration.antt =====
-- What epoll holds of a socket is what the socket's own state says.
use luce.Prelude.{
  ℕ, ◌≡◌, refl, Bool, true, false, Option, none, some, if◌then◌else◌, ok, exits, Bool-cases, inl,
  inr,
}
use luce.Events.{
  Mask, Ctl, ctl_add, ctl_mod, ctl_del, Socket, Watched, attach, update_event, set_state, attached,
  set_recv_coro, add_recv, del_recv,
}

-- a detached socket is not registered, an attached one with its own state
abbrev pub expected : Socket → Option Mask
expected s = if s.detached then none else some s.io_state

-- epoll_ctl as its manual page says: ADD of a descriptor that is not registered and MOD and DEL of one that
-- is succeed, and MOD of one that is not fails
pub record IsEpoll (epoll_ctl : Ctl → Option Mask → Bool) : Type 0 where
  pub adds : epoll_ctl ctl_add none ≡ true
  pub changes : (m : Mask) → epoll_ctl ctl_mod (some m) ≡ true
  pub fails : epoll_ctl ctl_mod none ≡ false
  pub removes : (m : Mask) → epoll_ctl ctl_del (some m) ≡ true
  pub has_none : epoll_ctl ctl_del none ≡ false

module _ (epoll_ctl : Ctl → Option Mask → Bool) (e : IsEpoll epoll_ctl) where
  -- AddRecv on a manager that runs and a socket whose registration is as expected: it succeeds, the
  -- socket is attached and waits for input with this coroutine, epoll holds exactly its state, and the
  -- coroutine that waits for output stays.
  add_recv-registers :
      (coro : ℕ) (s : Socket)
      → (w' : Watched) × (add_recv epoll_ctl coro
            record { socket = s; registered = expected s; is_shutdown = false }
          ≡ ok w')
        × (w'.registered ≡ expected w'.socket)
        × (w'.socket.detached ≡ false)
        × (w'.socket.io_state.epollin ≡ true)
        × (w'.socket.recv_coro ≡ some coro)
        × (w'.socket.send_coro ≡ s.send_coro)
  unfolding add_recv attached attach set_state update_event set_recv_coro
  add_recv-registers coro s = elim (Bool-cases s.detached) [
    | inl d ↦ (
      record {
        socket = record {
          recv_coro = some coro;
          send_coro = s.send_coro;
          io_state = record { epollin = true; epollout = false; epollet = true };
          detached = false;
        };
        registered = some record { epollin = true; epollout = false; epollet = true };
        is_shutdown = false;
      },
      rw
          (
            attached,
            d,
            e.adds,
            e.changes record { epollin = true; epollout = false; epollet = true },
          )
          refl,
      refl,
      refl,
      refl,
      refl,
      refl,
    )
    | inr d ↦ (
      record {
        socket = record s {
          recv_coro = some coro;
          io_state = record s.io_state { epollin = true };
        };
        registered = some (record s.io_state { epollin = true });
        is_shutdown = false;
      },
      rw (attached, d, e.changes s.io_state) refl,
      rw d refl,
      d,
      refl,
      refl,
      refl,
    )
  ]

  -- DelRecv, on a manager that runs, of a socket that is not attached and that epoll does not know
  -- ends the program.
  pub del_recv-detached :
      (s : Socket)
      → s.detached ≡ true
      → del_recv epoll_ctl record { socket = s; registered = expected s; is_shutdown = false }
        ≡ exits
  unfolding del_recv set_state update_event set_recv_coro
  del_recv-detached s d = rw (d, e.fails) refl
