-- ===== src/Events.antt =====
-- luce/net/event_manager.cpp and the state of luce/net/socket.h that it keeps: which events of a
-- socket epoll reports, and the coroutines to resume. epoll_ctl is the kernel's: the argument
-- `epoll_ctl` says whether a call succeeds on a descriptor with the given registration. LOG_FATAL ends
-- the program. A coroutine is a number.
pub mod Registration
pub mod Loop
use luce.Prelude.{
  ℕ, Bool, true, false, Option, none, some, if◌then◌else◌, Outcome, ok, exits, ◌>>=◌,
}

-- the bits EPOLLIN, EPOLLOUT and EPOLLET of an event mask
pub record Mask : Type 0 where
  pub epollin : Bool
  pub epollout : Bool
  pub epollet : Bool

-- EPOLL_CTL_ADD, EPOLL_CTL_MOD, EPOLL_CTL_DEL
pub data Ctl : Type 0 where
  ctl_add ctl_mod ctl_del : Ctl

pub record Socket : Type 0 where
  pub recv_coro : Option ℕ
  pub send_coro : Option ℕ
  pub io_state : Mask
  pub detached : Bool

-- a socket, what epoll holds of it, and the manager's flag
pub record Watched : Type 0 where
  pub socket : Socket
  pub registered : Option Mask
  pub is_shutdown : Bool

-- Socket's SetRecvCoro, DelRecvCoro, SetSendCoro and DelSendCoro
unfoldable pub set_recv_coro : Option ℕ → Watched → Watched
set_recv_coro coro w = record w { socket = record w.socket { recv_coro = coro } }

unfoldable pub set_send_coro : Option ℕ → Watched → Watched
set_send_coro coro w = record w { socket = record w.socket { send_coro = coro } }

module _ (epoll_ctl : Ctl → Option Mask → Bool) where
  unfoldable pub attach : Mask → Watched → Outcome Watched
  attach events w =
      let socket : Socket = record w.socket { io_state = events; detached = false } in
      if epoll_ctl ctl_add w.registered
      then ok record w { socket = socket; registered = some events }
      else exits

  unfoldable pub detach : Watched → Outcome Watched
  detach w =
      let socket : Socket = record w.socket { detached = true } in
      if epoll_ctl ctl_del w.registered
      then ok record w { socket = socket; registered = none }
      else exits

  unfoldable pub update_event : Mask → Watched → Outcome Watched
  update_event new_state w =
      if epoll_ctl ctl_mod w.registered then ok record w { registered = some new_state } else exits

  -- SetIOState and UpdateEvent
  unfoldable pub set_state : Mask → Watched → Outcome Watched
  set_state new_state w =
      let socket : Socket = record w.socket { io_state = new_state } in
      update_event new_state record w { socket = socket }

  -- the `if` that attaches a socket first
  unfoldable pub attached : Mask → Watched → Outcome Watched
  attached events w = if w.socket.detached then attach events w else ok w

  unfoldable pub add_recv : ℕ → Watched → Outcome Watched
  add_recv recv_coro w = if w.is_shutdown then ok w else (do
    w' ← attached record { epollin = true; epollout = false; epollet = true } w
    set_state (record w'.socket.io_state { epollin = true }) (set_recv_coro (some recv_coro) w'))

  unfoldable pub del_recv : Watched → Outcome Watched
  del_recv w =
      if w.is_shutdown
      then ok w
      else set_state (record w.socket.io_state { epollin = false }) (set_recv_coro none w)

  unfoldable pub add_send : ℕ → Watched → Outcome Watched
  add_send send_coro w = if w.is_shutdown then ok w else (do
    w' ← attached record { epollin = false; epollout = true; epollet = true } w
    set_state (record w'.socket.io_state { epollout = true }) (set_send_coro (some send_coro) w'))

  unfoldable pub del_send : Watched → Outcome Watched
  del_send w =
      if w.is_shutdown
      then ok w
      else set_state (record w.socket.io_state { epollout = false }) (set_send_coro none w)
