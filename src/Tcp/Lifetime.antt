-- ===== src/Tcp/Lifetime.antt =====
-- The life of a connection on a kernel that keeps the manual page's rules: its descriptor is closed
-- just once, unless the end of its last owner ends the program.
use luce.Prelude.{
  ℕ, ◌≡◌, refl, Bool, true, false, Option, none, some, List, [], ◌∷◌, if◌then◌else◌, ok, exits, ◌⊎◌,
  inl, inr,
}
use luce.Events.{
  Mask, Ctl, attach, detach, update_event, set_state, attached, set_recv_coro, set_send_coro,
  add_recv, del_recv, add_send, del_send,
}
use luce.Events.Registration.{IsEpoll}
use luce.Awaiters.{read_suspend, read_resume, write_suspend, write_resume}
use luce.Tcp.Connection.{
  TcpConnection, idle, new_connection, close, destroy, Turn, waits_to_read, waits_to_write,
  can_read, can_write, closes, take_turn, take_turns,
}

-- a connection whose registration and count of closings are as its flags say
abbrev state_of : ℕ → Option ℕ → Option ℕ → Mask → Bool → Bool → TcpConnection
state_of n r s m detached closed = record {
  seen = record {
    watched = record {
      socket = record { recv_coro = r; send_coro = s; io_state = m; detached = detached };
      registered = if closed then none else if detached then none else some m;
      is_shutdown = false;
    };
    is_closed_ = closed;
  };
  fd = some n;
  socket_closed = closed;
  closings = if closed then 1 else 0;
}

-- A coroutine waits only on a socket that is attached.
data IsSound (n : ℕ) : TcpConnection → Type 0 where
  unused : (m : Mask) (closed : Bool) → IsSound n (state_of n none none m true closed)
  attached_once :
      (r s : Option ℕ) (m : Mask) (closed : Bool) → IsSound n (state_of n r s m false closed)

-- how a connection ends: closed once and in no epoll set, or, closed by Close behind its first wait,
-- with the program
abbrev pub Ends : (Ctl → Option Mask → Bool) → TcpConnection → Type 0
Ends epoll_ctl c =
    ((c.seen.is_closed_ ≡ true)
      × (c.seen.watched.socket.detached ≡ false)
      × (destroy epoll_ctl c ≡ exits))
    ⊎ ((c' : TcpConnection) × (destroy epoll_ctl c ≡ ok c')
        × (c'.closings ≡ 1)
        × (c'.seen.watched.registered ≡ none))

module _ (epoll_ctl : Ctl → Option Mask → Bool) (e : IsEpoll epoll_ctl) (n : ℕ) where
  abbrev TurnsSound : Turn → TcpConnection → Type 0
  TurnsSound t c = (c' : TcpConnection) × (take_turn epoll_ctl t c ≡ ok c') × IsSound n c'

  unused-TurnsSound :
      (t : Turn) (m : Mask) (closed : Bool) → TurnsSound t (state_of n none none m true closed)
  unfolding take_turn close read_suspend write_suspend add_recv add_send attached attach set_state
      update_event set_recv_coro set_send_coro
  unused-TurnsSound (waits_to_read h) m true = (_, refl, unused m true)
  unused-TurnsSound (waits_to_read h) m false =
      let m' : Mask = record { epollin = true; epollout = false; epollet = true } in
      (
        state_of n (some h) none m' false false,
        rw (e.adds, e.changes m') refl,
        attached_once (some h) none m' false,
      )
  unused-TurnsSound (waits_to_write h) m true = (_, refl, unused m true)
  unused-TurnsSound (waits_to_write h) m false =
      let m' : Mask = record { epollin = false; epollout = true; epollet = true } in
      (
        state_of n none (some h) m' false false,
        rw (e.adds, e.changes m') refl,
        attached_once none (some h) m' false,
      )
  unused-TurnsSound (can_read again) m closed = (_, refl, unused m closed)
  unused-TurnsSound (can_write again) m closed = (_, refl, unused m closed)
  unused-TurnsSound closes m true = (_, refl, unused m true)
  unused-TurnsSound closes m false = (_, refl, unused m true)

  attached-TurnsSound :
      (t : Turn) (r s : Option ℕ) (m : Mask) (closed : Bool)
      → TurnsSound t (state_of n r s m false closed)
  unfolding take_turn close read_suspend write_suspend read_resume write_resume add_recv add_send
      del_recv del_send attached set_state update_event set_recv_coro set_send_coro
  attached-TurnsSound (waits_to_read h) r s m true = (_, refl, attached_once r s m true)
  attached-TurnsSound (waits_to_read h) r s m false =
      let m' : Mask = record m { epollin = true } in
      (
        state_of n (some h) s m' false false,
        rw (e.changes m) refl,
        attached_once (some h) s m' false,
      )
  attached-TurnsSound (waits_to_write h) r s m true = (_, refl, attached_once r s m true)
  attached-TurnsSound (waits_to_write h) r s m false =
      let m' : Mask = record m { epollout = true } in
      (
        state_of n r (some h) m' false false,
        rw (e.changes m) refl,
        attached_once r (some h) m' false,
      )
  attached-TurnsSound (can_read again) none s m closed = (_, refl, attached_once none s m closed)
  attached-TurnsSound (can_read again) (some h) s m true =
      (_, refl, attached_once (some h) s m true)
  attached-TurnsSound (can_read again) (some h) s m false =
      let m' : Mask = record m { epollin = false } in
      (state_of n none s m' false false, rw (e.changes m) refl, attached_once none s m' false)
  attached-TurnsSound (can_write again) r none m closed = (_, refl, attached_once r none m closed)
  attached-TurnsSound (can_write again) r (some h) m true =
      (_, refl, attached_once r (some h) m true)
  attached-TurnsSound (can_write again) r (some h) m false =
      let m' : Mask = record m { epollout = false } in
      (state_of n r none m' false false, rw (e.changes m) refl, attached_once r none m' false)
  attached-TurnsSound closes r s m true = (_, refl, attached_once r s m true)
  attached-TurnsSound closes r s m false = (_, refl, attached_once r s m true)

  IsSound-TurnsSound : (t : Turn) (c : TcpConnection) → IsSound n c → TurnsSound t c
  IsSound-TurnsSound t _ (unused m closed) = unused-TurnsSound t m closed
  IsSound-TurnsSound t _ (attached_once r s m closed) = attached-TurnsSound t r s m closed

  take_turns-IsSound :
      (ts : List Turn) (c : TcpConnection)
      → IsSound n c
      → (c' : TcpConnection) × (take_turns epoll_ctl ts c ≡ ok c') × IsSound n c'
  unfolding take_turns
  take_turns-IsSound [] c h = (c, refl, h)
  take_turns-IsSound (t ∷ ts) c h =
      let (c1, e1, h1) = IsSound-TurnsSound t c h in
      let (c2, e2, h2) = take_turns-IsSound ts c1 h1 in (c2, rw (e1, e2) refl, h2)

  IsSound-Ends : (c : TcpConnection) → IsSound n c → Ends epoll_ctl c
  unfolding destroy detach
  IsSound-Ends _ (unused m true) = inr (_, refl, refl, refl)
  IsSound-Ends _ (unused m false) = inr (_, refl, refl, refl)
  IsSound-Ends _ (attached_once r s m true) = inl (refl, refl, rw e.has_none refl)
  IsSound-Ends _ (attached_once r s m false) =
      inr (record (state_of n r s m true false) { closings = 1 }, rw (e.removes m) refl, refl, refl)

  -- Whatever happens to an open connection, in any order, of waits, resumptions and Close, nothing ends
  -- the program. When its last owner then lets it go, the descriptor has been closed just once and no
  -- epoll set holds it; or Close had closed it behind its first wait, and ~TcpConnection ends the
  -- program, since epoll_ctl fails on the closed descriptor.
  pub new_connection-Ends :
      (ts : List Turn)
      → (c : TcpConnection) × (take_turns epoll_ctl ts (new_connection (some n)) ≡ ok c)
        × Ends epoll_ctl c
  unfolding new_connection
  new_connection-Ends ts =
      let (c, e, h) = take_turns-IsSound ts (new_connection (some n)) (unused idle false) in
      (c, e, IsSound-Ends c h)
