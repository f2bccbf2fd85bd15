-- ===== src/Tcp/Accepting.antt =====
-- What AcceptLoop does on a kernel that keeps the manual page's rules, once its first accept waits.
use luce.Prelude.{ℕ, ◌≡◌, refl, Bool, true, false, Option, none, some, List, [], ◌∷◌, map, ok}
use luce.Events.{Mask, Ctl, Socket}
use luce.Events.Registration.{IsEpoll}
use luce.Awaiters.{await_accept}
use luce.Awaiters.Waiting.{
  watch, received, add_recv-receiving, del_recv-received, del_recv-attached,
}
use luce.Tcp.Connection.{TcpConnection, new_connection}
use luce.Tcp.Server.{Round, accept, accept_loop}

abbrev pub round : Bool → Option ℕ → Option ℕ → Round
round is_shutdown given again = record { is_shutdown = is_shutdown; given = given; again = again }

-- rounds that end with Shutdown, and the descriptors that accept4 gave, at once or behind a wait
pub data Accepts : List Round → List ℕ → Type 0 where
  stops :
      (given again : Option ℕ) (rounds : List Round) → Accepts (round true given again ∷ rounds) []
  finds :
      (fd : ℕ) (again : Option ℕ) (rounds : List Round) (fds : List ℕ)
      → Accepts rounds fds
      → Accepts (round false (some fd) again ∷ rounds) (fd ∷ fds)
  waits :
      (fd : ℕ) (rounds : List Round) (fds : List ℕ)
      → Accepts rounds fds
      → Accepts (round false none (some fd) ∷ rounds) (fd ∷ fds)
  misses :
      (rounds : List Round) (fds : List ℕ)
      → Accepts rounds fds
      → Accepts (round false none none ∷ rounds) fds

abbrev connections : List ℕ → List TcpConnection
connections = map (λ fd. new_connection (some fd))

module _ (epoll_ctl : Ctl → Option Mask → Bool) (e : IsEpoll epoll_ctl) (handle : ℕ) where
  abbrev listening : Option ℕ → Option ℕ → Mask → Bool → Socket
  listening r s m detached = record {
    recv_coro = r;
    send_coro = s;
    io_state = m;
    detached = detached;
  }

  accept-waits :
      (again : Option ℕ) (r s : Option ℕ) (m : Mask) (detached : Bool)
      → await_accept epoll_ctl none again handle (watch (listening r s m detached))
        ≡ ok (again, watch (received (listening r s m detached)))
  unfolding await_accept
  accept-waits again r s m detached =
      rw
        (
          add_recv-receiving epoll_ctl e handle r s m detached,
          del_recv-received epoll_ctl e handle r s m detached,
        )
        refl

  accept-finds :
      (fd : ℕ) (again : Option ℕ) (r s : Option ℕ) (m : Mask)
      → await_accept epoll_ctl (some fd) again handle (watch (listening r s m false))
        ≡ ok (some fd, watch (received (listening r s m false)))
  unfolding await_accept
  accept-finds fd again r s m = rw (del_recv-attached epoll_ctl e r s m) refl

  loop_attached :
      (rounds : List Round) (fds : List ℕ) (r s : Option ℕ) (m : Mask)
      → Accepts rounds fds
      → (s' : Socket) × (accept_loop epoll_ctl handle rounds (watch (listening r s m false))
          ≡ ok (connections fds, watch s'))
  unfolding accept_loop accept
  loop_attached _ _ r s m (stops given again rounds) = (listening r s m false, refl)
  loop_attached _ _ r s m (finds fd again rounds fds h) =
      let (s', e') = loop_attached rounds fds none s (record m { epollin = false }) h in
      (s', rw (accept-finds fd again r s m, e') refl)
  loop_attached _ _ r s m (waits fd rounds fds h) =
      let (s', e') = loop_attached rounds fds none s (record m { epollin = false }) h in
      (s', rw (accept-waits (some fd) r s m false, e') refl)
  loop_attached _ _ r s m (misses rounds fds h) =
      let (s', e') = loop_attached rounds fds none s (record m { epollin = false }) h in
      (s', rw (accept-waits none r s m false, e') refl)

  first_attached :
      (rounds : List Round) (fds : List ℕ) (again : Option ℕ) (r s : Option ℕ) (m : Mask)
      (detached : Bool)
      → Accepts rounds fds
      → (s' : Socket) × (accept_loop epoll_ctl handle rounds
            (watch (received (listening r s m detached)))
          ≡ ok (connections fds, watch s'))
  first_attached rounds fds again r s m true h =
      loop_attached rounds fds none s record { epollin = false; epollout = false; epollet = true } h
  first_attached rounds fds again r s m false h =
      loop_attached rounds fds none s (record m { epollin = false }) h

  first_round :
      (rounds : List Round) (fds : List ℕ) (r s : Option ℕ) (m : Mask) (detached : Bool)
      (again : Option ℕ)
      → Accepts (round false none again ∷ rounds) fds
      → (s' : Socket) × (accept_loop epoll_ctl handle
            (round false none again ∷ rounds)
            (watch (listening r s m detached))
          ≡ ok (connections fds, watch s'))
  unfolding accept_loop accept
  first_round rounds _ r s m detached _ (waits fd _ fds h) =
      let (s', e') = first_attached rounds fds (some fd) r s m detached h in
      (s', rw (accept-waits (some fd) r s m detached, e') refl)
  first_round rounds fds r s m detached _ (misses _ _ h) =
      let (s', e') = first_attached rounds fds none r s m detached h in
      (s', rw (accept-waits none r s m detached, e') refl)

  -- AcceptLoop, from any state of the listening socket, if its first accept finds no connection at
  -- once: until Shutdown it commits a handler for each descriptor that accept4 gives, found at once or
  -- behind a wait, in their order, for a new connection over it; a failure is passed over, and
  -- nothing ends the program.
  pub accept_loop-Accepts :
      (socket : Socket) (again : Option ℕ) (rounds : List Round) (fds : List ℕ)
      → Accepts (round false none again ∷ rounds) fds
      → (s' : Socket) × (accept_loop epoll_ctl handle
            (round false none again ∷ rounds)
            (watch socket)
          ≡ ok (map (λ fd. new_connection (some fd)) fds, watch s'))
  accept_loop-Accepts socket again rounds fds h =
      first_round rounds fds socket.recv_coro socket.send_coro socket.io_state socket.detached again
        h
