-- ===== src/Tcp/Starting.antt =====
-- The server's constructor over what socket, bind, listen and epoll_create1 give, and the turns of its
-- sub reactors.
use luce.Prelude.{
  ℕ, zero, suc, ◌+◌, ◌-◌, ◌/◌, ◌%◌, ◌^◌, ◌≤◌, ◌<◌, ◌≡◌, ◌⊎◌, inl, inr, Bool-cases, refl, ap, ◌∙◌,
  Bool, true, false, Option, none, some, List, [], ◌∷◌, ◌++◌, replicate, length, get_elem?, ◌==◌,
  Outcome, ok, exits, ◌>>=◌, arith, length-append, append_assoc, length-replicate,
}
use luce.Tcp.Server.{
  SocketCall, set_nonblock, reuse_addr, bind_address, listen, checked_call, new_acceptor,
  EventManager, new_event_manager, sub_reactors, sub_reactor_count, TcpServer, new_server,
  get_sub_reactor,
}

sub_reactors-limit :
    (count n : ℕ) (created : List Bool)
    → n < count
    → sub_reactors count (replicate n true ++ false ∷ created) ≡ exits
unfolding sub_reactors
sub_reactors-limit zero n created h = absurd (omega arith)
sub_reactors-limit (suc count) zero created h = refl
sub_reactors-limit (suc count) (suc n) created h =
    rw (sub_reactors-limit count n created (omega arith)) refl

abbrev pub sub_reactor : EventManager
sub_reactor = record { init_size = 16; is_shutdown_ = false }

sub_reactors-made :
    (count : ℕ) (created : List Bool)
    → sub_reactors count (replicate count true ++ created)
      ≡ ok (replicate count sub_reactor, created)
unfolding sub_reactors
sub_reactors-made zero created = refl
sub_reactors-made (suc count) created = rw (sub_reactors-made count created) refl

few_threads : (thread_num : ℕ) → thread_num < 2 → sub_reactor_count thread_num ≡ 2 ^ 64 - 1
unfolding sub_reactor_count
few_threads thread_num h = omega arith

enough_threads :
    (thread_num : ℕ)
    → 2 ≤ thread_num
    → thread_num < 2 ^ 64
    → sub_reactor_count thread_num ≡ thread_num / 2 - 1
unfolding sub_reactor_count
enough_threads thread_num h k = omega arith

module _ (thread_num sock_fd : ℕ) (succeeds : SocketCall → Bool) where
  reactors_fail :
      (n : ℕ) (created : List Bool)
      → n ≤ sub_reactor_count thread_num
      → succeeds bind_address ≡ true
      → succeeds listen ≡ true
      → new_server thread_num (some sock_fd) succeeds (replicate n true ++ false ∷ created) ≡ exits
  unfolding new_server new_acceptor checked_call new_event_manager
  reactors_fail zero created h b l = rw (b, l) refl
  reactors_fail (suc n) created h b l =
      rw (b, l, sub_reactors-limit (sub_reactor_count thread_num) n created (omega arith)) refl

  socket_fails :
      (created : List Bool)
      → (succeeds bind_address ≡ false) ⊎ (succeeds listen ≡ false)
      → new_server thread_num (some sock_fd) succeeds created ≡ exits
  unfolding new_server new_acceptor checked_call
  socket_fails created (inl b) = rw b refl
  socket_fails created (inr l) = elim (Bool-cases (succeeds bind_address)) [
    | inl b ↦ rw (b, l) refl
    | inr b ↦ rw b refl
  ]

-- A server for fewer than two threads does not come to be: the count of its sub reactors wraps to
-- 2^64 - 1, so wherever the kernel's limit on epoll descriptors below that lies, the constructor runs
-- into it and ends the program, whatever socket, bind and listen do.
pub new_server-few_threads :
    (thread_num n : ℕ) (sock_fd : Option ℕ) (succeeds : SocketCall → Bool) (created : List Bool)
    → thread_num < 2
    → n < 2 ^ 64
    → new_server thread_num sock_fd succeeds (replicate n true ++ false ∷ created) ≡ exits
unfolding new_server
new_server-few_threads thread_num n none succeeds created few h = refl
new_server-few_threads thread_num n (some sock_fd) succeeds created few h =
    elim (Bool-cases (succeeds bind_address)) [
      | inl b ↦ elim (Bool-cases (succeeds listen)) [
        | inl l ↦
            reactors_fail thread_num sock_fd succeeds n created
              (omega (arith, few_threads thread_num few)) b l
        | inr l ↦
            socket_fails thread_num sock_fd succeeds (replicate n true ++ false ∷ created) (inr l)
      ]
      | inr b ↦
          socket_fails thread_num sock_fd succeeds (replicate n true ++ false ∷ created) (inl b)
    ]

-- A server for two threads or more, whose calls succeed, has set its listening socket up in order and
-- has half as many sub reactors as threads less one, beside the main one.
new_server_lem :
    (thread_num sock_fd : ℕ) (succeeds : SocketCall → Bool) (created : List Bool)
    → 2 ≤ thread_num
    → thread_num < 2 ^ 64
    → succeeds bind_address ≡ true
    → succeeds listen ≡ true
    → (s : TcpServer) × (new_server thread_num
          (some sock_fd)
          succeeds
          (true ∷ (replicate (thread_num / 2 - 1) true ++ created))
        ≡ ok s)
      × (s.acceptor_calls ≡ set_nonblock ∷ reuse_addr ∷ bind_address ∷ listen ∷ [])
      × (length s.sub_reactors_ ≡ thread_num / 2 - 1)
      × (s.is_shutdown_ ≡ false)
unfolding new_server new_acceptor checked_call new_event_manager
new_server_lem thread_num sock_fd succeeds created few large b l = (
  record {
    acceptor_calls = set_nonblock ∷ reuse_addr ∷ bind_address ∷ listen ∷ [];
    main_reactor_ = record { init_size = 2048; is_shutdown_ = false };
    sub_reactors_ = replicate (thread_num / 2 - 1) sub_reactor;
    cnt_ = 0;
    is_shutdown_ = false;
    timers_shutdown = false;
    reactor_pool_shutdown = false;
    work_pool_shutdown = false;
  },
  rw (b, l, enough_threads thread_num few large, sub_reactors-made (thread_num / 2 - 1) created)
      refl,
  refl,
  length-replicate (thread_num / 2 - 1) sub_reactor,
  refl,
)

-- what so many calls of GetSubReactor give
abbrev pub turns : ℕ → TcpServer → Outcome (List EventManager × TcpServer)
turns zero s = ok ([], s)
turns (suc k) s = do
  (reactor, s') ← get_sub_reactor s
  (reactors, s'') ← turns k s'
  ok (reactor ∷ reactors, s'')

get_elem?-front :
    (front back : List EventManager) (r : EventManager)
    → get_elem? (front ++ r ∷ back) (length front) ≡ some r
get_elem?-front [] back r = refl
get_elem?-front (x ∷ front) back r = get_elem?-front front back r

-- the server when these reactors have had their turns
abbrev at_turn : TcpServer → List EventManager → List EventManager → TcpServer
at_turn s front back = record s { sub_reactors_ = front ++ back; cnt_ = length front }

get_sub_reactor-at_turn :
    (s : TcpServer) (front back : List EventManager) (r : EventManager)
    → length front + suc (length back) < 2 ^ 64
    → get_sub_reactor (at_turn s front (r ∷ back)) ≡ ok (r, at_turn s (front ++ r ∷ []) back)
unfolding get_sub_reactor
get_sub_reactor-at_turn s front back r h =
    let total = length-append front (r ∷ back) in
    let some_there : (length (front ++ r ∷ back) == 0) ≡ false = ground (arith, total) in
    let mine : length front % length (front ++ r ∷ back) ≡ length front = grind (arith, total) in
    let next : (length front + 1) % 2 ^ 64 ≡ length (front ++ r ∷ []) =
      omega (arith, length-append front (r ∷ [])) in
    rw (some_there, mine, get_elem?-front front back r, next, append_assoc front (r ∷ []) back) refl

turns-back :
    (s : TcpServer) (front back : List EventManager)
    → length front + length back < 2 ^ 64
    → (s' : TcpServer) × (turns (length back) (at_turn s front back) ≡ ok (back, s'))
turns-back s front [] h = (at_turn s front [], refl)
turns-back s front (r ∷ back) h =
    let (s', e) =
      turns-back s (front ++ r ∷ []) back (omega (arith, length-append front (r ∷ []))) in
    (s', rw (get_sub_reactor-at_turn s front back r h, e) refl)

-- As many calls of GetSubReactor as there are sub reactors, on a server that has made none yet, give
-- each of the reactors once, in order.
turns-all :
    (s : TcpServer)
    → s.cnt_ ≡ 0
    → length s.sub_reactors_ < 2 ^ 64
    → (s' : TcpServer) × (turns (length s.sub_reactors_) s ≡ ok (s.sub_reactors_, s'))
turns-all s h bound =
    let (s', e) = turns-back s [] s.sub_reactors_ (omega (arith, bound)) in
    (s', ap (λ cnt. turns (length s.sub_reactors_) (record s { cnt_ = cnt })) h ∙ e)
