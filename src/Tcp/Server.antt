-- ===== src/Tcp/Server.antt =====
-- luce/net/tcp/tcp_acceptor.{h,cpp} and tcp_server.{h,cpp} with the socket calls of luce/net/socket.cpp
-- and the constructor of luce/net/event_manager.cpp that they use. What the kernel returns is an
-- argument; LOG_FATAL ends the program. The pools and the timers are components of their own: here
-- they show by what is committed to them and by whether they were shut down.
use luce.Prelude.{
  ℕ, zero, suc, ◌+◌, ◌-◌, ◌/◌, ◌%◌, ◌^◌, Bool, true, false, Option, none, some, List, [], ◌∷◌, ◌++◌,
  map, length, get_elem?, ◌==◌, if◌then◌else◌, Outcome, ok, undefined, exits, out_of_fuel, ◌>>=◌,
  or_undefined,
}
use luce.Events.{Mask, Ctl, Watched}
use luce.Awaiters.{await_accept}
use luce.Tcp.Connection.{TcpConnection, new_connection}

-- the calls on the listening socket, of which only the failures of the last two are looked at
pub data SocketCall : Type 0 where
  set_nonblock reuse_addr bind_address listen : SocketCall

-- BindAddress and Listen: LOG_FATAL unless they give 0
unfoldable pub checked_call : (SocketCall → Bool) → SocketCall → Outcome (List SocketCall)
checked_call succeeds call = if succeeds call then ok (call ∷ []) else exits

-- TcpAcceptor's constructor: the calls that it made
unfoldable pub new_acceptor : (SocketCall → Bool) → Outcome (List SocketCall)
unfolding checked_call
new_acceptor succeeds = do
  bound ← checked_call succeeds bind_address
  listening ← checked_call succeeds listen
  ok (set_nonblock ∷ reuse_addr ∷ (bound ++ listening))

-- a reactor: the size of its space for events, and the flag that Shutdown sets
pub record EventManager : Type 0 where
  pub init_size : ℕ
  pub is_shutdown_ : Bool

-- EventManager's constructor, from whether epoll_create1 succeeds
unfoldable pub new_event_manager : ℕ → List Bool → Outcome (EventManager × List Bool)
new_event_manager size [] = out_of_fuel
new_event_manager size (true ∷ created) =
    ok (record { init_size = size; is_shutdown_ = false }, created)
new_event_manager size (false ∷ created) = exits

-- the loop that makes `count` sub reactors
unfoldable pub sub_reactors : ℕ → List Bool → Outcome (List EventManager × List Bool)
unfolding new_event_manager
sub_reactors zero created = ok ([], created)
sub_reactors (suc count) created = do
  (reactor, created') ← new_event_manager 16 created
  (reactors, left) ← sub_reactors count created'
  ok (reactor ∷ reactors, left)

-- thread_num / 2 - 1, in size_t
unfoldable pub sub_reactor_count : ℕ → ℕ
sub_reactor_count thread_num = (thread_num / 2 + 2 ^ 64 - 1) % 2 ^ 64

pub record TcpServer : Type 0 where
  pub acceptor_calls : List SocketCall
  pub main_reactor_ : EventManager
  pub sub_reactors_ : List EventManager
  pub cnt_ : ℕ
  pub is_shutdown_ : Bool
  pub timers_shutdown : Bool
  pub reactor_pool_shutdown : Bool
  pub work_pool_shutdown : Bool

-- TcpServer's constructor: `sock_fd` is what socket gives
unfoldable pub new_server : ℕ → Option ℕ → (SocketCall → Bool) → List Bool → Outcome TcpServer
unfolding new_acceptor new_event_manager
new_server thread_num none succeeds created = exits
new_server thread_num (some sock_fd) succeeds created = do
  calls ← new_acceptor succeeds
  (main, created') ← new_event_manager 2048 created
  (subs, _) ← sub_reactors (sub_reactor_count thread_num) created'
  ok (record {
    acceptor_calls = calls;
    main_reactor_ = main;
    sub_reactors_ = subs;
    cnt_ = 0;
    is_shutdown_ = false;
    timers_shutdown = false;
    reactor_pool_shutdown = false;
    work_pool_shutdown = false;
  })

-- GetSubReactor: the reactors take turns; % 0 is undefined
unfoldable pub get_sub_reactor : TcpServer → Outcome (EventManager × TcpServer)
get_sub_reactor s = if length s.sub_reactors_ == 0 then undefined else (do
  reactor ← or_undefined (get_elem? s.sub_reactors_ (s.cnt_ % length s.sub_reactors_))
  ok (reactor, record s { cnt_ = (s.cnt_ + 1) % 2 ^ 64 }))

-- EventManager::Shutdown
unfoldable pub stop_reactor : EventManager → EventManager
stop_reactor r = record r { is_shutdown_ = true }

-- Shutdown
unfoldable pub shutdown : TcpServer → TcpServer
shutdown s = record s {
  is_shutdown_ = true;
  main_reactor_ = stop_reactor s.main_reactor_;
  sub_reactors_ = map stop_reactor s.sub_reactors_;
  timers_shutdown = true;
  reactor_pool_shutdown = true;
  work_pool_shutdown = true;
}

-- one round of AcceptLoop: is_shutdown_ as it is read, and what the two calls of accept4 give
pub record Round : Type 0 where
  pub is_shutdown : Bool
  pub given : Option ℕ
  pub again : Option ℕ

module _ (epoll_ctl : Ctl → Option Mask → Bool) where
  -- TcpAcceptor::accept: the connection, none for -1
  unfoldable pub accept :
      ℕ → Option ℕ → Option ℕ → Watched → Outcome (Option TcpConnection × Watched)
  accept handle given again w = do
    (peer_fd, w') ← await_accept epoll_ctl given again handle w
    ok (elim peer_fd [ none ↦ none | some fd ↦ some (new_connection (some fd)) ], w')

  -- AcceptLoop in the coroutine `handle`: the connections whose handlers are committed to the work pool
  unfoldable pub accept_loop : ℕ → List Round → Watched → Outcome (List TcpConnection × Watched)
  accept_loop handle [] w = out_of_fuel
  accept_loop handle (r ∷ rounds) w = elim r.is_shutdown [
    | true ↦ ok ([], w)
    | false ↦ do
      (conn, w') ← accept handle r.given r.again w
      (conns, w'') ← accept_loop handle rounds w'
      ok (elim conn [ none ↦ conns | some c ↦ c ∷ conns ], w'')
  ]
