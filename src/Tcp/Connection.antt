-- ===== src/Tcp/Connection.antt =====
-- luce/net/tcp/tcp_connection.{h,cpp} and the descriptor of luce/net/socket.{h,cpp}: a connection from
-- its start to the end of its last owner. The state counts the calls of ::close on the descriptor; a
-- closed descriptor is in no epoll set, as epoll(7) says. The coroutines that use a connection show as
-- the steps of its awaiters.
use luce.Prelude.{
  ℕ, suc, Bool, true, false, not, Option, none, some, List, [], ◌∷◌, if◌then◌else◌, Outcome, ok,
  ◌>>=◌,
}
use luce.Events.{Mask, Ctl, Watched, detach}
use luce.Awaiters
use luce.Awaiters.{read_suspend, read_resume, write_suspend, write_resume}

-- `seen` is what the awaiters see; a descriptor of -1 is `none`
pub record TcpConnection : Type 0 where
  pub seen : Awaiters.Connection
  pub fd : Option ℕ
  pub socket_closed : Bool
  pub closings : ℕ

abbrev pub idle : Mask
idle = record { epollin = false; epollout = false; epollet = false }

-- a TcpConnection over a new Socket
unfoldable pub new_connection : Option ℕ → TcpConnection
new_connection peer_fd = record {
  seen = record {
    watched = record {
      socket = record { recv_coro = none; send_coro = none; io_state = idle; detached = true };
      registered = none;
      is_shutdown = false;
    };
    is_closed_ = false;
  };
  fd = peer_fd;
  socket_closed = false;
  closings = 0;
}

-- ::close, which takes the descriptor out of its epoll set
unfoldable pub close_fd : TcpConnection → TcpConnection
close_fd c =
    let watched : Watched = record c.seen.watched { registered = none } in
    record c { seen = record c.seen { watched = watched }; closings = suc c.closings }

-- Socket::Close
unfoldable pub close_socket : TcpConnection → TcpConnection
unfolding close_fd
close_socket c = record (close_fd c) { socket_closed = true }

-- TcpConnection::Close
unfoldable pub close : TcpConnection → TcpConnection
unfolding close_socket
close c =
    if c.seen.is_closed_
    then c
    else let c' = close_socket c in record c' { seen = record c'.seen { is_closed_ = true } }

-- What happens to a connection: a coroutine waits for input or output, it is resumed, with what its
-- second system call returns, or somebody closes the connection.
pub data Turn : Type 0 where
  waits_to_read waits_to_write : ℕ → Turn
  can_read can_write : Option ℕ → Turn
  closes : Turn

module _ (epoll_ctl : Ctl → Option Mask → Bool) where
  -- ~TcpConnection
  unfoldable pub detach_connection : TcpConnection → Outcome TcpConnection
  detach_connection c = elim c.fd [
    | none ↦ ok c
    | some n ↦ if c.seen.watched.socket.detached then ok c else (do
      w ← detach epoll_ctl c.seen.watched
      ok record c { seen = record c.seen { watched = w } })
  ]

  -- ~Socket
  unfoldable pub destroy_socket : TcpConnection → TcpConnection
  unfolding close_fd
  destroy_socket c = elim c.fd [ none ↦ c | some n ↦ if not c.socket_closed then close_fd c else c ]

  -- the end of the last owner: the connection, and with it its socket
  unfoldable pub destroy : TcpConnection → Outcome TcpConnection
  unfolding detach_connection destroy_socket
  destroy c = do c' ← detach_connection c; ok (destroy_socket c')

  -- A coroutine that does not wait is not resumed.
  unfoldable pub take_turn : Turn → TcpConnection → Outcome TcpConnection
  take_turn (waits_to_read handle) c = do
    seen' ← read_suspend epoll_ctl handle c.seen
    ok record c { seen = seen' }
  take_turn (waits_to_write handle) c = do
    seen' ← write_suspend epoll_ctl handle c.seen
    ok record c { seen = seen' }
  take_turn (can_read again) c = elim c.seen.watched.socket.recv_coro [
    | none ↦ ok c
    | some handle ↦ do
      (recv_, seen') ← read_resume epoll_ctl again none c.seen
      ok record c { seen = seen' }
  ]
  take_turn (can_write again) c = elim c.seen.watched.socket.send_coro [
    | none ↦ ok c
    | some handle ↦ do
      (send_, seen') ← write_resume epoll_ctl again none c.seen
      ok record c { seen = seen' }
  ]
  take_turn closes c = ok (close c)

  unfoldable pub take_turns : List Turn → TcpConnection → Outcome TcpConnection
  take_turns [] c = ok c
  take_turns (t ∷ ts) c = do c' ← take_turn t c; take_turns ts c'
