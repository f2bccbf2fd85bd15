-- ===== src/Awaiters.antt =====
-- luce/io/io_awaiter.h: the awaiters of read, write and accept4, which suspend a coroutine until epoll
-- reports the event. What a system call returns is an argument, a result below 0 `none`; `meanwhile` is
-- what happens to the connection while the coroutine is suspended. Close of luce/net/tcp/tcp_connection.h
-- closes the descriptor, which takes it out of its epoll set, and sets the flag that the awaiters read;
-- the count of the closings is in Tcp.Connection.
pub mod Waiting
use luce.Prelude.{ℕ, Bool, true, false, Option, none, some, if◌then◌else◌, Outcome, ok, ◌>>=◌}
use luce.Events.{Mask, Ctl, Watched, add_recv, del_recv, add_send, del_send}

-- a connection as the awaiters see it: its watched socket and whether it is closed
pub record Connection : Type 0 where
  pub watched : Watched
  pub is_closed_ : Bool

unfoldable pub close : Connection → Connection
close c =
    if c.is_closed_
    then c
    else record c { watched = record c.watched { registered = none }; is_closed_ = true }

-- await_ready of ReadInnerAwaiter and of WriteInnerAwaiter: recv_ or send_, which is 0 at first
unfoldable pub first_result : Option ℕ → Connection → Option ℕ
first_result given c = if c.is_closed_ then some 0 else given

module _ (epoll_ctl : Ctl → Option Mask → Bool) where
  unfoldable pub read_suspend : ℕ → Connection → Outcome Connection
  read_suspend handle c =
      if c.is_closed_
      then ok c
      else (do w ← add_recv epoll_ctl handle c.watched; ok record c { watched = w })

  unfoldable pub read_resume : Option ℕ → Option ℕ → Connection → Outcome (Option ℕ × Connection)
  read_resume again (some n) c = ok (some n, c)
  read_resume again none c =
      if c.is_closed_
      then ok (none, c)
      else (do w ← del_recv epoll_ctl c.watched; ok (again, record c { watched = w }))

  -- co_await of a ReadInnerAwaiter: `given` is what its first read returns, `again` what its second does
  unfoldable pub await_read :
      Option ℕ
      → Option ℕ
      → ℕ
      → (Connection → Connection)
      → Connection
      → Outcome (Option ℕ × Connection)
  await_read given again handle meanwhile c = do
    let recv_ = first_result given c
    c' ← elim recv_ [
      | some n ↦ ok c
      | none ↦ do waiting ← read_suspend handle c; ok (meanwhile waiting)
    ]
    read_resume again recv_ c'

  unfoldable pub write_suspend : ℕ → Connection → Outcome Connection
  write_suspend handle c =
      if c.is_closed_
      then ok c
      else (do w ← add_send epoll_ctl handle c.watched; ok record c { watched = w })

  unfoldable pub write_resume : Option ℕ → Option ℕ → Connection → Outcome (Option ℕ × Connection)
  write_resume again (some n) c = ok (some n, c)
  write_resume again none c =
      if c.is_closed_
      then ok (none, c)
      else (do w ← del_send epoll_ctl c.watched; ok (again, record c { watched = w }))

  -- co_await of a WriteInnerAwaiter
  unfoldable pub await_write :
      Option ℕ
      → Option ℕ
      → ℕ
      → (Connection → Connection)
      → Connection
      → Outcome (Option ℕ × Connection)
  await_write given again handle meanwhile c = do
    let send_ = first_result given c
    c' ← elim send_ [
      | some n ↦ ok c
      | none ↦ do waiting ← write_suspend handle c; ok (meanwhile waiting)
    ]
    write_resume again send_ c'

  -- co_await of an AcceptAwaiter, whose await_resume calls DelRecv in any case
  unfoldable pub await_accept : Option ℕ → Option ℕ → ℕ → Watched → Outcome (Option ℕ × Watched)
  await_accept given again handle w = do
    w' ← elim given [ some fd ↦ ok w | none ↦ add_recv epoll_ctl handle w ]
    w'' ← del_recv epoll_ctl w'
    ok (elim given [ some fd ↦ some fd | none ↦ again ], w'')
