-- ===== src/Tests/Network.antt =====
-- A connection's life, the server's constructor and its loop over accept, on concrete input.
use luce.Prelude.{
  ◌≡◌, true, false, none, some, List, [], ◌∷◌, map, ok, Bool, replicate, ◌++◌, exits, arith,
}
use luce.Awaiters.Waiting.{watch}
use luce.Events.{Socket}
use luce.Tcp.Connection.{
  TcpConnection, new_connection, Turn, waits_to_read, can_read, closes, take_turns,
}
use luce.Tcp.Lifetime.{Ends, new_connection-Ends}
use luce.Tcp.Server.{accept_loop, SocketCall, new_server}
use luce.Tcp.Starting.{new_server-few_threads}
use luce.Tcp.Accepting.{round, stops, finds, waits, misses, accept_loop-Accepts}
use luce.Tests.Sockets.{kernel, kernel-IsEpoll, listener}

-- a connection that is closed while a coroutine waits for its second request
abbrev a_life : List Turn
a_life = waits_to_read 7 ∷ can_read (some 5) ∷ waits_to_read 7 ∷ closes ∷ closes ∷ []

new_connection-Ends_example :
    (c : TcpConnection) × (take_turns kernel a_life (new_connection (some 4)) ≡ ok c)
    × Ends kernel c
new_connection-Ends_example = new_connection-Ends kernel kernel-IsEpoll 4 a_life

accept_loop-Accepts_example :
    (s' : Socket) × (accept_loop kernel 9
        (round false none (some 5)
          ∷ round false (some 6) none
          ∷ round false none none
          ∷ round true none none
          ∷ [])
        (watch listener)
      ≡ ok (map (λ fd. new_connection (some fd)) (5 ∷ 6 ∷ []), watch s'))
accept_loop-Accepts_example =
    accept_loop-Accepts kernel kernel-IsEpoll 9 listener (some 5)
      (round false (some 6) none ∷ round false none none ∷ round true none none ∷ []) (5 ∷ 6 ∷ [])
      (waits 5 _ _ (finds 6 none _ _ (misses _ _ (stops none none []))))

abbrev all_succeed : SocketCall → Bool
all_succeed call = true

new_server-few_threads_example :
    new_server 1 (some 3) all_succeed (replicate 4 true ++ false ∷ []) ≡ exits
new_server-few_threads_example =
    new_server-few_threads 1 4 (some 3) all_succeed [] (omega arith) (omega arith)
