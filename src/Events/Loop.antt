-- ===== src/Events/Loop.antt =====
-- EventManager::Start: which coroutines the loop over epoll_wait resumes. A round is the flag of Shutdown
-- as the loop reads it, and what epoll_wait gives: its failure, or the events, each with the state in
-- which its socket is when it is handled. The manager's work pool, where there is one, gets the
-- coroutines in the same order.
use luce.Prelude.{
  ℕ, ◌*◌, Bool, true, false, List, [], ◌∷◌, ◌++◌, length, ◌==◌, if◌then◌else◌, Outcome, ok, exits,
  out_of_fuel, ◌>>=◌, or_undefined,
}
use luce.Events.{Mask, Socket}

-- epoll_wait: EINTR, another failure, or the events
pub data Waited : Type 0 where
  interrupted : Waited
  wait_failed : Waited
  events : List (Mask × Socket) → Waited

-- the loop over the events: resume of a null handle is undefined
unfoldable pub dispatch : List (Mask × Socket) → Outcome (List ℕ)
dispatch [] = ok []
dispatch ((m, s) ∷ es) =
    let later = dispatch es in
    if m.epollin
    then (do coro ← or_undefined s.recv_coro; rest ← later; ok (coro ∷ rest))
    else if m.epollout
    then (do coro ← or_undefined s.send_coro; rest ← later; ok (coro ∷ rest))
    else later

-- the coroutines that are resumed, and the size of events_ at the end
unfoldable pub start : ℕ → List (Bool × Waited) → Outcome (List ℕ × ℕ)
start size [] = out_of_fuel
start size ((true, w) ∷ rounds) = ok ([], size)
start size ((false, interrupted) ∷ rounds) = start size rounds
start size ((false, wait_failed) ∷ rounds) = exits
start size ((false, events es) ∷ rounds) = do
  resumed ← dispatch es
  (later, end_) ← start (if length es == size then size * 2 else size) rounds
  ok (resumed ++ later, end_)
