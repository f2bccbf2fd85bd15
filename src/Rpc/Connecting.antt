-- ===== src/Rpc/Connecting.antt =====
-- The loop over connect in BlockingRpcClient's constructor. On a socket that does not block, connect
-- gives EINPROGRESS once, EALREADY while the connection is still being made, and then 0.
use luce.Prelude.{
  ℕ, zero, suc, ◌<◌, ◌≡◌, refl, true, false, Option, List, ◌∷◌, ◌++◌, replicate, ok, exits, arith,
}
use luce.Rpc.Client.{
  ConnectResult, connected, in_progress, connect_failed, connect_loop, new_client,
}

connect_loop-behind :
    (n k : ℕ) (rs : List ConnectResult)
    → n < k
    → (connect_loop k (replicate n in_progress ++ connected ∷ rs) ≡ ok true)
      × (connect_loop k (replicate n in_progress ++ connect_failed ∷ rs) ≡ exits)
unfolding connect_loop
connect_loop-behind n zero rs h = absurd (omega arith)
connect_loop-behind zero (suc k) rs h = (refl, refl)
connect_loop-behind (suc n) (suc k) rs h = connect_loop-behind n k rs (omega arith)

connect_loop-pending :
    (k : ℕ) (rs : List ConnectResult) → connect_loop k (replicate k in_progress ++ rs) ≡ ok false
unfolding connect_loop
connect_loop-pending zero rs = refl
connect_loop-pending (suc k) rs = connect_loop-pending k rs

-- Of a client that is made while connect gives EINPROGRESS n times: if that is fewer than 50 times, a
-- success makes a connected client, and any other failure, so EALREADY, ends the program; if connect
-- never gives anything else, the client is made without a connection and without any sign of it.
pub new_client-tries :
    (client_fd : Option ℕ) (err_code n : ℕ) (rs : List ConnectResult)
    → n < 50
    → (new_client client_fd err_code (replicate n in_progress ++ connected ∷ rs)
        ≡ ok (record { client_fd_ = client_fd; err_code_ = err_code }, true))
      × (new_client client_fd err_code (replicate n in_progress ++ connect_failed ∷ rs) ≡ exits)
      × (new_client client_fd err_code (replicate 50 in_progress ++ rs)
          ≡ ok (record { client_fd_ = client_fd; err_code_ = err_code }, false))
unfolding new_client
new_client-tries client_fd err_code n rs h = (
  rw ((connect_loop-behind n 50 rs h).0) refl,
  rw ((connect_loop-behind n 50 rs h).1) refl,
  rw (connect_loop-pending 50 rs) refl,
)
