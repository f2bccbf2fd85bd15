-- ===== src/Rpc/Client.antt =====
-- luce/net/rpc/rpc_client.h: BlockingRpcClient with its descriptor, over what connect, write and read
-- return. err_code_ is not set by the constructor: its first value is an argument. The descriptor is
-- not looked at before it is used, so that of a socket that failed makes the calls fail.
use luce.Prelude.{
  ℕ, zero, suc, Bool, true, false, Option, List, [], ◌∷◌, ◌==◌, if◌then◌else◌, length, Bytes,
  Outcome, ok, exits, out_of_fuel, ◌>>=◌,
}
use luce.Codec.Serializer.{Serial}
use luce.Io.{ReadResult, WriteResult, client_read_packet, write_packet}
use luce.Rpc.{RpcResponse, net_call, call, rpc_err_recv_timeout}

-- connect: 0, EINPROGRESS, or another failure, which EALREADY is as well
pub data ConnectResult : Type 0 where
  connected in_progress connect_failed : ConnectResult

pub record BlockingRpcClient : Type 0 where
  pub client_fd_ : Option ℕ
  pub err_code_ : ℕ

-- The loop over connect: whether one of the calls succeeded.
unfoldable pub connect_loop : ℕ → List ConnectResult → Outcome Bool
connect_loop zero rs = ok false
connect_loop (suc retry_times) [] = out_of_fuel
connect_loop (suc retry_times) (connected ∷ rs) = ok true
connect_loop (suc retry_times) (in_progress ∷ rs) = connect_loop retry_times rs
connect_loop (suc retry_times) (connect_failed ∷ rs) = exits

-- the constructor, with whether the client is connected, which it does not look at
unfoldable pub new_client : Option ℕ → ℕ → List ConnectResult → Outcome (BlockingRpcClient × Bool)
new_client client_fd err_code rs = do
  is_connected ← connect_loop 50 rs
  ok (record { client_fd_ = client_fd; err_code_ = err_code }, is_connected)

-- NetCall's writing of the request: what went out
unfoldable pub send_request : BlockingRpcClient → List WriteResult → Bytes → Outcome Bytes
send_request client ws request_buffer =
    if client.err_code_ == rpc_err_recv_timeout then ok [] else (do
      (res, sent) ← write_packet ws request_buffer
      if res == length request_buffer then ok sent else exits)

-- NetCall: the response, the client with its new err_code_, and what went out
unfoldable pub net_call_over :
    {T : Type 0}
    → Serial T
    → T
    → BlockingRpcClient
    → List WriteResult
    → List ReadResult
    → Bytes
    → Outcome (RpcResponse T × BlockingRpcClient × Bytes)
net_call_over c initial client ws rs request_buffer = do
  sent ← send_request client ws request_buffer
  (recv_res, reply_buffer) ← client_read_packet rs []
  (value, err_code) ← net_call c initial recv_res reply_buffer
  ok (value, record client { err_code_ = err_code }, sent)

-- Call
unfoldable pub call_over :
    {A T : Type 0}
    → Serial A
    → Serial T
    → T
    → BlockingRpcClient
    → List WriteResult
    → List ReadResult
    → Bytes
    → A
    → Outcome (RpcResponse T × BlockingRpcClient × Bytes)
call_over args c initial client ws rs name params =
    net_call_over c initial client ws rs (call args name params)
