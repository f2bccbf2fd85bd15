-- ===== src/Rpc.antt =====
-- luce/net/rpc: the server's table of bound functions, the reply (rpc_value.h), and the call of the
-- blocking client. A bound function is one from its decoded arguments to a result or a failure; the
-- `Serial` arguments are the serializer's functions for its parameter tuple and its result.
pub mod Calls
pub mod Client
pub mod Server
pub mod Session
pub mod Connecting
use luce.Prelude.{
  ℕ, zero, suc, ◌+◌, ◌^◌, Bool, true, false, Option, none, some, List, [], ◌∷◌, ◌++◌, ◌==◌,
  if◌then◌else◌, Bytes, codes, Outcome, ok, ◌>>=◌, c_string,
}
use luce.Table.{Table, lookup, insert}
use luce.Codec.Serializer.{
  Serializer, of_bytes, serialize_number, deserialize_number, serialize_text, deserialize_text, str,
  Serial,
}

-- RpcErrCode
abbrev pub rpc_success : ℕ
rpc_success = 0

abbrev pub rpc_err_function_not_found : ℕ
rpc_err_function_not_found = 1

abbrev pub rpc_err_recv_timeout : ℕ
rpc_err_recv_timeout = 2

pub record RpcResponse (T : Type 0) : Type 0 where
  pub err_code : ℕ
  pub err_msg : Bytes
  pub detail_value : T

-- RpcResponse::serialize and deserialize
unfoldable pub serialize_response :
    {T : Type 0} → Serial T → RpcResponse T → Serializer → Serializer
serialize_response c value s =
    c.serialize value.detail_value
      (serialize_text value.err_msg (serialize_number 2 value.err_code s))

unfoldable pub deserialize_response :
    {T : Type 0} → Serial T → Serializer → Outcome (RpcResponse T × Serializer)
deserialize_response c s = do
  (code, s1) ← deserialize_number 2 s
  (msg, s2) ← deserialize_text s1
  (val, s3) ← c.deserialize s2
  ok (record { err_code = code; err_msg = msg; detail_value = val }, s3)

-- The input is not read again after a handler, so a handler gives the output alone.
abbrev pub HandleFunc : Type 0
HandleFunc = Serializer → Serializer → Outcome Serializer

-- CallProxy_, of a function, a method or a std::function
unfoldable pub call_proxy : {A R : Type 0} → Serial A → Serial R → (A → Outcome R) → HandleFunc
call_proxy {R = R} args ret func input_serializer output_serializer = do
  (a, _) ← args.deserialize input_serializer
  res ← func a
  let value : RpcResponse R = record { err_code = rpc_success; err_msg = []; detail_value = res }
  ok (serialize_response ret value output_serializer)

-- Bind, of a function or a method. The key is what `name.data()` shows as a C string: the view must be
-- of a text with its terminating zero.
unfoldable pub bind :
    {A R : Type 0}
    → Serial A
    → Serial R
    → Bytes
    → (A → Outcome R)
    → Table HandleFunc
    → Table HandleFunc
bind args ret name func handlers_ = insert (c_string name) (call_proxy args ret func) handlers_

unfoldable pub call_impl : Table HandleFunc → Bytes → Serializer → Outcome Serializer
call_impl handlers_ name input_serializer = elim (lookup name handlers_) [
  | none ↦ ok (
      serialize_text (codes "function not bind: " ++ name)
        (serialize_number 2 rpc_err_function_not_found (of_bytes [])))
  | some func ↦ func input_serializer (of_bytes [])
]

-- one round of OnRequest: a packet's body in, the reply's out
unfoldable pub on_request : Table HandleFunc → Bytes → Outcome Bytes
on_request handlers_ buffer = do
  (func_name, serializer) ← deserialize_text (of_bytes buffer)
  output_serializer ← call_impl handlers_ func_name serializer
  ok output_serializer.buffer

-- Call, with arguments: the bytes that NetCall sends
unfoldable pub call : {A : Type 0} → Serial A → Bytes → A → Bytes
call args name params = str (args.serialize params (serialize_text name (of_bytes [])))

-- the rest of NetCall, from what ReadPacket returned: the value and the client's own err_code_
unfoldable pub net_call : {T : Type 0} → Serial T → T → ℕ → Bytes → Outcome (RpcResponse T × ℕ)
net_call c initial recv_res reply_buffer =
    if recv_res == 0
    then (ok (
      record {
        err_code = rpc_err_recv_timeout;
        err_msg = codes "recv timeout";
        detail_value = initial;
      },
      rpc_err_recv_timeout,
    ))
    else (do (value, _) ← deserialize_response c (of_bytes reply_buffer); ok (value, rpc_success))
