-- ===== src/Rpc/Session.antt =====
-- A remote call from the client's Call to its result, over two streams of bytes that the kernel cuts
-- as it likes.
use luce.Prelude.{
  ℕ, ◌^◌, ◌<◌, ◌≡◌, refl, true, false, List, [], ◌∷◌, ◌++◌, ◌==◌, length, Bytes, c_string, Outcome,
  ok, ◌>>=◌, arith,
}
use luce.Table.{Table}
use luce.Codec.Serializer.{memory, Serial}
use luce.Codec.Serializer.Laws.{RoundTrips}
use luce.Io.{ReadResult, got, WriteResult, wrote}
use luce.Io.Reading.{Delivers, async_read_packet-Delivers, client_read_packet-Delivers}
use luce.Io.Writing.{Takes, async_write_packet-Takes, write_packet-Takes}
use luce.Rpc.{
  HandleFunc, bind, call, net_call, on_request, rpc_success, rpc_err_recv_timeout, RpcResponse,
}
use luce.Rpc.Calls.{response_bytes, reply_is_read, on_request-bind}
use luce.Rpc.Client.{BlockingRpcClient, send_request, net_call_over, call_over}
use luce.Rpc.Server.{serve, send_response}

-- a packet: the length of its body in four bytes, and the body
abbrev pub packet : Bytes → Bytes
packet s = memory 4 (length s) ++ s

same_length : (n : ℕ) → (n == n) ≡ true
same_length n = ground arith

send_request-Takes :
    (client : BlockingRpcClient) (ws : List WriteResult) (request : Bytes)
    → (client.err_code_ == rpc_err_recv_timeout) ≡ false
    → length request < 2 ^ 32
    → Takes ws (length request)
    → send_request client (wrote 4 ∷ ws) request ≡ ok (packet request)
unfolding send_request
send_request-Takes client ws request fresh bound h =
    rw (fresh, write_packet-Takes ws request bound h, same_length (length request)) refl

net_call_over-reads :
    {T : Type 0} (c : Serial T) (initial : T) (client : BlockingRpcClient) (ws : List WriteResult)
    (rs : List ReadResult) (request reply sent : Bytes) (value : RpcResponse T) (code : ℕ)
    → send_request client ws request ≡ ok sent
    → length reply < 2 ^ 32
    → Delivers rs reply
    → net_call c initial (length reply) reply ≡ ok (value, code)
    → net_call_over c initial client ws (got (memory 4 (length reply)) ∷ rs) request
      ≡ ok (value, record client { err_code_ = code }, sent)
unfolding net_call_over
net_call_over-reads c initial client ws rs request reply sent value code e bound h f =
    rw (e, client_read_packet-Delivers reply [] rs bound h, f) refl

serve-round :
    (handlers_ : Table HandleFunc) (rs : List ReadResult) (ws : List WriteResult)
    (rounds : List (List ReadResult × List WriteResult)) (request reply : Bytes)
    → length request < 2 ^ 32
    → Delivers rs request
    → on_request handlers_ request ≡ ok reply
    → length reply < 2 ^ 32
    → Takes ws (length reply)
    → serve handlers_ ((got (memory 4 (length request)) ∷ rs, wrote 4 ∷ ws) ∷ rounds)
      ≡ (serve handlers_ rounds >>= λ rest. ok (packet reply ∷ rest))
unfolding serve send_response
serve-round handlers_ rs ws rounds request reply bound d e bound' t =
    rw
      (
        async_read_packet-Delivers request [] rs bound d,
        e,
        async_write_packet-Takes ws reply bound' t,
      )
      refl

abbrev pub reply_of : {R : Type 0} → Serial R → R → Bytes
reply_of ret r =
    response_bytes ret (record { err_code = rpc_success; err_msg = []; detail_value = r })

module _ {A R : Type 0} (args : Serial A) (args_laws : RoundTrips args) (ret : Serial R)
    (ret_laws : RoundTrips ret) (initial : R) where
  -- If a function is bound under a name without a NUL, a Call of that name with arguments a comes back as success
  -- with the function's own value: the client sends one packet, the server's OnRequest reads it, calls
  -- the function, answers with one packet and goes on with the rest of its stream, and the client
  -- reads that packet, however the kernel cuts the bodies of both packets into writes and reads and
  -- however often a call is to be tried again; each header goes in one piece. The client's err_code_
  -- must not be that of a timeout; the name, the arguments and the result must fit their widths, the
  -- bodies of both packets must be below 2 GiB, which an int can count, and the function must return
  -- on a.
  pub call_over-bind :
      (handlers_ : Table HandleFunc) (name : Bytes) (func : A → Outcome R) (a : A) (r : R)
      (client : BlockingRpcClient) (ws ws' : List WriteResult) (rs rs' : List ReadResult)
      (rounds : List (List ReadResult × List WriteResult))
      → c_string name ≡ name
      → length name < 256 ^ 8
      → args.Fits a
      → func a ≡ ok r
      → ret.Fits r
      → (client.err_code_ == rpc_err_recv_timeout) ≡ false
      → length (call args name a) < 2 ^ 31
      → length (reply_of ret r) < 2 ^ 31
      → Takes ws (length (call args name a))
      → Delivers rs (call args name a)
      → Takes ws' (length (reply_of ret r))
      → Delivers rs' (reply_of ret r)
      → (call_over args ret initial client
            (wrote 4 ∷ ws)
            (got (memory 4 (length (reply_of ret r))) ∷ rs')
            name
            a
          ≡ ok (
            record { err_code = rpc_success; err_msg = []; detail_value = r },
            record client { err_code_ = rpc_success },
            packet (call args name a),
          ))
        × (serve
              (bind args ret name func handlers_)
              ((got (memory 4 (length (call args name a))) ∷ rs, wrote 4 ∷ ws') ∷ rounds)
            ≡ (serve (bind args ret name func handlers_) rounds >>= λ rest.
                ok (packet (reply_of ret r) ∷ rest)))
  unfolding call_over
  call_over-bind handlers_ name func a r client ws ws' rs rs' rounds plain bound fits returns
        result_fits fresh few few' t d t' d' =
      let request = call args name a in
      (
        net_call_over-reads ret initial client (wrote 4 ∷ ws) rs' request (reply_of ret r)
            (packet request) (record { err_code = rpc_success; err_msg = []; detail_value = r })
            rpc_success (send_request-Takes client ws request fresh (omega (arith, few)) t)
            (omega (arith, few')) d'
            (reply_is_read args args_laws ret ret_laws initial r result_fits few'),
        serve-round (bind args ret name func handlers_) rs ws' rounds request (reply_of ret r)
            (omega (arith, few)) d
            (on_request-bind args args_laws ret ret_laws initial handlers_ name func a r plain bound
              fits few returns)
            (omega (arith, few')) t',
      )
