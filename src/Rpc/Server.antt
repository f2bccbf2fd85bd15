-- ===== src/Rpc/Server.antt =====
-- luce/net/rpc/rpc_server.h: OnRequest, the loop over the packets of a connection, and the functions
-- that it can have bound: those of luce/net/rpc/invoke_helper.h without a result, and methods.
use luce.Prelude.{
  ℕ, not, Bytes, List, [], ◌∷◌, if◌then◌else◌, Outcome, ok, undefined, out_of_fuel, ◌>>=◌,
}
use luce.Table.{Table}
use luce.Codec.Serializer.{Serial}
use luce.Io.{ReadResult, WriteResult, async_read_packet, async_write_packet}
use luce.Rpc.{HandleFunc, on_request, call_proxy}

-- SendResponse: a failure is only logged
unfoldable pub send_response : List WriteResult → Bytes → Outcome Bytes
send_response ws buffer = do (succ, sent) ← async_write_packet ws buffer; ok sent

-- A round is what the reads of a packet give and what the writes of its reply do; the loop ends at a
-- packet that cannot be read. What goes out for each packet:
unfoldable pub serve :
    Table HandleFunc → List (List ReadResult × List WriteResult) → Outcome (List Bytes)
serve handlers_ [] = out_of_fuel
serve handlers_ ((rs, ws) ∷ rounds) =
    let more = serve handlers_ rounds in
    (do
      (succ, buffer) ← async_read_packet rs []
      if not succ then ok [] else (do
        output ← on_request handlers_ buffer
        sent ← send_response ws output
        rest ← more
        ok (sent ∷ rest)))

-- call_helper for void, whose type_xx is int8_t: it calls the function, and has no return statement
unfoldable pub call_helper_void : {A : Type 0} → (A → Outcome (Unit {0})) → A → Outcome ℕ
call_helper_void func args = do _ ← func args; undefined

-- CallProxy_ of a function without a result
unfoldable pub call_proxy_void :
    {A : Type 0} → Serial A → Serial ℕ → (A → Outcome (Unit {0})) → HandleFunc
unfolding call_helper_void
call_proxy_void args ret func = call_proxy args ret (call_helper_void func)

-- CallProxy_ of a method and an object
unfoldable pub call_proxy_method :
    {S A R : Type 0} → Serial A → Serial R → (S → A → Outcome R) → S → HandleFunc
call_proxy_method args ret func s = call_proxy args ret (func s)
