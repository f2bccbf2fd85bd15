-- ===== src/Tests/Session.antt =====
-- A remote call over two streams that the kernel cuts, and the making of a client.
use luce.Prelude.{
  ◌≡◌, refl, sym, subst, some, List, [], ◌∷◌, ◌++◌, replicate, Bytes, codes, c_string, ok, exits,
  ◌>>=◌, length, arith, true, false,
}
use luce.Codec.Serializer.{memory, serialize_number, str, serialize_pair, append, serialize_text}
use luce.Codec.Serializer.Instances.{number_serial, number_serial-RoundTrips}
use luce.Io.{ReadResult, got, read_failed, again, wrote, write_failed}
use luce.Io.Reading.{Delivers, all_read, part, retried}
use luce.Io.Writing
use luce.Io.Writing.{Takes}
use luce.Rpc.{bind, call, rpc_success}
use luce.Rpc.Client.{
  connected, in_progress, connect_failed, BlockingRpcClient, call_over, new_client,
}
use luce.Rpc.Server.{serve}
use luce.Rpc.Session.{packet, reply_of, call_over-bind}
use luce.Rpc.Calls.{response_bytes}
use luce.Rpc.Connecting.{new_client-tries}
use luce.Tests.Calls.{two_numbers, two_numbers-RoundTrips, add}

-- the name, its length before it, and the numbers 2 and 3
abbrev request_head : Bytes
request_head = 3 ∷ 0 ∷ 0 ∷ 0 ∷ 0 ∷ 0 ∷ 0 ∷ 0 ∷ b'a' ∷ b'd' ∷ []

abbrev request_rest : Bytes
request_rest = b'd' ∷ 2 ∷ 0 ∷ 0 ∷ 0 ∷ 3 ∷ 0 ∷ 0 ∷ 0 ∷ []

abbrev request : Bytes
request = call two_numbers (codes "add") (2, 3)

request_bytes : request ≡ request_head ++ request_rest
unfolding call str serialize_pair serialize_number append serialize_text memory
request_bytes = refl

abbrev reply : Bytes
reply = reply_of (number_serial 4) 5

abbrev request_reads : List ReadResult
request_reads = got request_head ∷ read_failed again ∷ got request_rest ∷ []

request_reads-Delivers : Delivers request_reads request
request_reads-Delivers =
    subst (Delivers request_reads) (sym request_bytes)
      (part _ _ _ _ (retried _ _ (part _ _ _ [] (all_read []))))

-- code 0, no message, and the number 5
abbrev reply_rest : Bytes
reply_rest = 0 ∷ 0 ∷ 0 ∷ 0 ∷ 0 ∷ 0 ∷ 0 ∷ 0 ∷ 5 ∷ 0 ∷ 0 ∷ 0 ∷ []

reply_bytes : reply ≡ (0 ∷ 0 ∷ []) ++ reply_rest
unfolding response_bytes memory
reply_bytes = refl

abbrev reply_reads : List ReadResult
reply_reads = got (0 ∷ 0 ∷ []) ∷ got reply_rest ∷ []

reply_reads-Delivers : Delivers reply_reads reply
reply_reads-Delivers =
    subst (Delivers reply_reads) (sym reply_bytes) (part _ _ _ _ (part _ _ _ [] (all_read [])))

request_writes-Takes : Takes (wrote 10 ∷ write_failed again ∷ wrote 9 ∷ []) (length request)
request_writes-Takes =
    subst (λ s. Takes (wrote 10 ∷ write_failed again ∷ wrote 9 ∷ []) (length s)) (sym request_bytes)
      (Writing.part 9 _ 9 (Writing.retried _ 9 (Writing.part 8 [] 0 (Writing.all_taken []))))

reply_writes-Takes : Takes (wrote 14 ∷ []) (length reply)
reply_writes-Takes =
    subst (λ s. Takes (wrote 14 ∷ []) (length s)) (sym reply_bytes)
      (Writing.part 13 [] 0 (Writing.all_taken []))

abbrev client : BlockingRpcClient
client = record { client_fd_ = some 3; err_code_ = 0 }

call_over-bind_example :
    (call_over two_numbers
        (number_serial 4)
        0
        client
        (wrote 4 ∷ (wrote 10 ∷ write_failed again ∷ wrote 9 ∷ []))
        (got (memory 4 (length reply)) ∷ reply_reads)
        (codes "add")
        (2, 3)
      ≡ ok (
        record { err_code = rpc_success; err_msg = []; detail_value = 5 },
        record client { err_code_ = rpc_success },
        packet request,
      ))
    × (serve
          (bind two_numbers (number_serial 4) (codes "add") add [])
          ((got (memory 4 (length request)) ∷ request_reads, wrote 4 ∷ (wrote 14 ∷ [])) ∷ [])
        ≡ (serve (bind two_numbers (number_serial 4) (codes "add") add []) [] >>= λ rest.
            ok (packet reply ∷ rest)))
unfolding c_string
call_over-bind_example =
    call_over-bind two_numbers two_numbers-RoundTrips (number_serial 4) (number_serial-RoundTrips 4)
      0 [] (codes "add") add (2, 3) 5 client (wrote 10 ∷ write_failed again ∷ wrote 9 ∷ [])
      (wrote 14 ∷ []) request_reads reply_reads [] refl (omega arith) (omega arith, omega arith)
      refl (omega arith) refl (rw request_bytes (omega arith)) (rw reply_bytes (omega arith))
      request_writes-Takes request_reads-Delivers reply_writes-Takes reply_reads-Delivers

new_client-tries_example :
    (new_client (some 3) 0 (replicate 1 in_progress ++ connected ∷ [])
      ≡ ok (record { client_fd_ = some 3; err_code_ = 0 }, true))
    × (new_client (some 3) 0 (replicate 1 in_progress ++ connect_failed ∷ []) ≡ exits)
    × (new_client (some 3) 0 (replicate 50 in_progress ++ [])
        ≡ ok (record { client_fd_ = some 3; err_code_ = 0 }, false))
new_client-tries_example = new_client-tries (some 3) 0 1 [] (omega arith)
