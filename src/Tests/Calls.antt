-- ===== src/Tests/Calls.antt =====
-- A remote call on concrete input: a function that adds two numbers.
use luce.Prelude.{ℕ, ◌+◌, ◌≡◌, refl, [], ◌++◌, codes, Outcome, ok, undefined, arith}
use luce.Table.{lookup}
use luce.Codec.Serializer.Instances.{
  number_serial, pair_serial, number_serial-RoundTrips, pair_serial-RoundTrips,
}
use luce.Codec.Serializer.{
  Serial, memory, serialize_number, str, serialize_pair, append, serialize_text,
}
use luce.Codec.Serializer.Laws.{RoundTrips}
use luce.Rpc.{on_request, call, net_call}
use luce.Rpc.Calls.{call-unbound}

abbrev pub two_numbers : Serial (ℕ × ℕ)
two_numbers = pair_serial (number_serial 4) (number_serial 4)

pub two_numbers-RoundTrips : RoundTrips two_numbers
two_numbers-RoundTrips =
    pair_serial-RoundTrips (number_serial 4) (number_serial 4) (number_serial-RoundTrips 4)
      (number_serial-RoundTrips 4)

abbrev pub add : ℕ × ℕ → Outcome ℕ
add (a, b) = ok (a + b)

call-unbound_example :
    (on_request [] (call two_numbers (codes "add") (2, 3))
      ≡ ok (memory 2 1 ++ (memory 8 22 ++ codes "function not bind: add")))
    × (net_call
          (number_serial 4)
          0
          32
          (memory 2 1 ++ (memory 8 22 ++ codes "function not bind: add"))
        ≡ undefined)
unfolding lookup call str serialize_pair serialize_number append serialize_text memory
call-unbound_example =
    call-unbound two_numbers two_numbers-RoundTrips [] (codes "add") (2, 3) 3 0 (omega arith)
      (omega arith) refl
