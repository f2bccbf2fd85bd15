-- ===== src/Tests/Wire.antt =====
-- luce/codec and the packet loops on concrete bytes.
use luce.Prelude.{
  ℕ, ◌⊎◌, ◌≤◌, none, length, ◌≡◌, refl, true, List, [], ◌∷◌, ◌++◌, some, Bytes, codes, same, ok,
  arith, Outcome, false,
}
use luce.Codec.TinyPb.{TinyPbProtocol, with_msg_id, encode, decode, no_message}
use luce.Codec.TinyPb.RoundTrip.{IsSendable, filled, decode-encode}
use luce.Codec.Serializer.{
  memory, Serial, Serializer, of_bytes, serialize_pair, serialize_text, serialize_sequence,
  serialize_number, serialize_items, append, deserialize_pair, deserialize_text,
  deserialize_sequence, deserialize_number,
}
use luce.Codec.Serializer.Laws.{RoundTrips}
use luce.Codec.Serializer.Instances.{
  pair_serial, number_serial, pair_serial-RoundTrips, number_serial-RoundTrips,
}
use luce.Codec.TypeHelper.{
  vector, forward_list, Ty, text, no_types, arithmetic, object, sequence, tuple, absent, changing,
  const, Class, El, has_serialize_method, has_deserialize_method,
}
use luce.Codec.Overloads.{candidates, serializer, deserializer}
use luce.Codec.Overloads.Typed.{deserializer-serializer}
use luce.Codec.Overloads.Choice.{candidates-one}
use luce.Io.{
  ReadResult, got, read_failed, again, WriteResult, wrote, write_failed, async_read_packet,
  async_write_packet,
}
use luce.Io.Reading.{Delivers, all_read, part, retried, async_read_packet-Delivers}
use luce.Io.Writing.{Takes, async_write-front, write_packet-front, async_write_packet-Takes}
use luce.Io.Writing

abbrev order : TinyPbProtocol
order = record no_message { method_name = codes "Order.makeOrder"; pb_data = codes "data" }

order-IsSendable : IsSendable (with_msg_id order)
unfolding with_msg_id same
order-IsSendable = record {
  msg_id = refl;
  msg_id_fits = omega arith;
  method_name = refl;
  method_name_fits = omega arith;
  err_info = refl;
  err_info_fits = omega arith;
  err_code = omega arith;
  size = omega arith;
}

decode-encode_example :
    (buf : Bytes) × (encode order [] ≡ ok ([] ++ buf, filled (with_msg_id order)))
    × (decode buf ≡ ok (some (record (filled (with_msg_id order)) { check_sum = 0 })))
decode-encode_example = decode-encode order [] order-IsSendable

-- a class of two numbers, with both methods
abbrev point_serial : Serial (ℕ × ℕ)
point_serial = pair_serial (number_serial 4) (number_serial 4)

point_serial-RoundTrips : RoundTrips point_serial
point_serial-RoundTrips =
    pair_serial-RoundTrips (number_serial 4) (number_serial 4) (number_serial-RoundTrips 4)
      (number_serial-RoundTrips 4)

abbrev points : ℕ → Class
points k = record {
  Value = ℕ × ℕ;
  serialize_method = const;
  deserialize_method = changing;
  size_method = absent;
  serial = point_serial;
}

-- std::tuple<std::string, std::vector<uint16_t>, std::forward_list<Point>>
abbrev drawing : Ty
drawing =
    tuple text
      (tuple (sequence vector (arithmetic 2)) (tuple (sequence forward_list (object 0)) no_types))

abbrev a_drawing : El points drawing
a_drawing = (codes "ab", (7 ∷ 300 ∷ [], ((1, 2) ∷ [], tt)))

candidates-one_example :
    ((serializer points drawing ≡ none)
      ⊎ (length (candidates (has_serialize_method points drawing) drawing) ≡ 1))
    × (length (candidates (has_serialize_method points drawing) drawing) ≤ 1)
    × ((deserializer points drawing ≡ none)
        ⊎ (length (candidates (has_deserialize_method points drawing) drawing) ≡ 1))
    × (length (candidates (has_deserialize_method points drawing) drawing) ≤ 1)
candidates-one_example = candidates-one points drawing

abbrev write_drawing : El points drawing → Serializer → Serializer
write_drawing = serialize_pair serialize_text (
    serialize_pair (serialize_sequence true (serialize_number 2))
      (serialize_pair (serialize_sequence false point_serial.serialize) (λ value s. s)))

abbrev read_drawing : Serializer → Outcome (El points drawing × Serializer)
read_drawing = deserialize_pair deserialize_text (
    deserialize_pair (deserialize_sequence (deserialize_number 2))
      (deserialize_pair (deserialize_sequence point_serial.deserialize) (λ s. ok (tt, s))))

write_drawing_compiles : serializer points drawing ≡ some write_drawing
unfolding serializer
write_drawing_compiles = refl

read_drawing_compiles : deserializer points drawing ≡ some read_drawing
unfolding deserializer
read_drawing_compiles = refl

deserializer-serializer_example :
    read_drawing (record {
      buffer = (write_drawing a_drawing (of_bytes (codes "x"))).buffer ++ codes "y";
      deserialize_pos = 1;
    })
    ≡ ok (
      a_drawing,
      record {
        buffer = (write_drawing a_drawing (of_bytes (codes "x"))).buffer ++ codes "y";
        deserialize_pos = length (write_drawing a_drawing (of_bytes (codes "x"))).buffer;
      },
    )
unfolding serialize_pair serialize_sequence serialize_items serialize_number append serialize_text
    memory
deserializer-serializer_example =
    deserializer-serializer points (λ k. point_serial-RoundTrips) drawing write_drawing read_drawing
      a_drawing (codes "x") (codes "y") write_drawing_compiles read_drawing_compiles (omega arith)
      (omega arith)

abbrev pieces : List ReadResult
pieces = read_failed again ∷ got (codes "ab") ∷ got (codes "c") ∷ []

pieces-Delivers : Delivers pieces (codes "abc")
pieces-Delivers = retried _ _ (part 97 (98 ∷ []) _ (99 ∷ []) (part 99 [] [] [] (all_read [])))

async_read_packet-Delivers_example :
    async_read_packet (got (memory 4 3) ∷ pieces) [] ≡ ok (true, codes "abc")
async_read_packet-Delivers_example =
    async_read_packet-Delivers (codes "abc") [] pieces (omega arith) pieces-Delivers

abbrev slow : List WriteResult
slow = wrote 2 ∷ write_failed again ∷ wrote 1 ∷ []

slow-Takes : Takes slow 3
slow-Takes = Writing.part 1 _ 1 (Writing.retried _ 1 (Writing.part 0 [] 0 (Writing.all_taken [])))

async_write_packet-Takes_example :
    async_write_packet (wrote 4 ∷ slow) (codes "abc") ≡ ok (true, memory 4 3 ++ codes "abc")
async_write_packet-Takes_example =
    async_write_packet-Takes slow (codes "abc") (omega arith) slow-Takes
