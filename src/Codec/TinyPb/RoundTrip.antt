-- ===== src/Codec/TinyPb/RoundTrip.antt =====
-- What `Encode` writes, `Decode` reads back.
use luce.Prelude.{
  ℕ, suc, ◌+◌, ◌-◌, ◌^◌, ◌%◌, ◌<◌, ◌≡◌, refl, ap, ◌∙◌, true, some, [], ◌∷◌, ◌++◌, ◌==◌, length,
  drop, get_elem?, Bytes, ok, arith, length-append, get_elem?-drop,
}
use luce.StringUtil.Find.{lacks}
use luce.Codec.NetInt.{get_net_int32, get_int32_for_net_byte}
use luce.Codec.TinyPb.{
  TinyPbProtocol, pb_start, pb_end, decode_id, end_of, decode, no_message, with_msg_id,
  packet_length, packet, encode_tiny_pb, encode,
}
use luce.Codec.TinyPb.Reads.{
  length-get_net_int32, after_text, after_int, read_int, read_text, in_front, decode_method-reads,
  packet_end,
}

-- what a message must satisfy to be sent: no NUL in its texts, texts that fit the receiver's arrays,
-- an int32_t code, and a packet that an int can count
pub record IsSendable (m : TinyPbProtocol) : Type 0 where
  pub msg_id : lacks 0 m.msg_id ≡ true
  pub msg_id_fits : length m.msg_id < 100
  pub method_name : lacks 0 m.method_name ≡ true
  pub method_name_fits : length m.method_name < 512
  pub err_info : lacks 0 m.err_info ≡ true
  pub err_info_fits : length m.err_info < 512
  pub err_code : m.err_code < 2 ^ 32
  pub size : packet_length m < 2 ^ 31

-- the message with the fields that the coder fills in
abbrev pub filled : TinyPbProtocol → TinyPbProtocol
filled m = record m {
  pk_len = packet_length m;
  msg_id_len = length m.msg_id;
  method_name_len = length m.method_name;
  err_info_len = length m.err_info;
  parse_success = true;
}

length-packet : (m : TinyPbProtocol) (n : ℕ) → length (packet m n) ≡ packet_length m
unfolding packet
length-packet m n = omega (arith, length-append {0}, length-get_net_int32)

end_of_small : (n : ℕ) → 0 < n → n < 2 ^ 31 → end_of n ≡ ok (n - 1)
unfolding end_of
end_of_small n z h = ground arith

pub decode-steps :
    (first : ℕ) (rest : Bytes) (pk_len : ℕ)
    → first ≡ pb_start
    → get_int32_for_net_byte (first ∷ rest) 1 ≡ ok pk_len
    → pk_len < 2 ^ 31
    → length (first ∷ rest) ≡ pk_len
    → get_elem? (first ∷ rest) (pk_len - 1) ≡ some pb_end
    → decode (first ∷ rest) ≡ decode_id (first ∷ rest) (pk_len - 1) pk_len
unfolding decode
decode-steps first rest pk_len s r h size last =
    let count : (length rest == pk_len - 1) ≡ true = ground arith in
    rw (r, end_of_small pk_len (omega arith) h, count, last, s)

module _ (m : TinyPbProtocol) (w : IsSendable m) where
  abbrev size : ℕ
  size = packet_length m

  abbrev buf : Bytes
  buf = packet m size

  abbrev fields_from_code : Bytes
  fields_from_code =
      get_net_int32 m.err_code
      ++ (get_net_int32 (length m.err_info) ++ (m.err_info ++ (m.pb_data ++ packet_end)))

  abbrev fields_from_method : Bytes
  fields_from_method = get_net_int32 (length m.method_name) ++ (m.method_name ++ fields_from_code)

  after_pk_len : drop 5 buf ≡ get_net_int32 (length m.msg_id) ++ (m.msg_id ++ fields_from_method)
  unfolding packet get_net_int32
  after_pk_len = refl

  first_int : get_int32_for_net_byte buf 1 ≡ ok size
  unfolding packet
  first_int =
      read_int buf 1 size (get_net_int32 (length m.msg_id) ++ (m.msg_id ++ fields_from_method)) refl
        (omega (arith, w.size))

  from_id : drop 9 buf ≡ m.msg_id ++ fields_from_method
  unfolding packet get_net_int32
  from_id = refl

  from_method : drop (9 + length m.msg_id) buf ≡ fields_from_method
  from_method = after_text buf 9 m.msg_id fields_from_method from_id

  long_tail : 0 < length fields_from_method
  unfolding get_net_int32
  long_tail = omega arith

  last_byte : get_elem? buf (size - 1) ≡ some pb_end
  unfolding get_net_int32
  last_byte =
      let i = 9 + length m.msg_id in
      let name = m.method_name in
      let info_part = m.err_info ++ (m.pb_data ++ packet_end) in
      let e1 = after_int buf i (length name) (name ++ fields_from_code) from_method in
      let e2 = after_text buf (i + 4) name fields_from_code e1 in
      let e3 =
        after_int buf (i + 4 + length name) m.err_code
          (get_net_int32 (length m.err_info) ++ info_part) e2 in
      let e4 = after_int buf (i + 4 + length name + 4) (length m.err_info) info_part e3 in
      let e5 =
        after_text buf (i + 4 + length name + 4 + 4) m.err_info (m.pb_data ++ packet_end) e4 in
      let e6 =
        after_text buf (i + 4 + length name + 4 + 4 + length m.err_info) m.pb_data packet_end e5 in
      let j = i + 4 + length name + 4 + 4 + length m.err_info + length m.pb_data in
      let e7 = after_int buf j 1 (pb_end ∷ []) e6 in
      ap (get_elem? buf) (omega arith) ∙ get_elem?-drop buf (j + 4) pb_end [] e7

  decode_id-reads : decode_id buf (size - 1) size ≡ ok (some (record (filled m) { check_sum = 0 }))
  unfolding decode_id
  decode_id-reads =
      let ends : suc (size - 1) ≡ length buf = omega (arith, length-packet m size) in
      let after_id = m.msg_id ++ fields_from_method in
      let more : 0 < length after_id =
        omega (arith, length-append m.msg_id fields_from_method, long_tail) in
      let from_length : drop 5 buf ≡ get_net_int32 (length m.msg_id) ++ after_id = after_pk_len in
      rw
        (
          in_front buf (size - 1) ends 5 (length m.msg_id) after_id from_length more,
          read_int buf 5 (length m.msg_id) after_id from_length (omega (arith, w.msg_id_fits)),
          read_text buf 9 100 m.msg_id fields_from_method from_id long_tail w.msg_id w.msg_id_fits
              (omega arith),
        )
        (decode_method-reads buf (size - 1) ends
          (record no_message { pk_len = size; msg_id_len = length m.msg_id; msg_id = m.msg_id })
          (9 + length m.msg_id) m.method_name m.err_code m.err_info m.pb_data from_method
          w.method_name w.method_name_fits w.err_code w.err_info w.err_info_fits (omega arith))

  decode-packet : decode buf ≡ ok (some (record (filled m) { check_sum = 0 }))
  unfolding packet
  decode-packet =
      decode-steps pb_start _ size refl first_int w.size (length-packet m size) last_byte
      ∙ decode_id-reads

encode-packet :
    (m : TinyPbProtocol) (out : Bytes)
    → packet_length (with_msg_id m) < 2 ^ 31
    → encode m out
      ≡ ok (out ++ packet (with_msg_id m) (packet_length (with_msg_id m)), filled (with_msg_id m))
unfolding encode encode_tiny_pb
encode-packet m out h =
    let whole : packet_length (with_msg_id m) % 2 ^ 32 ≡ packet_length (with_msg_id m) =
      omega arith in
    rw whole (ground arith)

-- `Encode` appends a packet to the buffer, and `Decode` of that packet gives the message back: its
-- texts, code and data with the lengths that the coder filled in. The texts hold no NUL and fit the
-- receiver's arrays, and an int can count the packet.
pub decode-encode :
    (m : TinyPbProtocol) (out : Bytes)
    → IsSendable (with_msg_id m)
    → (buf : Bytes) × (encode m out ≡ ok (out ++ buf, filled (with_msg_id m)))
      × (decode buf ≡ ok (some (record (filled (with_msg_id m)) { check_sum = 0 })))
decode-encode m out w = (
  packet (with_msg_id m) (packet_length (with_msg_id m)),
  encode-packet m out w.size,
  decode-packet (with_msg_id m) w,
)
