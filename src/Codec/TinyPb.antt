-- ===== src/Codec/TinyPb.antt =====
-- luce/codec/tinypb_coder.cpp and tinypb_protocol.h: the TinyPB packet and its coder.
-- A read outside the buffer, and a copy that does not fit the array on the stack, are undefined.
-- `decode` returns the message that it stores, or none where it logs an error and returns.
pub mod Reads
pub mod RoundTrip
pub mod Faults
use luce.Prelude.{
  ℕ, zero, suc, ◌+◌, ◌-◌, ◌*◌, ◌^◌, ◌%◌, Bool, true, false, ◌&&◌, ◌||◌, not, Option, none, some,
  List, [], ◌∷◌, ◌++◌, ◌==◌, ltb, leb, if◌then◌else◌, length, take, drop, get_elem?, Bytes, codes,
  same, Outcome, ok, throws, undefined, or_undefined, ◌>>=◌,
}
use luce.StringUtil.Find.{lacks}
use luce.Codec.NetInt.{get_net_int32, get_int32_for_net_byte, to_size}

-- pk_len, err_code and the other int32_t fields are bit patterns
pub record TinyPbProtocol : Type 0 where
  pub msg_id : Bytes
  pub pk_len : ℕ
  pub msg_id_len : ℕ
  pub method_name_len : ℕ
  pub method_name : Bytes
  pub err_code : ℕ
  pub err_info_len : ℕ
  pub err_info : Bytes
  pub pb_data : Bytes
  pub check_sum : ℕ
  pub parse_success : Bool

abbrev pub pb_start : ℕ
pb_start = 0x02

abbrev pub pb_end : ℕ
pb_end = 0x03

-- the bytes in front of the first NUL
unfoldable pub until_nul : Bytes → Bytes
until_nul [] = []
until_nul (c ∷ s) = if c == 0 then [] else c ∷ until_nul s

-- memcpy into a zeroed char[cap], then std::string(array), which reads up to the first NUL
unfoldable pub c_array : ℕ → Bytes → Outcome Bytes
c_array cap bytes =
    if ltb cap (length bytes)
    then undefined
    else if length bytes == cap && lacks 0 bytes
    then undefined
    else ok (until_nul bytes)

-- memcpy from &in_buffer[i]
unfoldable pub copy_text : ℕ → Bytes → ℕ → ℕ → Outcome Bytes
copy_text cap in_buffer i len =
    if ltb (length in_buffer) (i + len)
    then undefined
    else c_array cap (take len (drop i in_buffer))

-- std::string(&in_buffer[i], len) with an int length: a negative one is a length_error
unfoldable pub rest_data : Bytes → ℕ → ℕ → ℕ → Outcome Bytes
rest_data in_buffer i have need =
    if ltb have need
    then throws
    else if ltb (length in_buffer) (i + (have - need))
    then undefined
    else ok (take (have - need) (drop i in_buffer))

-- `Decode` from the error code on
unfoldable pub decode_error : Bytes → ℕ → TinyPbProtocol → ℕ → Outcome (Option TinyPbProtocol)
decode_error in_buffer end_index message err_code_index =
    if leb end_index err_code_index then ok none else do
      err_code ← get_int32_for_net_byte in_buffer err_code_index
      let err_info_len_index = err_code_index + 4
      if leb end_index err_info_len_index then ok none else do
        err_info_len ← get_int32_for_net_byte in_buffer err_info_len_index
        let err_info_index = err_info_len_index + 4
        err_info ← copy_text 512 in_buffer err_info_index (to_size err_info_len)
        pb_data ←
            rest_data in_buffer (err_info_index + err_info_len) message.pk_len
              (message.method_name_len + message.msg_id_len + err_info_len + 2 + 24)
        ok (
            some (record message {
              err_code = err_code;
              err_info_len = err_info_len;
              err_info = err_info;
              pb_data = pb_data;
              parse_success = true;
            }))

-- `Decode` from the method's name on
unfoldable pub decode_method : Bytes → ℕ → TinyPbProtocol → ℕ → Outcome (Option TinyPbProtocol)
decode_method in_buffer end_index message method_name_len_index =
    if leb end_index method_name_len_index then ok none else do
      method_name_len ← get_int32_for_net_byte in_buffer method_name_len_index
      let method_name_index = method_name_len_index + 4
      method_name ← copy_text 512 in_buffer method_name_index (to_size method_name_len)
      decode_error in_buffer end_index
          (record message { method_name_len = method_name_len; method_name = method_name })
          (method_name_index + method_name_len)

abbrev pub no_message : TinyPbProtocol
no_message = record {
  msg_id = [];
  pk_len = 0;
  msg_id_len = 0;
  method_name_len = 0;
  method_name = [];
  err_code = 0;
  err_info_len = 0;
  err_info = [];
  pb_data = [];
  check_sum = 0;
  parse_success = false;
}

-- `Decode` behind the two tests of the packet's ends
unfoldable pub decode_id : Bytes → ℕ → ℕ → Outcome (Option TinyPbProtocol)
decode_id in_buffer end_index pk_len =
    let msg_id_len_index = 0 + 1 + 4 in
    if leb end_index msg_id_len_index then ok none else do
      msg_id_len ← get_int32_for_net_byte in_buffer msg_id_len_index
      let msg_id_index = msg_id_len_index + 4
      msg_id ← copy_text 100 in_buffer msg_id_index (to_size msg_id_len)
      decode_method in_buffer end_index
          (record no_message { pk_len = pk_len; msg_id_len = msg_id_len; msg_id = msg_id })
          (msg_id_index + msg_id_len)

-- `start_index + pk_len - 1` as the size_t that it is compared as; INT_MIN - 1 overflows
unfoldable pub end_of : ℕ → Outcome ℕ
end_of pk_len =
    if pk_len == 2 ^ 31
    then undefined
    else ok (if pk_len == 0 then 2 ^ 64 - 1 else to_size pk_len - 1)

unfoldable pub decode : Bytes → Outcome (Option TinyPbProtocol)
decode [] = ok none
decode (first ∷ rest) =
    let in_buffer = first ∷ rest in
    if not (first == pb_start) then ok none else do
      pk_len ← get_int32_for_net_byte in_buffer 1
      end_index ← end_of pk_len
      if not (length rest == end_index) then ok none else do
        last ← or_undefined (get_elem? in_buffer end_index)
        if not (last == pb_end) then ok none else decode_id in_buffer end_index pk_len

unfoldable pub with_msg_id : TinyPbProtocol → TinyPbProtocol
with_msg_id m = if same m.msg_id [] then record m { msg_id = codes "123456789" } else m

abbrev pub packet_length : TinyPbProtocol → ℕ
packet_length m =
    2 + 24 + length m.msg_id + length m.method_name + length m.err_info + length m.pb_data

unfoldable pub packet : TinyPbProtocol → ℕ → Bytes
packet m pk_len =
    pb_start
    ∷ (get_net_int32 pk_len
        ++ (get_net_int32 (length m.msg_id)
            ++ (m.msg_id
                ++ (get_net_int32 (length m.method_name)
                    ++ (m.method_name
                        ++ (get_net_int32 m.err_code
                            ++ (get_net_int32 (length m.err_info)
                                ++ (m.err_info
                                    ++ (m.pb_data ++ (get_net_int32 1 ++ pb_end ∷ []))))))))))

-- `EncodeTinyPB`: the packet, and the message with the fields that the coder fills in. `pk_len` is an
-- int: where the sum does not fit, the array is too small for what is copied, or its size negative.
unfoldable pub encode_tiny_pb : TinyPbProtocol → Outcome (Bytes × TinyPbProtocol)
encode_tiny_pb message =
    let m = with_msg_id message in
    let pk_len = packet_length m % 2 ^ 32 in
    if leb (2 ^ 31) pk_len
    then throws
    else if ltb pk_len (packet_length m)
    then undefined
    else ok (
      packet m pk_len,
      record m {
        pk_len = pk_len;
        msg_id_len = length m.msg_id;
        method_name_len = length m.method_name;
        err_info_len = length m.err_info;
        parse_success = true;
      },
    )

-- `Encode` appends the packet to the buffer
unfoldable pub encode : TinyPbProtocol → Bytes → Outcome (Bytes × TinyPbProtocol)
encode message out_buffer = do (buf, m) ← encode_tiny_pb message; ok (out_buffer ++ buf, m)
