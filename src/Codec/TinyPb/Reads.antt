-- ===== src/Codec/TinyPb/Reads.antt =====
-- The stages of `Decode` on a buffer that holds their fields.
use luce.Prelude.{
  ℕ, suc, ◌+◌, ◌-◌, ◌^◌, ◌≤◌, ◌<◌, ◌≡◌, refl, sym, ap, ◌∙◌, true, false, some, [], ◌∷◌, ◌++◌, leb,
  length, drop, Bytes, ok, arith, length-append, length-drop, take-append, drop-append, drop_add,
}
use luce.StringUtil.Find.{lacks}
use luce.Codec.NetInt.{get_net_int32, get_int32_for_net_byte, to_size}
use luce.Codec.TinyPb.{
  TinyPbProtocol, pb_end, until_nul, c_array, copy_text, rest_data, decode_error, decode_method,
}

until_nul-lacks : (s : Bytes) → lacks 0 s ≡ true → until_nul s ≡ s
unfolding until_nul
until_nul-lacks [] h = refl
until_nul-lacks (c ∷ s) h = ground (arith, until_nul-lacks s)

pub length-get_net_int32 : (n : ℕ) → length (get_net_int32 n) ≡ 4
unfolding get_net_int32
length-get_net_int32 n = refl

-- the reader's view of a buffer: what stands from index `i` on
module _ (buf : Bytes) (i : ℕ) where
  pub after_text : (t r : Bytes) → drop i buf ≡ t ++ r → drop (i + length t) buf ≡ r
  after_text t r e =
      drop_add i (length t) buf ∙ ap (drop (length t)) e ∙ drop-append t r (length t) refl

  pub after_int : (n : ℕ) (r : Bytes) → drop i buf ≡ get_net_int32 n ++ r → drop (i + 4) buf ≡ r
  after_int n r e =
      drop_add i 4 buf
      ∙ ap (drop 4) e
      ∙ drop-append (get_net_int32 n) r 4 (sym (length-get_net_int32 n))

  pub read_int :
      (n : ℕ) (r : Bytes)
      → drop i buf ≡ get_net_int32 n ++ r
      → n < 2 ^ 32
      → get_int32_for_net_byte buf i ≡ ok n
  unfolding get_int32_for_net_byte get_net_int32
  read_int n r e h = rw e (ap ok (omega arith))

  -- how much of the buffer is left there
  left_over :
      (t r : Bytes) → drop i buf ≡ t ++ r → 0 < length r → i + length t + length r ≡ length buf
  left_over t r e h = omega (arith, ap length e, length-append t r, length-drop i buf)

  pub read_text :
      (cap : ℕ) (t r : Bytes)
      → drop i buf ≡ t ++ r
      → 0 < length r
      → lacks 0 t ≡ true
      → length t < cap
      → cap ≤ 512
      → copy_text cap buf i (to_size (length t)) ≡ ok t
  unfolding copy_text c_array
  read_text cap t r e h z fits small =
      let inside = left_over t r e h in
      let size : to_size (length t) ≡ length t = ground arith in
      rw (size, e, take-append t r (length t) refl, until_nul-lacks t z) (ground (arith, inside))

  read_data :
      (data_ r : Bytes) (have need : ℕ)
      → drop i buf ≡ data_ ++ r
      → 0 < length r
      → have ≡ need + length data_
      → rest_data buf i have need ≡ ok data_
  unfolding rest_data
  read_data data_ r have need e h size =
      let inside = left_over data_ r e h in
      let count : have - need ≡ length data_ = omega arith in
      rw (count, e, take-append data_ r (length data_) refl) (ground (arith, inside))

abbrev pub packet_end : Bytes
packet_end = get_net_int32 1 ++ pb_end ∷ []

-- the stages of `Decode`, each on a buffer that holds its fields from index `i` on
module _ (buf : Bytes) (end_index : ℕ) (ends : suc end_index ≡ length buf) where
  -- a number that something follows does not start at the packet's end
  pub in_front :
      (i n : ℕ) (r : Bytes)
      → drop i buf ≡ get_net_int32 n ++ r
      → 0 < length r
      → leb end_index i ≡ false
  in_front i n r e h =
      let inside = left_over buf i (get_net_int32 n) r e h in
      ground (arith, inside, length-get_net_int32 n)

  decode_error-reads :
      (msg : TinyPbProtocol) (i code : ℕ) (info data_ : Bytes)
      → drop i buf
        ≡ get_net_int32 code ++ (get_net_int32 (length info) ++ (info ++ (data_ ++ packet_end)))
      → code < 2 ^ 32
      → lacks 0 info ≡ true
      → length info < 512
      → msg.pk_len ≡ (msg.method_name_len + msg.msg_id_len + length info + 2 + 24) + length data_
      → decode_error buf end_index msg i
        ≡ ok (
            some (record msg {
              err_code = code;
              err_info_len = length info;
              err_info = info;
              pb_data = data_;
              parse_success = true;
            }))
  unfolding decode_error get_net_int32
  decode_error-reads msg i code info data_ e hc hz hl size =
      let r1 = get_net_int32 (length info) ++ (info ++ (data_ ++ packet_end)) in
      let e1 = after_int buf i code r1 e in
      let e2 = after_int buf (i + 4) (length info) (info ++ (data_ ++ packet_end)) e1 in
      let e3 = after_text buf (i + 4 + 4) info (data_ ++ packet_end) e2 in
      let pos : 0 < length (data_ ++ packet_end) = omega (arith, length-append data_ packet_end) in
      let more : 0 < length (info ++ (data_ ++ packet_end)) =
        omega (arith, length-append info (data_ ++ packet_end)) in
      rw (
        in_front i code r1 e (omega arith),
        read_int buf i code r1 e hc,
        in_front (i + 4) (length info) (info ++ (data_ ++ packet_end)) e1 more,
        read_int buf (i + 4) (length info) (info ++ (data_ ++ packet_end)) e1 (omega arith),
        read_text buf (i + 4 + 4) 512 info (data_ ++ packet_end) e2 pos hz hl (omega arith),
        read_data buf (i + 4 + 4 + length info) data_ packet_end msg.pk_len
            (msg.method_name_len + msg.msg_id_len + length info + 2 + 24) e3 (omega arith) size,
      )

  pub decode_method-reads :
      (msg : TinyPbProtocol) (i : ℕ) (name : Bytes) (code : ℕ) (info data_ : Bytes)
      → drop i buf
        ≡ get_net_int32 (length name)
          ++ (name
              ++ (get_net_int32 code
                  ++ (get_net_int32 (length info) ++ (info ++ (data_ ++ packet_end)))))
      → lacks 0 name ≡ true
      → length name < 512
      → code < 2 ^ 32
      → lacks 0 info ≡ true
      → length info < 512
      → msg.pk_len ≡ (length name + msg.msg_id_len + length info + 2 + 24) + length data_
      → decode_method buf end_index msg i
        ≡ ok (
            some (record msg {
              method_name_len = length name;
              method_name = name;
              err_code = code;
              err_info_len = length info;
              err_info = info;
              pb_data = data_;
              parse_success = true;
            }))
  unfolding decode_method get_net_int32
  decode_method-reads msg i name code info data_ e nz nl hc hz hl size =
      let r2 =
        get_net_int32 code ++ (get_net_int32 (length info) ++ (info ++ (data_ ++ packet_end))) in
      let e1 = after_int buf i (length name) (name ++ r2) e in
      let e2 = after_text buf (i + 4) name r2 e1 in
      let named : TinyPbProtocol = record msg {
        method_name_len = length name;
        method_name = name;
      } in
      let more : 0 < length (name ++ r2) = omega (arith, length-append name r2) in
      rw
        (
          in_front i (length name) (name ++ r2) e more,
          read_int buf i (length name) (name ++ r2) e (omega arith),
          read_text buf (i + 4) 512 name r2 e1 (omega arith) nz nl (omega arith),
        )
        (decode_error-reads named (i + 4 + length name) code info data_ e2 hc hz hl size)
