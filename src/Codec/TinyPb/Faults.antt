-- ===== src/Codec/TinyPb/Faults.antt =====
-- Packets on which `Decode` leaves its buffers: it trusts the lengths that the packet states.
use luce.Prelude.{
  ℕ, ◌-◌, ◌^◌, ◌<◌, ◌≡◌, refl, ap, ◌∙◌, false, some, [], ◌∷◌, leb, length, drop, get_elem?, Bytes,
  ok, undefined, arith, length-take, length-drop,
}
use luce.Codec.NetInt.{get_int32_for_net_byte, first_int32, to_size}
use luce.Codec.TinyPb.{pb_start, pb_end, c_array, copy_text, decode_id, decode}
use luce.Codec.TinyPb.RoundTrip.{decode-steps}

-- a packet whose ends and total length pass the tests of `Decode`
pub record IsFramed (buf : Bytes) : Type 0 where
  pub first : ℕ
  pub rest : Bytes
  pub whole : buf ≡ first ∷ rest
  pub starts : first ≡ pb_start
  counted : get_int32_for_net_byte (first ∷ rest) 1 ≡ ok (length (first ∷ rest))
  pub small : length (first ∷ rest) < 2 ^ 31
  pub ends : get_elem? (first ∷ rest) (length rest) ≡ some pb_end

decode-IsFramed :
    (buf : Bytes) → IsFramed buf → decode buf ≡ decode_id buf (length buf - 1) (length buf)
decode-IsFramed buf f =
    let last : get_elem? (f.first ∷ f.rest) (length (f.first ∷ f.rest) - 1) ≡ some pb_end =
      ap (get_elem? (f.first ∷ f.rest)) (omega arith) ∙ f.ends in
    rw f.whole
      (decode-steps f.first f.rest (length (f.first ∷ f.rest)) f.starts f.counted f.small refl last)

copy_text_long :
    (buf : Bytes) (i n : ℕ) → 100 < n → n < 2 ^ 31 → copy_text 100 buf i (to_size n) ≡ undefined
unfolding copy_text c_array
copy_text_long buf i n h k = ground (arith, length-take n (drop i buf), length-drop i buf)

-- A packet that frames well and states an id of more than 100 bytes makes `Decode` write past its
-- array of 100 bytes, or read past the packet.
decode_long_id :
    (buf : Bytes) (n : ℕ)
    → IsFramed buf
    → 6 < length buf
    → get_int32_for_net_byte buf 5 ≡ ok n
    → 100 < n
    → n < 2 ^ 31
    → decode buf ≡ undefined
unfolding decode_id
decode_long_id buf n f h r long small =
    let front : leb (length buf - 1) 5 ≡ false = ground arith in
    decode-IsFramed buf f ∙ rw (front, r, copy_text_long buf 9 n long small, decode_id)

first_int32_short : (s : Bytes) → length s < 4 → first_int32 s ≡ undefined
unfolding first_int32
first_int32_short [] h = refl
first_int32_short (a ∷ []) h = refl
first_int32_short (a ∷ b ∷ []) h = refl
first_int32_short (a ∷ b ∷ c ∷ []) h = refl
first_int32_short (a ∷ b ∷ c ∷ d ∷ s) h = absurd (omega arith)

-- A packet of seven or eight bytes that frames well makes `Decode` read the length of the id past
-- the packet's end.
decode_short :
    (buf : Bytes) → IsFramed buf → 6 < length buf → length buf < 9 → decode buf ≡ undefined
unfolding decode_id get_int32_for_net_byte
decode_short buf f h k =
    let front : leb (length buf - 1) 5 ≡ false = ground arith in
    let past : get_int32_for_net_byte buf 5 ≡ undefined =
      first_int32_short (drop 5 buf) (omega (arith, length-drop 5 buf)) in
    decode-IsFramed buf f ∙ rw (front, past, decode_id)
