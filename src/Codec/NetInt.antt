-- ===== src/Codec/NetInt.antt =====
-- luce/net/util.h: 32-bit numbers in network byte order. An int32_t is its bit pattern, below 2 ^ 32.
-- `memcpy` of four bytes and `ntohl` give the same number on every host.
use luce.Prelude.{
  ℕ, ◌+◌, ◌-◌, ◌*◌, ◌/◌, ◌%◌, ◌^◌, ◌<◌, ◌≡◌, ap, [], ◌∷◌, ◌++◌, arith, length, drop, drop-append,
  Bytes, Outcome, ok, undefined, ltb, if◌then◌else◌,
}

-- `GetNetInt32`, and the memcpy of its result
unfoldable pub get_net_int32 : ℕ → Bytes
get_net_int32 num = num / 2 ^ 24 % 256 ∷ num / 2 ^ 16 % 256 ∷ num / 2 ^ 8 % 256 ∷ num % 256 ∷ []

-- the number that four bytes hold
unfoldable pub first_int32 : Bytes → Outcome ℕ
first_int32 (a ∷ b ∷ c ∷ d ∷ rest) = ok (a * 2 ^ 24 + b * 2 ^ 16 + c * 2 ^ 8 + d)
first_int32 _ = undefined

-- `GetInt32ForNetByte(&buf[i])`; a read past the end of the buffer is undefined
unfoldable pub get_int32_for_net_byte : Bytes → ℕ → Outcome ℕ
unfolding first_int32
get_int32_for_net_byte buf i = first_int32 (drop i buf)

-- the number that a bit pattern stands for, as a size_t: a negative one wraps
abbrev pub to_size : ℕ → ℕ
to_size w = if ltb w (2 ^ 31) then w else w + 2 ^ 64 - 2 ^ 32

-- What `GetNetInt32` wrote is read back where it stands.
get_int32-get_net_int32 :
    (front rest : Bytes) (num i : ℕ)
    → num < 2 ^ 32
    → i ≡ length front
    → get_int32_for_net_byte (front ++ (get_net_int32 num ++ rest)) i ≡ ok num
unfolding get_net_int32 get_int32_for_net_byte
get_int32-get_net_int32 front rest num i h e =
    rw (drop-append front (get_net_int32 num ++ rest) i e) (ap ok (omega arith))
