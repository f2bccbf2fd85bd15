-- ===== src/Codec/Serializer.antt =====
-- luce/codec/serializer.h: the buffer with a read position. Numbers are copied as they lie in memory,
-- which is low byte first on the hosts that the code names. `deserialize` copies without a test of
-- the buffer's end, so a read past it is undefined; that also stands for the exception of a `resize`
-- to a size that cannot be had. The position is an int, kept as its 32 bits: it wraps around, and a
-- position from 2 ^ 31 on is one below 0, where every read is undefined.
-- `deserialize` of a std::map does not compile, and is a call without a function in Overloads.
pub mod Laws
pub mod Instances
use luce.Prelude.{
  ℕ, zero, suc, ◌+◌, ◌*◌, ◌/◌, ◌%◌, ◌^◌, Bool, true, false, not, List, [], ◌∷◌, ◌++◌, ltb,
  if◌then◌else◌, length, take, drop, Bytes, Outcome, ok, undefined, ◌>>=◌,
}

pub record Serializer : Type 0 where
  pub buffer : Bytes
  pub deserialize_pos : ℕ

-- `Serializer()` and the constructors from a text or a range
abbrev pub of_bytes : Bytes → Serializer
of_bytes data_ = record { buffer = data_; deserialize_pos = 0 }

-- buffer_.insert(buffer_.end(), …)
unfoldable pub append : Bytes → Serializer → Serializer
append data_ s = record s { buffer = s.buffer ++ data_ }

-- the bytes of a number of `width` bytes in memory
unfoldable pub memory : ℕ → ℕ → Bytes
memory zero n = []
memory (suc width) n = n % 256 ∷ memory width (n / 256)

unfoldable pub number : Bytes → ℕ
number [] = 0
number (c ∷ s) = c + 256 * number s

-- std::copy from the read position, and `+=` of a size_t to the int behind it
unfoldable pub take_bytes : ℕ → Serializer → Outcome (Bytes × Serializer)
take_bytes size s =
    if not (ltb s.deserialize_pos (2 ^ 31))
    then undefined
    else if ltb (length s.buffer) (s.deserialize_pos + size)
    then undefined
    else ok (
      take size (drop s.deserialize_pos s.buffer),
      record s { deserialize_pos = (s.deserialize_pos + size) % 2 ^ 32 },
    )

unfoldable pub serialize_number : ℕ → ℕ → Serializer → Serializer
serialize_number width value = append (memory width value)

unfoldable pub deserialize_number : ℕ → Serializer → Outcome (ℕ × Serializer)
deserialize_number width s = do (data_, s') ← take_bytes width s; ok (number data_, s')

-- the size of a text is a size_t
unfoldable pub serialize_text : Bytes → Serializer → Serializer
serialize_text value s = append value (serialize_number 8 (length value) s)

unfoldable pub deserialize_text : Serializer → Outcome (Bytes × Serializer)
deserialize_text s = do (size, s') ← deserialize_number 8 s; take_bytes size s'

-- the loop over a container's items
unfoldable pub serialize_items {ℓ} :
    {A : Type ℓ} → (A → Serializer → Serializer) → List A → Serializer → Serializer
serialize_items item [] s = s
serialize_items item (x ∷ xs) s = serialize_items item xs (item x s)

unfoldable pub deserialize_items :
    {A : Type 0}
    → (Serializer → Outcome (A × Serializer))
    → ℕ
    → Serializer
    → Outcome (List A × Serializer)
deserialize_items item zero s = ok ([], s)
deserialize_items item (suc n) s = do
  (x, s') ← item s
  (xs, s'') ← deserialize_items item n s'
  ok (x ∷ xs, s'')

-- the loop that counts the items of a container without `size`, in a uint32_t
unfoldable pub count_loop : {A : Type 0} → List A → ℕ → ℕ
count_loop [] size = size
count_loop (x ∷ xs) size = count_loop xs ((size + 1) % 2 ^ 32)

unfoldable pub item_count : {A : Type 0} → Bool → List A → ℕ
item_count true value = length value % 2 ^ 32
item_count false value = count_loop value 0

-- vector, deque, list and forward_list, the first three with a method `size`: the count is a uint32_t
unfoldable pub serialize_sequence :
    {A : Type 0} → Bool → (A → Serializer → Serializer) → List A → Serializer → Serializer
serialize_sequence sized item value s =
    serialize_items item value (serialize_number 4 (item_count sized value) s)

unfoldable pub deserialize_sequence :
    {A : Type 0}
    → (Serializer → Outcome (A × Serializer))
    → Serializer
    → Outcome (List A × Serializer)
deserialize_sequence item s = do (size, s') ← deserialize_number 4 s; deserialize_items item size s'

-- a tuple of two, and by nesting any tuple: its parts in order
unfoldable pub serialize_pair :
    {A B : Type 0}
    → (A → Serializer → Serializer)
    → (B → Serializer → Serializer)
    → A × B
    → Serializer
    → Serializer
serialize_pair first second (a, b) s = second b (first a s)

unfoldable pub deserialize_pair :
    {A B : Type 0}
    → (Serializer → Outcome (A × Serializer))
    → (Serializer → Outcome (B × Serializer))
    → Serializer
    → Outcome ((A × B) × Serializer)
deserialize_pair first second s = do (a, s') ← first s; (b, s'') ← second s'; ok ((a, b), s'')

-- std::map: a size_t count, then each key with its value in the map's order
unfoldable pub serialize_map :
    {A B : Type 0}
    → (A → Serializer → Serializer)
    → (B → Serializer → Serializer)
    → List (A × B)
    → Serializer
    → Serializer
serialize_map key value m s =
    serialize_items (serialize_pair key value) m (serialize_number 8 (length m) s)

unfoldable pub str : Serializer → Bytes
str s = s.buffer

unfoldable pub clear : Serializer → Serializer
clear s = record { buffer = []; deserialize_pos = 0 }

-- What a type must have so that its values can be sent: both functions, the bytes that the first
-- appends, and which values the second can read back from these.
pub record Serial (A : Type 0) : Type 1 where
  pub serialize : A → Serializer → Serializer
  pub deserialize : Serializer → Outcome (A × Serializer)
  pub Fits : A → Type 0
  pub bytes : A → Bytes
