-- ===== src/Codec/Overloads.antt =====
-- luce/codec/serializer.h: what `serialize` and `deserialize` are for a type, as the compiler finds it:
-- the overloads whose conditions hold, and the function that the chosen one comes to with its calls
-- for the types inside. `none` is a call that does not compile: an item of vector<bool> is no
-- reference that `deserialize` can take, the map's overload calls itself on values that are no
-- pointers, and a class's method must take a const object to be called by `serialize`.
pub mod Typed
pub mod Choice
use luce.Prelude.{
  ℕ, ◌^◌, ◌<◌, Bool, true, false, ◌++◌, Option, none, some, ◌>>=◌, List, [], ◌∷◌, if◌then◌else◌,
  ◌==◌, length, Bytes, Outcome, ok, undefined,
}
use luce.Codec.Serializer.{
  Serializer, memory, serialize_number, deserialize_number, serialize_text, deserialize_text,
  serialize_sequence, deserialize_sequence, serialize_pair, deserialize_pair, serialize_map, Serial,
}
use luce.Codec.Serializer.Instances.{sequence_bytes, pair_bytes, items_bytes, SequenceFits}
use luce.Codec.TypeHelper.{
  Container, vector, Ty, boolean, text, no_types, arithmetic, object, sequence, map_of, tuple,
  Method, absent, changing, const, Class, El, has_size_method, has_deserialize_method,
  is_sequence_container_type, is_arithmetic,
}

-- the six overloads of each function, in the order in which the file declares them
pub data Overload : Type 0 where
  by_memory by_method by_text by_items by_entries by_parts : Overload

abbrev pub only_if : Bool → Overload → List Overload → List Overload
only_if true o rest = o ∷ rest
only_if false o rest = rest

abbrev is_text : Ty → Bool
is_text text = true
is_text _ = false

abbrev is_map : Ty → Bool
is_map (map_of k v) = true
is_map _ = false

abbrev is_tuple : Ty → Bool
is_tuple no_types = true
is_tuple (tuple t ts) = true
is_tuple _ = false

-- one byte, which must be that of a bool
unfoldable pub deserialize_bool : Serializer → Outcome (Bool × Serializer)
deserialize_bool s = do
  (n, s') ← deserialize_number 1 s
  if n == 0 then ok (false, s') else if n == 1 then ok (true, s') else undefined

abbrev pub bool_memory : Bool → ℕ
bool_memory true = 1
bool_memory false = 0

-- a call that compiles if the calls inside do
abbrev pub if_compiles : {A B : Type 0} → (A → B) → Option A → Option B
if_compiles f none = none
if_compiles f (some a) = some (f a)

abbrev pub if_both_compile : {A B C : Type 0} → (A → B → C) → Option A → Option B → Option C
if_both_compile f none b = none
if_both_compile f (some a) none = none
if_both_compile f (some a) (some b) = some (f a b)

-- `typename Container::value_type& item` is no type for the items of vector<bool>
abbrev pub gives_references : Container → Ty → Bool
gives_references vector boolean = false
gives_references _ t = true

-- the overloads whose conditions a type meets, where `has_method` is that of its methods
unfoldable pub candidates : Bool → Ty → List Overload
unfolding is_sequence_container_type
candidates has_method t = only_if (is_arithmetic t) by_memory (
    only_if has_method by_method (
      only_if (is_text t) by_text (
        only_if (is_sequence_container_type t) by_items
          (only_if (is_map t) by_entries (only_if (is_tuple t) by_parts [])))))

module _ (classes : ℕ → Class) where
  unfoldable pub serializer : (t : Ty) → Option (El classes t → Serializer → Serializer)
  unfolding has_size_method
  serializer boolean = some (λ b. serialize_number 1 (bool_memory b))
  serializer (arithmetic width) = some (serialize_number width)
  serializer (object k) = elim (classes k).serialize_method [
    | absent ↦ none
    | changing ↦ none
    | const ↦ some (classes k).serial.serialize
  ]
  serializer text = some serialize_text
  serializer (sequence c t) =
      if_compiles (serialize_sequence (has_size_method classes (sequence c t))) (serializer t)
  serializer (map_of k v) = if_both_compile serialize_map (serializer k) (serializer v)
  serializer no_types = some (λ value s. s)
  serializer (tuple t ts) = if_both_compile serialize_pair (serializer t) (serializer ts)

  unfoldable pub deserializer : (t : Ty) → Option (Serializer → Outcome (El classes t × Serializer))
  unfolding has_deserialize_method
  deserializer boolean = some deserialize_bool
  deserializer (arithmetic width) = some (deserialize_number width)
  deserializer (object k) =
      if has_deserialize_method classes (object k)
      then some (classes k).serial.deserialize
      else none
  deserializer text = some deserialize_text
  deserializer (sequence c t) =
      if gives_references c t then if_compiles deserialize_sequence (deserializer t) else none
  deserializer (map_of k v) = none
  deserializer no_types = some (λ s. ok (tt, s))
  deserializer (tuple t ts) = if_both_compile deserialize_pair (deserializer t) (deserializer ts)

  -- the wire format: the bytes of a value, and which values it has room for
  abbrev pub wire : (t : Ty) → El classes t → Bytes
  wire boolean b = bool_memory b ∷ []
  wire (arithmetic width) n = memory width n
  wire (object k) value = (classes k).serial.bytes value
  wire text value = memory 8 (length value) ++ value
  wire (sequence c t) value = sequence_bytes (wire t) value
  wire (map_of k v) m = memory 8 (length m) ++ items_bytes (pair_bytes (wire k) (wire v)) m
  wire no_types value = []
  wire (tuple t ts) value = pair_bytes (wire t) (wire ts) value

  abbrev pub Fits : (t : Ty) → El classes t → Type 0
  Fits boolean b = Unit
  Fits (arithmetic width) n = n < 256 ^ width
  Fits (object k) value = (classes k).serial.Fits value
  Fits text value = length value < 256 ^ 8
  Fits (sequence c t) value = SequenceFits (Fits t) value
  Fits (map_of k v) m = Unit
  Fits no_types value = Unit
  Fits (tuple t ts) (value, values) = Fits t value × Fits ts values
