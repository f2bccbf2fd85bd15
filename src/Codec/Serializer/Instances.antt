-- ===== src/Codec/Serializer/Instances.antt =====
-- Each kind of value that `Serializer` handles is read back as it was written: numbers, texts,
-- sequences and tuples. A type with methods of its own (`has_serialize_method`) is one more `Serial`.
use luce.Prelude.{
  ℕ, ◌+◌, Bool, true, false, ◌%◌, ◌^◌, ◌<◌, ◌≡◌, refl, ap, ◌∙◌, List, [], ◌∷◌, ◌++◌, length, Bytes,
  Outcome, ok, ◌>>=◌, arith,
}
use luce.Codec.Serializer.{
  Serializer, append, memory, serialize_number, deserialize_number, take_bytes, serialize_text,
  deserialize_text, serialize_items, deserialize_items, serialize_sequence, deserialize_sequence,
  serialize_pair, deserialize_pair, serialize_map, count_loop, item_count, Serial,
}
use luce.Codec.Serializer.Laws.{
  reading, past, Writes, Reads, RoundTrips, append-append, append-no_bytes, reading-past,
  Addressable, Addressable-first, Addressable-second, deserialize_number-reading,
  take_bytes-reading, read_then,
}

abbrev pub number_serial : ℕ → Serial ℕ
number_serial width = record {
  serialize = serialize_number width;
  deserialize = deserialize_number width;
  Fits = λ n. n < 256 ^ width;
  bytes = memory width;
}

-- A number is sent as its bytes in memory, if it fits its width.
pub number_serial-RoundTrips : (width : ℕ) → RoundTrips (number_serial width)
unfolding serialize_number
number_serial-RoundTrips width = record {
  writes = λ a s. refl;
  reads = λ a front rest h small. deserialize_number-reading width a front rest h small;
}

abbrev pub text_serial : Serial Bytes
text_serial = record {
  serialize = serialize_text;
  deserialize = deserialize_text;
  Fits = λ value. length value < 256 ^ 8;
  bytes = λ value. memory 8 (length value) ++ value;
}

-- A text is sent as its size, a size_t, and its bytes.
pub text_serial-RoundTrips : RoundTrips text_serial
unfolding serialize_text serialize_number deserialize_text
text_serial-RoundTrips = record {
  writes = λ a s. append-append (memory 8 (length a)) a s;
  reads = λ a front rest h small.
      read_then (deserialize_number 8) take_bytes front (memory 8 (length a)) a rest (length a) a
        (deserialize_number-reading 8 (length a) front (a ++ rest) h
          (Addressable-first front (memory 8 (length a)) a small))
        (take_bytes-reading (front ++ memory 8 (length a)) a rest
          (Addressable-second front (memory 8 (length a)) a small));
}

-- The loop over a container without `size` counts what `size` gives, both in a uint32_t.
count_loop-size :
    {A : Type 0} (value : List A) (size : ℕ)
    → count_loop value (size % 2 ^ 32) ≡ (size + length value) % 2 ^ 32
unfolding count_loop
count_loop-size [] size = omega arith
count_loop-size (x ∷ xs) size =
    let next : (size % 2 ^ 32 + 1) % 2 ^ 32 ≡ (size + 1) % 2 ^ 32 = omega arith in
    rw next (omega (arith, count_loop-size xs (size + 1)))

-- A sequence's count is its size in a uint32_t, by its method or by the loop over its items.
item_count-length :
    {A : Type 0} (sized : Bool) (value : List A) → item_count sized value ≡ length value % 2 ^ 32
unfolding item_count
item_count-length true value = refl
item_count-length false value = omega (arith, count_loop-size value 0)

module _ {A : Type 0} (bytes : A → Bytes) where
  abbrev pub items_bytes : List A → Bytes
  items_bytes [] = []
  items_bytes (x ∷ xs) = bytes x ++ items_bytes xs

  abbrev pub sequence_bytes : List A → Bytes
  sequence_bytes value = memory 4 (length value % 2 ^ 32) ++ items_bytes value

  module _ (item : A → Serializer → Serializer) (writes : Writes item bytes) where
    serialize_items-Writes : Writes (serialize_items item) items_bytes
    unfolding serialize_items
    serialize_items-Writes [] s = append-no_bytes s
    serialize_items-Writes (x ∷ xs) s =
        ap (serialize_items item xs) (writes x s)
        ∙ serialize_items-Writes xs (append (bytes x) s)
        ∙ append-append (bytes x) (items_bytes xs) s

    pub serialize_sequence-Writes :
        (sized : Bool) → Writes (serialize_sequence sized item) sequence_bytes
    unfolding serialize_sequence serialize_number
    serialize_sequence-Writes sized a s = rw (item_count-length sized a) (
        serialize_items-Writes a (append (memory 4 (length a % 2 ^ 32)) s)
        ∙ append-append (memory 4 (length a % 2 ^ 32)) (items_bytes a) s)

abbrev pub AllFit : {A : Type 0} → (A → Type 0) → List A → Type 0
AllFit Fits [] = Unit
AllFit Fits (x ∷ xs) = Fits x × AllFit Fits xs

abbrev pub SequenceFits : {A : Type 0} → (A → Type 0) → List A → Type 0
SequenceFits Fits value = (length value < 256 ^ 4) × AllFit Fits value

module _ {A : Type 0} (Fits : A → Type 0) (bytes : A → Bytes)
    (item : Serializer → Outcome (A × Serializer)) (reads : Reads item Fits bytes) where
  deserialize_items-reading :
      (xs : List A) (front rest : Bytes)
      → AllFit Fits xs
      → Addressable front (items_bytes bytes xs)
      → deserialize_items item (length xs) (reading front (items_bytes bytes xs) rest)
        ≡ ok (xs, past front (items_bytes bytes xs) rest)
  unfolding deserialize_items
  deserialize_items-reading [] front rest h small = ap (λ s. ok ([], s)) (reading-past front rest)
  deserialize_items-reading (x ∷ xs) front rest h small =
      read_then item
        (λ y s'. deserialize_items item (length xs) s' >>= λ (ys, s''). ok (y ∷ ys, s'')) front
        (bytes x) (items_bytes bytes xs) rest x (x ∷ xs)
        (reads x front (items_bytes bytes xs ++ rest) h.0
          (Addressable-first front (bytes x) (items_bytes bytes xs) small))
        (ap {B = Outcome (List A × Serializer)} (λ r. r >>= λ (ys, s''). ok (x ∷ ys, s''))
          (deserialize_items-reading xs (front ++ bytes x) rest h.1
            (Addressable-second front (bytes x) (items_bytes bytes xs) small)))

  pub deserialize_sequence-Reads :
      Reads (deserialize_sequence item) (SequenceFits Fits) (sequence_bytes bytes)
  unfolding deserialize_sequence
  deserialize_sequence-Reads a front rest h small =
      let whole : length a % 2 ^ 32 ≡ length a = omega (arith, h.0) in
      let few : Addressable front (memory 4 (length a) ++ items_bytes bytes a) =
        rw whole at small in
      rw whole (
        read_then (deserialize_number 4) (deserialize_items item) front (memory 4 (length a))
          (items_bytes bytes a) rest (length a) a
          (deserialize_number-reading 4 (length a) front (items_bytes bytes a ++ rest) h.0
            (Addressable-first front (memory 4 (length a)) (items_bytes bytes a) few))
          (deserialize_items-reading a (front ++ memory 4 (length a)) rest h.1
            (Addressable-second front (memory 4 (length a)) (items_bytes bytes a) few)))

abbrev pub sequence_serial : {A : Type 0} → Bool → Serial A → Serial (List A)
sequence_serial sized c = record {
  serialize = serialize_sequence sized c.serialize;
  deserialize = deserialize_sequence c.deserialize;
  Fits = SequenceFits c.Fits;
  bytes = sequence_bytes c.bytes;
}

-- A sequence is sent as its count, a uint32_t, and its items, if the count fits and each item does.
sequence_serial-RoundTrips :
    {A : Type 0} (sized : Bool) (c : Serial A) → RoundTrips c → RoundTrips (sequence_serial sized c)
sequence_serial-RoundTrips sized c laws = record {
  writes = serialize_sequence-Writes c.bytes c.serialize laws.writes sized;
  reads = deserialize_sequence-Reads c.Fits c.bytes c.deserialize laws.reads;
}

module _ {A B : Type 0} (a_bytes : A → Bytes) (b_bytes : B → Bytes) where
  abbrev pub pair_bytes : A × B → Bytes
  pair_bytes (a, b) = a_bytes a ++ b_bytes b

  module _ (first : A → Serializer → Serializer) (second : B → Serializer → Serializer) where
    pub serialize_pair-Writes :
        Writes first a_bytes
        → Writes second b_bytes
        → Writes (serialize_pair first second) pair_bytes
    unfolding serialize_pair
    serialize_pair-Writes la lb (a, b) s =
        ap (second b) (la a s)
        ∙ lb b (append (a_bytes a) s)
        ∙ append-append (a_bytes a) (b_bytes b) s

    -- A map is sent as its size, a size_t, and its entries in order, each key before its value.
    pub serialize_map-Writes :
        Writes first a_bytes
        → Writes second b_bytes
        → Writes (serialize_map first second) (λ m. memory 8 (length m) ++ items_bytes pair_bytes m)
    unfolding serialize_map serialize_number
    serialize_map-Writes la lb m s =
        serialize_items-Writes pair_bytes (serialize_pair first second)
          (serialize_pair-Writes la lb) m (append (memory 8 (length m)) s)
        ∙ append-append (memory 8 (length m)) (items_bytes pair_bytes m) s

  pub deserialize_pair-Reads :
      (AFits : A → Type 0) (BFits : B → Type 0) (first : Serializer → Outcome (A × Serializer))
      (second : Serializer → Outcome (B × Serializer))
      → Reads first AFits a_bytes
      → Reads second BFits b_bytes
      → Reads (deserialize_pair first second) (λ (a, b). AFits a × BFits b) pair_bytes
  unfolding deserialize_pair
  deserialize_pair-Reads AFits BFits first second la lb (a, b) front rest h small =
      read_then first (λ x s'. second s' >>= λ (y, s''). ok ((x, y), s'')) front (a_bytes a)
        (b_bytes b) rest a (a, b)
        (la a front (b_bytes b ++ rest) h.0 (Addressable-first front (a_bytes a) (b_bytes b) small))
        (ap {B = Outcome ((A × B) × Serializer)} (λ r. r >>= λ (y, s''). ok ((a, y), s''))
          (lb b (front ++ a_bytes a) rest h.1
            (Addressable-second front (a_bytes a) (b_bytes b) small)))

module _ {A B : Type 0} (c : Serial A) (d : Serial B) where
  abbrev pub pair_serial : Serial (A × B)
  pair_serial = record {
    serialize = serialize_pair c.serialize d.serialize;
    deserialize = deserialize_pair c.deserialize d.deserialize;
    Fits = λ (a, b). c.Fits a × d.Fits b;
    bytes = pair_bytes c.bytes d.bytes;
  }

  -- A tuple is sent as its parts, one after the other.
  pub pair_serial-RoundTrips : RoundTrips c → RoundTrips d → RoundTrips pair_serial
  pair_serial-RoundTrips lc ld = record {
    writes = serialize_pair-Writes c.bytes d.bytes c.serialize d.serialize lc.writes ld.writes;
    reads =
        deserialize_pair-Reads c.bytes d.bytes c.Fits d.Fits c.deserialize d.deserialize lc.reads
          ld.reads;
  }
