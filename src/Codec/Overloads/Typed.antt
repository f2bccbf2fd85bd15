-- ===== src/Codec/Overloads/Typed.antt =====
-- What the chosen overloads do, by induction on the type: what `serialize` writes for a type,
-- `deserialize` reads back.
use luce.Prelude.{
  ℕ, ◌+◌, ◌^◌, ◌<◌, ◌≡◌, subst, refl, ap, Bool, true, false, Option, none, some, [], ◌∷◌, ◌++◌,
  length, Bytes, Outcome, ok, if◌then◌else◌, arith, length-append, append_assoc,
}
use luce.Codec.Serializer.{
  Serializer, of_bytes, append, memory, serialize_number, serialize_sequence, deserialize_sequence,
  serialize_map, serialize_pair, deserialize_pair,
}
use luce.Codec.Serializer.Laws.{
  Writes, Reads, RoundTrips, append-no_bytes, reading-past, deserialize_number-reading,
}
use luce.Codec.Serializer.Instances.{
  number_serial-RoundTrips, text_serial-RoundTrips, serialize_sequence-Writes,
  serialize_pair-Writes, serialize_map-Writes, deserialize_sequence-Reads, deserialize_pair-Reads,
  SequenceFits, sequence_bytes, pair_bytes,
}
use luce.Codec.TypeHelper.{
  Ty, boolean, text, no_types, arithmetic, object, sequence, map_of, tuple, Method, absent,
  changing, const, Class, El, has_size_method, has_deserialize_method,
}
use luce.Codec.Overloads.{
  if_compiles, if_both_compile, serializer, deserializer, deserialize_bool, bool_memory,
  gives_references, wire, Fits,
}

-- what is to be shown of a function that may not compile
abbrev Written : {A : Type 0} → (A → Bytes) → Option (A → Serializer → Serializer) → Type 0
Written bytes none = Unit
Written bytes (some w) = Writes w bytes

abbrev ReadBack :
    {A : Type 0}
    → (A → Type 0)
    → (A → Bytes)
    → Option (Serializer → Outcome (A × Serializer))
    → Type 0
ReadBack Fits bytes none = Unit
ReadBack Fits bytes (some r) = Reads r Fits bytes

sequence-Written :
    {A : Type 0} (bytes : A → Bytes) (sized : Bool) (item : Option (A → Serializer → Serializer))
    → Written bytes item
    → Written (sequence_bytes bytes) (if_compiles (serialize_sequence sized) item)
sequence-Written bytes sized none h = tt
sequence-Written bytes sized (some w) h = serialize_sequence-Writes bytes w h sized

module _ {A B C : Type 0} (a_bytes : A → Bytes) (b_bytes : B → Bytes) (c_bytes : C → Bytes) where
  both-Written :
      (f : (A → Serializer → Serializer)
        → (B → Serializer → Serializer)
        → C
        → Serializer
        → Serializer)
      (a : Option (A → Serializer → Serializer)) (b : Option (B → Serializer → Serializer))
      → ((first : A → Serializer → Serializer) (second : B → Serializer → Serializer)
          → Writes first a_bytes
          → Writes second b_bytes
          → Writes (f first second) c_bytes)
      → Written a_bytes a
      → Written b_bytes b
      → Written c_bytes (if_both_compile f a b)
  both-Written f none b step la lb = tt
  both-Written f (some w) none step la lb = tt
  both-Written f (some w) (some v) step la lb = step w v la lb

sequence-ReadBack :
    {A : Type 0} (Holds : A → Type 0) (bytes : A → Bytes)
    (item : Option (Serializer → Outcome (A × Serializer)))
    → ReadBack Holds bytes item
    → ReadBack (SequenceFits Holds) (sequence_bytes bytes) (if_compiles deserialize_sequence item)
sequence-ReadBack Holds bytes none h = tt
sequence-ReadBack Holds bytes (some r) h = deserialize_sequence-Reads Holds bytes r h

if-ReadBack :
    {A : Type 0} (Holds : A → Type 0) (bytes : A → Bytes) (b : Bool)
    (item : Option (Serializer → Outcome (A × Serializer)))
    → ReadBack Holds bytes item
    → ReadBack Holds bytes (if b then item else none)
if-ReadBack Holds bytes true item h = h
if-ReadBack Holds bytes false item h = tt

pair-ReadBack :
    {A B : Type 0} (AFits : A → Type 0) (BFits : B → Type 0) (a_bytes : A → Bytes)
    (b_bytes : B → Bytes) (a : Option (Serializer → Outcome (A × Serializer)))
    (b : Option (Serializer → Outcome (B × Serializer)))
    → ReadBack AFits a_bytes a
    → ReadBack BFits b_bytes b
    → ReadBack
        (λ (x, y). AFits x × BFits y)
        (pair_bytes a_bytes b_bytes)
        (if_both_compile deserialize_pair a b)
pair-ReadBack AFits BFits a_bytes b_bytes none b la lb = tt
pair-ReadBack AFits BFits a_bytes b_bytes (some r) none la lb = tt
pair-ReadBack AFits BFits a_bytes b_bytes (some r) (some q) la lb =
    deserialize_pair-Reads a_bytes b_bytes AFits BFits r q la lb

bool-Writes : Writes (λ b. serialize_number 1 (bool_memory b)) (λ b. bool_memory b ∷ [])
unfolding serialize_number memory
bool-Writes true s = refl
bool-Writes false s = refl

bool-Reads : Reads deserialize_bool (λ b. Unit) (λ b. bool_memory b ∷ [])
unfolding deserialize_bool memory
bool-Reads true front rest h small =
    rw (deserialize_number-reading 1 1 front rest (omega arith) small) refl
bool-Reads false front rest h small =
    rw (deserialize_number-reading 1 0 front rest (omega arith) small) refl

module _ (classes : ℕ → Class) (laws : (k : ℕ) → RoundTrips (classes k).serial) where
  object-Written :
      (k : ℕ) (m : Method)
      → Written
          (classes k).serial.bytes
          (elim m [ absent ↦ none | changing ↦ none | const ↦ some (classes k).serial.serialize ])
  object-Written k absent = tt
  object-Written k changing = tt
  object-Written k const = (laws k).writes

  serializer-Written : (t : Ty) → Written (wire classes t) (serializer classes t)
  unfolding serializer
  serializer-Written boolean = bool-Writes
  serializer-Written (arithmetic width) = (number_serial-RoundTrips width).writes
  serializer-Written (object k) = object-Written k (classes k).serialize_method
  serializer-Written text = text_serial-RoundTrips.writes
  serializer-Written (sequence c t) =
      sequence-Written (wire classes t) (has_size_method classes (sequence c t))
        (serializer classes t) (serializer-Written t)
  serializer-Written (map_of k v) =
      both-Written (wire classes k) (wire classes v) (wire classes (map_of k v)) serialize_map
        (serializer classes k) (serializer classes v)
        (serialize_map-Writes (wire classes k) (wire classes v)) (serializer-Written k)
        (serializer-Written v)
  serializer-Written no_types = λ a s. append-no_bytes s
  serializer-Written (tuple t ts) =
      both-Written (wire classes t) (wire classes ts) (wire classes (tuple t ts)) serialize_pair
        (serializer classes t) (serializer classes ts)
        (serialize_pair-Writes (wire classes t) (wire classes ts)) (serializer-Written t)
        (serializer-Written ts)

  deserializer-ReadBack :
      (t : Ty) → ReadBack (Fits classes t) (wire classes t) (deserializer classes t)
  unfolding deserializer
  deserializer-ReadBack boolean = bool-Reads
  deserializer-ReadBack (arithmetic width) = (number_serial-RoundTrips width).reads
  deserializer-ReadBack (object k) =
      if-ReadBack (classes k).serial.Fits (classes k).serial.bytes
        (has_deserialize_method classes (object k)) (some (classes k).serial.deserialize)
        (laws k).reads
  deserializer-ReadBack text = text_serial-RoundTrips.reads
  deserializer-ReadBack (sequence c t) =
      if-ReadBack (SequenceFits (Fits classes t)) (sequence_bytes (wire classes t))
        (gives_references c t) (if_compiles deserialize_sequence (deserializer classes t))
        (sequence-ReadBack (Fits classes t) (wire classes t) (deserializer classes t)
          (deserializer-ReadBack t))
  deserializer-ReadBack (map_of k v) = tt
  deserializer-ReadBack no_types =
      λ a front rest h small. ap (λ s. ok (tt, s)) (reading-past front rest)
  deserializer-ReadBack (tuple t ts) =
      pair-ReadBack (Fits classes t) (Fits classes ts) (wire classes t) (wire classes ts)
        (deserializer classes t) (deserializer classes ts) (deserializer-ReadBack t)
        (deserializer-ReadBack ts)

  -- For every type whose `serialize` compiles, it appends the value's bytes in the wire format, and
  -- nothing else of the serializer changes.
  serializer-wire :
      (t : Ty) (w : El classes t → Serializer → Serializer) (a : El classes t) (s : Serializer)
      → serializer classes t ≡ some w
      → w a s ≡ append (wire classes t a) s
  serializer-wire t w a s e = subst (Written (wire classes t)) e (serializer-Written t) a s

  reads_wire :
      (t : Ty) (r : Serializer → Outcome (El classes t × Serializer))
      → deserializer classes t ≡ some r
      → Reads r (Fits classes t) (wire classes t)
  reads_wire t r e = subst (ReadBack (Fits classes t) (wire classes t)) e (deserializer-ReadBack t)

  -- For every type for which both calls compile, of numbers, texts, the four containers, tuples and
  -- classes, nested in any way: what `serialize` appends to a buffer, `deserialize` reads back with
  -- the read position there, whatever stands before it and behind it, and the position is then right
  -- behind it. The value's sizes and numbers must fit their widths, and what stands before it and the
  -- value's bytes must be less than 2 GiB, which an int can count.
  pub deserializer-serializer :
      (t : Ty) (w : El classes t → Serializer → Serializer)
      (r : Serializer → Outcome (El classes t × Serializer)) (a : El classes t) (front rest : Bytes)
      → serializer classes t ≡ some w
      → deserializer classes t ≡ some r
      → Fits classes t a
      → length (w a (of_bytes front)).buffer < 2 ^ 31
      → r (record {
        buffer = (w a (of_bytes front)).buffer ++ rest;
        deserialize_pos = length front;
      })
        ≡ ok (
          a,
          record {
            buffer = (w a (of_bytes front)).buffer ++ rest;
            deserialize_pos = length (w a (of_bytes front)).buffer;
          },
        )
  unfolding append
  deserializer-serializer t w r a front rest e f fits few =
      let bytes = wire classes t a in
      let written = serializer-wire t w a (of_bytes front) e in
      let small : length front + length bytes < 2 ^ 31 =
        omega (arith, (rw written at few), length-append front bytes) in
      rw (written, append_assoc front bytes rest, length-append front bytes)
        (reads_wire t r f a front rest fits small)
