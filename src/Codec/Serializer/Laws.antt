-- ===== src/Codec/Serializer/Laws.antt =====
-- The law that makes a type's two functions a round trip, and that it holds of each kind of value.
use luce.Prelude.{
  ℕ, zero, suc, ◌+◌, ◌/◌, ◌%◌, ◌^◌, ◌<◌, ◌≡◌, refl, true, ltb, sym, ap, ◌∙◌, [], ◌++◌, length,
  Bytes, Outcome, ok, ◌>>=◌, arith, take-append, drop-append, length-append, append_assoc,
  append-nil,
}
use luce.Codec.Serializer.{
  Serializer, append, memory, number, take_bytes, deserialize_number, Serial,
}
use native.Mathlib.Nat.{pow-suc}

-- a serializer with some bytes read, these ones next, and others behind
abbrev pub reading : Bytes → Bytes → Bytes → Serializer
reading front next rest = record {
  buffer = front ++ (next ++ rest);
  deserialize_pos = length front;
}

abbrev pub past : Bytes → Bytes → Bytes → Serializer
past front next rest = record {
  buffer = front ++ (next ++ rest);
  deserialize_pos = length front + length next;
}

-- `serialize` appends the bytes.
abbrev pub Writes : {A : Type 0} → (A → Serializer → Serializer) → (A → Bytes) → Type 0
Writes {A} serialize bytes = (a : A) (s : Serializer) → serialize a s ≡ append (bytes a) s

-- bytes that a read position can reach the end of: an int counts no more
abbrev pub Addressable : Bytes → Bytes → Type 0
Addressable front next = length front + length next < 2 ^ 31

-- `deserialize` reads the bytes back, wherever they stand below 2 GiB, and stops right behind them.
abbrev pub Reads :
    {A : Type 0} → (Serializer → Outcome (A × Serializer)) → (A → Type 0) → (A → Bytes) → Type 0
Reads {A} deserialize Fits bytes =
    (a : A) (front rest : Bytes)
    → Fits a
    → Addressable front (bytes a)
    → deserialize (reading front (bytes a) rest) ≡ ok (a, past front (bytes a) rest)

pub record RoundTrips {A : Type 0} (c : Serial A) : Type 0 where
  pub writes : Writes c.serialize c.bytes
  pub reads : Reads c.deserialize c.Fits c.bytes

pub length-memory : (width n : ℕ) → length (memory width n) ≡ width
unfolding memory
length-memory zero n = refl
length-memory (suc width) n = ap suc (length-memory width (n / 256))

pub number-memory : (width n : ℕ) → n < 256 ^ width → number (memory width n) ≡ n
unfolding memory number
number-memory zero n h = omega arith
number-memory (suc width) n h =
    let small : n / 256 < 256 ^ width = omega (arith, pow-suc 256 width) in
    omega (arith, number-memory width (n / 256) small)

pub take_bytes-reading :
    (front next rest : Bytes)
    → Addressable front next
    → take_bytes (length next) (reading front next rest) ≡ ok (next, past front next rest)
unfolding take_bytes
take_bytes-reading front next rest small =
    let whole = length-append front (next ++ rest) in
    let part = length-append next rest in
    let kept : (length front + length next) % 2 ^ 32 ≡ length front + length next =
      omega (arith, small) in
    let start : ltb (length front) (2 ^ 31) ≡ true = ground (arith, small) in
    rw
      (
        kept,
        start,
        drop-append front (next ++ rest) (length front) refl,
        take-append next rest (length next) refl,
      )
      (ground (arith, whole, part))

take_bytes-size :
    (n : ℕ) (front next rest : Bytes)
    → n ≡ length next
    → Addressable front next
    → take_bytes n (reading front next rest) ≡ ok (next, past front next rest)
take_bytes-size n front next rest e small = rw e (take_bytes-reading front next rest small)

-- moving on: what was read joins the front, and two parts can be read one after the other
module _ (front a b rest : Bytes) where
  reading-append : reading front (a ++ b) rest ≡ reading front a (b ++ rest)
  reading-append =
      λ i. record { buffer = front ++ append_assoc a b rest i; deserialize_pos = length front }

  pub past-reading : past front a (b ++ rest) ≡ reading (front ++ a) b rest
  past-reading = λ i. record {
    buffer = sym (append_assoc front a (b ++ rest)) i;
    deserialize_pos = sym (length-append front a) i;
  }

  past-append : past (front ++ a) b rest ≡ past front (a ++ b) rest
  past-append =
      let buffers : (front ++ a) ++ (b ++ rest) ≡ front ++ ((a ++ b) ++ rest) = simp append_assoc in
      let ends : length (front ++ a) + length b ≡ length front + length (a ++ b) =
        omega (arith, length-append front a, length-append a b) in
      λ i. record { buffer = buffers i; deserialize_pos = ends i }

pub append-append : (a b : Bytes) (s : Serializer) → append b (append a s) ≡ append (a ++ b) s
unfolding append
append-append a b s =
    λ i. record { buffer = append_assoc s.buffer a b i; deserialize_pos = s.deserialize_pos }

pub append-no_bytes : (s : Serializer) → s ≡ append [] s
unfolding append
append-no_bytes s =
    λ i. record { buffer = sym (append-nil s.buffer) i; deserialize_pos = s.deserialize_pos }

-- nothing to read
pub reading-past : (front rest : Bytes) → reading front [] rest ≡ past front [] rest
reading-past front rest =
    let stays : length front ≡ length front + 0 = omega arith in
    λ i. record { buffer = front ++ rest; deserialize_pos = stays i }

pub deserialize_number-reading :
    (width n : ℕ) (front rest : Bytes)
    → n < 256 ^ width
    → Addressable front (memory width n)
    → deserialize_number width (reading front (memory width n) rest)
      ≡ ok (n, past front (memory width n) rest)
unfolding deserialize_number
deserialize_number-reading width n front rest h small = rw (
  take_bytes-size width front (memory width n) rest (sym (length-memory width n)) small,
  number-memory width n h,
)

-- The two parts of what can be addressed can be.
pub Addressable-first : (front p q : Bytes) → Addressable front (p ++ q) → Addressable front p
Addressable-first front p q h = omega (arith, h, length-append p q)

pub Addressable-second :
    (front p q : Bytes) → Addressable front (p ++ q) → Addressable (front ++ p) q
Addressable-second front p q h = omega (arith, h, length-append p q, length-append front p)

-- Two readers in a row read two runs of bytes in a row.
pub read_then {ℓ} :
    {A : Type ℓ} {B : Type ℓ} (first : Serializer → Outcome (A × Serializer))
    (next : A → Serializer → Outcome (B × Serializer)) (front p q rest : Bytes) (a : A) (b : B)
    → first (reading front p (q ++ rest)) ≡ ok (a, past front p (q ++ rest))
    → next a (reading (front ++ p) q rest) ≡ ok (b, past (front ++ p) q rest)
    → (first (reading front (p ++ q) rest) >>= λ (x, s'). next x s')
      ≡ ok (b, past front (p ++ q) rest)
read_then {B} first next front p q rest a b e f =
    ap (λ s. first s >>= λ (x, s'). next x s') (reading-append front p q rest)
    ∙ ap {B = Outcome (B × Serializer)} (λ r. r >>= λ (x, s'). next x s') e
    ∙ ap (next a) (past-reading front p q rest)
    ∙ f
    ∙ ap (λ s. ok (b, s)) (past-append front p q rest)
