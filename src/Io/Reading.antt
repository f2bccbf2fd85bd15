-- ===== src/Io/Reading.antt =====
-- What the read loops of luce/io/io_awaiter.cpp promise, however the stream is cut into reads.
use luce.Prelude.{
  ℕ, some, append-nil, suc, ◌+◌, ◌-◌, ◌^◌, ◌≤◌, ◌<◌, ◌≡◌, refl, sym, ◌∙◌, Bool, true, List, [], ◌∷◌,
  ◌++◌, ltb, if◌then◌else◌, length, drop, replicate, Bytes, Outcome, ok, undefined, arith,
  length-append, take-append, drop-append, append_assoc, length-replicate, length-drop, drop_add,
  length-take,
}
use luce.Codec.Serializer.{memory}
use luce.Codec.Serializer.Laws.{length-memory, number-memory}
use luce.Io.{
  ReadResult, got, read_failed, again, resize, put_at, read_body, async_read_packet,
  client_read_packet, client_read_head, client_read_rest,
}

-- the reads give these bytes, in non-empty parts, some after a failure to be tried again
pub data Delivers : List ReadResult → Bytes → Type 0 where
  all_read : (rs : List ReadResult) → Delivers rs []
  retried : (rs : List ReadResult) (s : Bytes) → Delivers rs s → Delivers (read_failed again ∷ rs) s
  part :
      (c : ℕ) (d : Bytes) (rs : List ReadResult) (s : Bytes)
      → Delivers rs s
      → Delivers (got (c ∷ d) ∷ rs) ((c ∷ d) ++ s)

-- what was read so far, and space for the rest
put_at-front :
    (front d space : Bytes)
    → length d ≤ length space
    → put_at (length front) d (front ++ space) ≡ (front ++ d) ++ drop (length d) space
unfolding put_at
put_at-front front d space h =
    rw
      (
        take-append front space (length front) refl,
        drop_add (length front) (length d) (front ++ space),
        drop-append front space (length front) refl,
        append_assoc front d (drop (length d) space),
      )
      refl

if_within :
    (bound n : ℕ) {r : Outcome (Bool × ℕ × Bytes)}
    → n ≤ bound
    → (if ltb bound n then undefined else r) ≡ r
if_within bound n h = ground arith

length-resize : (n : ℕ) (buffer : Bytes) → length (resize n buffer) ≡ n
unfolding resize
length-resize n buffer = omega (
  arith,
  length-take n (buffer ++ replicate n 0),
  length-append buffer (replicate n 0),
  length-replicate {A = ℕ} n 0,
)

-- A body that comes in any parts is read whole, behind what was read before.
read_body-Delivers :
    (rs : List ReadResult) (s front space : Bytes)
    → Delivers rs s
    → length s ≡ length space
    → read_body rs (length s) (length front) (front ++ space)
      ≡ ok (true, length front + length s, front ++ s)
unfolding read_body
read_body-Delivers _ _ front [] (all_read rs) e = λ i. ok (true, stays i, front ++ [])
  where
    stays : length front ≡ length front + 0
    stays = omega arith
read_body-Delivers _ _ front (c ∷ space) (all_read rs) e = absurd (omega (arith, e))
read_body-Delivers _ _ front [] (retried rs [] h) e = λ i. ok (true, stays i, front ++ [])
  where
    stays : length front ≡ length front + 0
    stays = omega arith
read_body-Delivers _ _ front (x ∷ space) (retried rs [] h) e = absurd (omega (arith, e))
read_body-Delivers _ _ front space (retried rs (x ∷ s) h) e =
    read_body-Delivers rs (x ∷ s) front space h e
read_body-Delivers _ _ front space (part c d rs s h) e =
    let many = length-append d s in
    let left : suc (length (d ++ s)) - suc (length d) ≡ length s = omega (arith, many) in
    let count = sym (length-append front (c ∷ d)) in
    let fits : suc (length d) ≤ length space = omega (arith, many, e) in
    let stored = put_at-front front (c ∷ d) space fits in
    let space' = drop (suc (length d)) space in
    let enough : length s ≡ length space' =
      omega (arith, many, e, length-drop (suc (length d)) space) in
    let total : length (front ++ (c ∷ d)) + length s ≡ length front + suc (length (d ++ s)) =
      omega (arith, many, length-append front (c ∷ d)) in
    if_within (suc (length (d ++ s))) (suc (length d)) (omega (arith, many))
    ∙ (λ i. read_body rs (left i) (count i) (stored i))
    ∙ read_body-Delivers rs s (front ++ (c ∷ d)) space' h enough
    ∙ (λ i. ok (true, total i, append_assoc front (c ∷ d) s i))

client_read_head_done :
    (rs : List ReadResult) (head : Bytes) → client_read_head rs 4 head ≡ ok (some head, rs)
unfolding client_read_head
client_read_head_done [] head = refl
client_read_head_done (r ∷ rs) head = refl

client_read_head_first :
    (head : Bytes) (rs : List ReadResult)
    → length head ≡ 4
    → client_read_head (got head ∷ rs) 0 [] ≡ ok (some head, rs)
unfolding client_read_head
client_read_head_first head rs h = rw (h, append-nil head) (client_read_head_done rs head)

module _ (s buffer : Bytes) (rs : List ReadResult) where
  whole_body :
      Delivers rs s → read_body rs (length s) 0 (resize (length s) buffer) ≡ ok (true, length s, s)
  whole_body h =
      read_body-Delivers rs s [] (resize (length s) buffer) h
        (sym (length-resize (length s) buffer))
      ∙ (λ i. ok (true, first i, s))
    where
      first : 0 + length s ≡ length s
      first = omega arith

  -- AsyncReadPacket: if the first read gives the four bytes of the header and those after it give the
  -- bytes that it counts, in any parts and with any tries again, the packet is read whole, and the
  -- buffer holds exactly its bytes, whatever it held before.
  pub async_read_packet-Delivers :
      length s < 2 ^ 32
      → Delivers rs s
      → async_read_packet (got (memory 4 (length s)) ∷ rs) buffer ≡ ok (true, s)
  unfolding async_read_packet
  async_read_packet-Delivers bound h =
      rw
        (
          length-memory 4 (length s),
          number-memory 4 (length s) (omega (arith, bound)),
          whole_body h,
        )
        refl

  -- ReadPacket of the blocking client reads the same packet, and returns its size.
  pub client_read_packet-Delivers :
      length s < 2 ^ 32
      → Delivers rs s
      → client_read_packet (got (memory 4 (length s)) ∷ rs) buffer ≡ ok (length s, s)
  unfolding client_read_packet client_read_rest resize
  client_read_packet-Delivers bound h =
      rw
        (
          client_read_head_first (memory 4 (length s)) rs (length-memory 4 (length s)),
          length-memory 4 (length s),
          number-memory 4 (length s) (omega (arith, bound)),
          whole_body h,
          take-append s (replicate (length s) 0) (length s) refl,
        )
        refl
