-- ===== src/Io/Writing.antt =====
-- What the write loops of luce/io/io_awaiter.cpp promise: what goes out is always a front of the buffer.
use luce.Prelude.{
  ℕ, zero, suc, ◌⊎◌, inl, inr, ◌+◌, ◌-◌, ◌%◌, ◌^◌, ◌≤◌, ◌<◌, ◌≡◌, refl, sym, ap, ◌∙◌, true, List,
  [], ◌∷◌, ◌++◌, ltb, if◌then◌else◌, length, take, drop, Bytes, Outcome, ok, undefined, bind-eq-ok,
  arith, take_all, drop_add, suc-add,
}
use luce.Codec.Serializer.{memory}
use luce.Codec.Serializer.Laws.{length-memory}
use luce.Io.{
  WriteResult, wrote, write_failed, again, other, write_loop, async_write, async_write_packet,
  write_packet,
}

take_add : (n m : ℕ) (xs : Bytes) → take n xs ++ take m (drop n xs) ≡ take (n + m) xs
take_add zero m xs = ap (λ k. take k xs) (omega arith)
take_add (suc n) m [] = rw (suc-add, take_all {A = ℕ} m [] empty) refl
  where
    empty : 0 ≤ m
    empty = omega arith
take_add (suc n) m (x ∷ xs) = rw (suc-add) (ap (◌∷◌ x) (take_add n m xs))

Sends : ℕ → ℕ → Bytes → ℕ × Bytes → Type 0
Sends t already buffer (left, sent) = (left ≤ t) × (sent ≡ take (t - left) (drop already buffer))

ok-inj : {a b : ℕ × Bytes} → ok a ≡ ok b → a ≡ b
ok-inj h = cc

nothing_sent :
    (t already : ℕ) (buffer : Bytes) {r : ℕ × Bytes} → ok (t, []) ≡ ok r → Sends t already buffer r
unfolding Sends
nothing_sent t already buffer h = rw (sym (ok-inj h)) (omega arith, rw none_left refl)
  where
    none_left : t - t ≡ 0
    none_left = omega arith

part_sent :
    (t n already : ℕ) (buffer : Bytes) (r : ℕ × Bytes) {r' : ℕ × Bytes}
    → n ≤ t
    → Sends (t - n) (already + n) buffer r
    → ok (r.0, take n (drop already buffer) ++ r.1) ≡ ok r'
    → Sends t already buffer r'
unfolding Sends
part_sent t n already buffer (left, sent) bound (few, e) h = rw (sym (ok-inj h)) (
  omega (arith, few),
  rw (e, drop_add already n buffer, take_add n (t - n - left) (drop already buffer))
      (ap (λ k. take k (drop already buffer)) same_count),
)
  where
    same_count : n + (t - n - left) ≡ t - left
    same_count = omega (arith, bound, few)

write_loop-Sends :
    (rs : List WriteResult) (t already : ℕ) (buffer : Bytes) {r : ℕ × Bytes}
    → write_loop rs t already buffer ≡ ok r
    → Sends t already buffer r
unfolding write_loop
write_loop-Sends rs zero already buffer h = nothing_sent 0 already buffer h
write_loop-Sends [] (suc t) already buffer h = cc
write_loop-Sends (write_failed again ∷ rs) (suc t) already buffer h =
    write_loop-Sends rs (suc t) already buffer h
write_loop-Sends (write_failed other ∷ rs) (suc t) already buffer h =
    nothing_sent (suc t) already buffer h
write_loop-Sends (wrote zero ∷ rs) (suc t) already buffer h = nothing_sent (suc t) already buffer h
write_loop-Sends (wrote (suc n) ∷ rs) (suc t) already buffer {r} h =
    let (bound, done) = within (suc t) (suc n) h in
    let (r0, e, e') = bind-eq-ok (write_loop rs (suc t - suc n) (already + suc n) buffer) _ done in
    part_sent (suc t) (suc n) already buffer r0 bound
      (write_loop-Sends rs (suc t - suc n) (already + suc n) buffer e) e'
  where
    within :
        (a b : ℕ) {o : Outcome (ℕ × Bytes)} {r : ℕ × Bytes}
        → (if ltb a b then undefined else o) ≡ ok r
        → (b ≤ a) × (o ≡ ok r)
    within a b h = ground arith

-- AsyncWrite: on every run that returns, whatever each write took, the count returned is at most the
-- buffer's size, and what went out is the buffer's first bytes in that number: none is skipped, sent
-- twice or out of order.
pub async_write-front :
    (rs : List WriteResult) (buffer : Bytes) (n : ℕ) (sent : Bytes)
    → async_write rs buffer ≡ ok (n, sent)
    → (n ≤ length buffer) × (sent ≡ take n buffer)
unfolding async_write Sends
async_write-front rs buffer n sent h =
    let (r, e, e') = bind-eq-ok (write_loop rs (length buffer) 0 buffer) _ h in
    let (few, all) = write_loop-Sends rs (length buffer) 0 buffer e in
    let counts : length buffer - r.0 ≡ n = cc in (omega (arith, counts), rw (sym counts) cc)

-- the writes take this many bytes, some after a failure to be tried again
pub data Takes : List WriteResult → ℕ → Type 0 where
  all_taken : (rs : List WriteResult) → Takes rs 0
  retried : (rs : List WriteResult) (n : ℕ) → Takes rs n → Takes (write_failed again ∷ rs) n
  part :
      (k : ℕ) (rs : List WriteResult) (n : ℕ) → Takes rs n → Takes (wrote (suc k) ∷ rs) (suc k + n)

write_loop-Takes :
    (rs : List WriteResult) (n already : ℕ) (buffer : Bytes)
    → Takes rs n
    → (sent : Bytes) × (write_loop rs n already buffer ≡ ok (0, sent))
unfolding write_loop
write_loop-Takes _ _ already buffer (all_taken rs) = ([], refl)
write_loop-Takes _ _ already buffer (retried rs zero h) = ([], refl)
write_loop-Takes _ _ already buffer (retried rs (suc n) h) =
    write_loop-Takes rs (suc n) already buffer h
write_loop-Takes _ _ already buffer (part k rs n h) =
    let (sent, e) = write_loop-Takes rs n (already + suc k) buffer h in
    let left : suc (k + n) - suc k ≡ n = omega arith in
    let fits : suc k ≤ suc (k + n) = omega arith in
    (
      take (suc k) (drop already buffer) ++ sent,
      rw (suc-add, left, e) (within (suc (k + n)) (suc k) fits),
    )
  where
    within : (a b : ℕ) {o : Outcome (ℕ × Bytes)} → b ≤ a → (if ltb a b then undefined else o) ≡ o
    within a b h = ground arith

-- AsyncWritePacket: if the header is taken whole and the writes behind it take as many bytes as the
-- buffer has, in any parts and with any tries again, it succeeds, and what went out is the header
-- with the buffer's size, low byte first, and then the buffer.
pub async_write_packet-Takes :
    (rs : List WriteResult) (buffer : Bytes)
    → length buffer < 2 ^ 32
    → Takes rs (length buffer)
    → async_write_packet (wrote 4 ∷ rs) buffer ≡ ok (true, memory 4 (length buffer) ++ buffer)
unfolding async_write_packet Sends
async_write_packet-Takes rs buffer bound h =
    let size : length buffer % 2 ^ 32 ≡ length buffer = omega (arith, bound) in
    let head = length-memory 4 (length buffer) in
    let (sent, e) = write_loop-Takes rs (length buffer) 0 buffer h in
    let (few, all) = write_loop-Sends rs (length buffer) 0 buffer e in
    let whole : sent ≡ buffer = all ∙ take_all (length buffer - 0) buffer (omega arith) in
    rw (size, e, whole, take_all 4 (memory 4 (length buffer)) (omega (arith, head))) refl

-- WritePacket sends the same packet when the kernel takes all of it, and returns the buffer's size.
pub write_packet-Takes :
    (rs : List WriteResult) (buffer : Bytes)
    → length buffer < 2 ^ 32
    → Takes rs (length buffer)
    → write_packet (wrote 4 ∷ rs) buffer ≡ ok (length buffer, memory 4 (length buffer) ++ buffer)
unfolding write_packet Sends
write_packet-Takes rs buffer bound h =
    let size : length buffer % 2 ^ 32 ≡ length buffer = omega (arith, bound) in
    let head = length-memory 4 (length buffer) in
    let (sent, e) = write_loop-Takes rs (length buffer) 0 buffer h in
    let (few, all) = write_loop-Sends rs (length buffer) 0 buffer e in
    let whole : sent ≡ buffer = all ∙ take_all (length buffer - 0) buffer (omega arith) in
    let none_left : length buffer - 0 ≡ length buffer = omega arith in
    rw (size, e, whole, none_left, take_all 4 (memory 4 (length buffer)) (omega (arith, head))) refl

by_parts :
    (n : ℕ) (sent : Bytes)
    → ◌≡◌ {A = ℕ × Bytes} (2 ^ 64 - 1, []) (n, sent)
    → (n ≡ 2 ^ 64 - 1) × (sent ≡ [])
by_parts n sent e = (sym (ap (λ (a, b). a) e), sym (ap (λ (a, b). b) e))

-- WritePacket of the client: on every run that returns, either nothing went out and it returns -1, or
-- what went out is a front of the header and then the first bytes of the buffer, in the number that it
-- returns.
pub write_packet-front :
    (rs : List WriteResult) (buffer : Bytes) (n : ℕ) (sent : Bytes)
    → write_packet rs buffer ≡ ok (n, sent)
    → ((n ≡ 2 ^ 64 - 1) × (sent ≡ []))
      ⊎ ((k : ℕ) × (n ≤ length buffer)
          × (sent ≡ take k (memory 4 (length buffer % 2 ^ 32)) ++ take n buffer))
unfolding write_packet Sends
write_packet-front [] buffer n sent h = cc
write_packet-front (write_failed x ∷ rs) buffer n sent h = inl (by_parts n sent (ok-inj h))
write_packet-front (wrote zero ∷ rs) buffer n sent h = inl (by_parts n sent (ok-inj h))
write_packet-front (wrote (suc j) ∷ rs) buffer n sent h =
    let (r, e, e') = bind-eq-ok (write_loop rs (length buffer) 0 buffer) _ h in
    let (few, all) = write_loop-Sends rs (length buffer) 0 buffer e in
    let pair = ok-inj e' in
    let count : length buffer - r.0 ≡ n = ap (λ (a, b). a) pair in
    let went = ap (λ (a, b). b) pair in
    inr (
      suc j,
      omega (arith, count),
      sym went
          ∙ (λ i. take (suc j) (memory 4 (length buffer % 2 ^ 32)) ++ all i)
          ∙ (λ i. take (suc j) (memory 4 (length buffer % 2 ^ 32)) ++ take (count i) buffer),
    )
