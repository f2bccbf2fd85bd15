-- ===== src/Pool/Buffers.antt =====
-- The window of a buffer: what each operation of IOBuf does to the bytes that are not processed yet.
use luce.Prelude.{
  ℕ, zero, suc, ◌⊎◌, inl, inr, Bool-cases, ◌+◌, ◌-◌, ◌%◌, ◌^◌, ◌≤◌, ◌<◌, ◌≡◌, refl, sym, ap, ◌∙◌,
  true, false, [], ◌∷◌, ltb, ltb→lt, ◌==◌, if◌then◌else◌, drop, Bytes, ok, undefined, arith,
}
use luce.Pool.{IoBuf, moved_down, adjust, copy, pop}

abbrev pub range : ℕ → ℕ → (ℕ → ℕ) → Bytes
range from zero data_ = []
range from (suc n) data_ = data_ from ∷ range (suc from) n data_

-- the unprocessed bytes
abbrev pub contents : IoBuf → Bytes
contents b = range b.head b.valid_length b.data_

range-ext :
    (n from from' : ℕ) (f g : ℕ → ℕ)
    → ((i : ℕ) → i < n → f (from + i) ≡ g (from' + i))
    → range from n f ≡ range from' n g
range-ext zero from from' f g h = refl
range-ext (suc n) from from' f g h =
    let at : (k : ℕ) → k + 0 ≡ k = λ k. omega arith in
    let next : (k j : ℕ) → k + suc j ≡ suc k + j = λ k j. omega arith in
    let first : f from ≡ g from' = sym (ap f (at from)) ∙ h 0 (omega arith) ∙ ap g (at from') in
    let rest =
      range-ext n (suc from) (suc from') f g
        (λ j b. sym (ap f (next from j)) ∙ h (suc j) (omega (arith, b)) ∙ ap g (next from' j)) in
    λ i. first i ∷ rest i

drop-range : (k n from : ℕ) (f : ℕ → ℕ) → drop k (range from n f) ≡ range (from + k) (n - k) f
drop-range zero n from f = λ i. range (stays i) (all i) f
  where
    stays : from ≡ from + 0
    stays = omega arith

    all : n ≡ n - 0
    all = omega arith
drop-range (suc k) zero from f = λ i. range (from + suc k) (nothing i) f
  where
    nothing : 0 ≡ 0 - suc k
    nothing = omega arith
drop-range (suc k) (suc n) from f = drop-range k n (suc from) f ∙ (λ i. range (start i) (left i) f)
  where
    start : suc from + k ≡ from + suc k
    start = omega arith

    left : n - k ≡ suc n - suc k
    left = omega arith

below : (i n : ℕ) (a b : ℕ) → i < n → (if ltb i n then a else b) ≡ a
below i n a b h = ground arith

-- the bytes that a move puts at the front
range-moved :
    (n head : ℕ) (f g : ℕ → ℕ)
    → range 0 n (λ i. if ltb i n then f (head + i) else g i) ≡ range head n f
range-moved n head f g =
    range-ext n 0 head (λ i. if ltb i n then f (head + i) else g i) f
      (λ i h.
        ap (λ k. if ltb k n then f (head + k) else g k) (plain i)
        ∙ below i n (f (head + i)) (g i) h)
  where
    plain : (i : ℕ) → 0 + i ≡ i
    plain i = omega arith

zero_of : (n : ℕ) → (n == 0) ≡ true → n ≡ 0
zero_of n h = ground arith

-- Adjust moves the unprocessed bytes to the buffer's front and keeps them, whatever the window is.
adjust-contents : (b : IoBuf) → ((adjust b).head ≡ 0) × (contents (adjust b) ≡ contents b)
unfolding adjust moved_down
adjust-contents b = elim (Bool-cases (b.head == 0)) [
  | inl e ↦ rw e (zero_of b.head e, refl)
  | inr e ↦ elim (Bool-cases (b.valid_length == 0)) [
    | inl z ↦ rw (e, z) (refl, no_bytes (zero_of b.valid_length z))
    | inr z ↦ rw (e, z) (refl, range-moved b.valid_length b.head b.data_ b.data_)
  ]
]
  where
    no_bytes :
        b.valid_length ≡ 0 → range 0 b.valid_length b.data_ ≡ range b.head b.valid_length b.data_
    no_bytes h = rw h refl

-- Copy is undefined if the other buffer's window is longer than the buffer or ends outside the other
-- one, neither of which it tests; otherwise the buffer's window is then at its front and holds the
-- other's unprocessed bytes.
pub copy-contents :
    (b other : IoBuf)
    → (((b.capacity < other.valid_length) ⊎ (other.capacity < other.head + other.valid_length))
        × (copy b other ≡ undefined))
      ⊎ ((other.valid_length ≤ b.capacity)
          × (other.head + other.valid_length ≤ other.capacity)
          × ((b' : IoBuf) × (copy b other ≡ ok b')
              × (b'.head ≡ 0)
              × (b'.valid_length ≡ other.valid_length)
              × (contents b' ≡ contents other)
              × (b'.capacity ≡ b.capacity)))
unfolding copy
copy-contents b other = elim (Bool-cases (ltb b.capacity other.valid_length)) [
  | inl e ↦ inl (inl (ltb→lt b.capacity other.valid_length e), rw e refl)
  | inr e ↦ elim (Bool-cases (ltb other.capacity (other.head + other.valid_length))) [
    | inl f ↦ inl (inr (ltb→lt other.capacity (other.head + other.valid_length) f), rw (e, f) refl)
    | inr f ↦ inr (
      not_below b.capacity other.valid_length e,
      not_below other.capacity (other.head + other.valid_length) f,
      (
        record b {
          head = 0;
          valid_length = other.valid_length;
          data_ = λ i. if ltb i other.valid_length then other.data_ (other.head + i) else b.data_ i;
        },
        rw (e, f) refl,
        refl,
        refl,
        range-moved other.valid_length other.head other.data_ b.data_,
        refl,
      ),
    )
  ]
]
  where
    not_below : (n m : ℕ) → ltb n m ≡ false → m ≤ n
    not_below n m e = ground arith

-- pop of no more than is there drops that many unprocessed bytes from the front.
pop-contents :
    (len : ℕ) (b : IoBuf)
    → len ≤ b.valid_length
    → b.head + b.valid_length < 2 ^ 64
    → contents (pop len b) ≡ drop len (contents b)
unfolding pop
pop-contents len b few small =
    sym (drop-range len b.valid_length b.head b.data_ ∙ (λ i. range (start i) (left i) b.data_))
  where
    start : b.head + len ≡ (b.head + len) % 2 ^ 64
    start = omega (arith, few, small)

    left : b.valid_length - len ≡ (b.valid_length + 2 ^ 64 - len) % 2 ^ 64
    left = omega (arith, few, small)
