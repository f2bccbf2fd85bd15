-- ===== src/Decimal.antt =====
-- Numbers in decimal: std::to_string and the output of an int, and isdigit and strtol, which read them.
use luce.Prelude.{
  ℕ, zero, suc, ◌+◌, ◌-◌, ◌*◌, ◌/◌, ◌%◌, ◌<◌, ◌≡◌, refl, sym, ◌∙◌, Bool, true, false, ◌&&◌, [], ◌∷◌,
  ◌++◌, ltb, leb, if◌then◌else◌, Bytes, arith, Bool-cases, inl, inr,
}

-- std::to_string: the digits of `n` in front of those already written, with fuel `n`
unfoldable pub digits_loop : ℕ → ℕ → Bytes → Bytes
digits_loop zero n out = out
digits_loop (suc fuel) n out =
    let longer = digits_loop fuel (n / 10) ((b'0' + n % 10) ∷ out) in
    if ltb n 10 then (b'0' + n) ∷ out else longer

unfoldable pub to_string : ℕ → Bytes
to_string n = digits_loop (suc n) n []

unfoldable pub is_digit : ℕ → Bool
is_digit c = leb b'0' c && leb c b'9'

-- the number that the digits at the front of a text spell, behind those already read
unfoldable pub number_loop : ℕ → Bytes → ℕ
number_loop n [] = n
number_loop n (c ∷ s) =
    let longer = number_loop (n * 10 + (c - b'0')) s in if is_digit c then longer else n

abbrev pub starts_in_digit : Bytes → Bool
starts_in_digit [] = false
starts_in_digit (c ∷ s) = is_digit c

-- What was written is read back, and the reading goes on with what stands behind.
number_loop-digits_loop :
    (fuel n : ℕ) (out : Bytes)
    → n < fuel
    → number_loop 0 (digits_loop fuel n out) ≡ number_loop n out
unfolding number_loop digits_loop is_digit
number_loop-digits_loop zero n out h = absurd (omega arith)
number_loop-digits_loop (suc fuel) n out h = elim (Bool-cases (ltb n 10)) [
  | inl last ↦ rw last (ground arith)
  | inr more ↦
      rw more (
        number_loop-digits_loop fuel (n / 10) ((b'0' + n % 10) ∷ out) (ground arith) ∙ ground arith)
]

number_loop-stops : (n : ℕ) (rest : Bytes) → starts_in_digit rest ≡ false → number_loop n rest ≡ n
unfolding number_loop
number_loop-stops n [] h = refl
number_loop-stops n (c ∷ rest) h = rw h refl

digits_loop-append :
    (fuel n : ℕ) (out rest : Bytes)
    → digits_loop fuel n (out ++ rest) ≡ digits_loop fuel n out ++ rest
unfolding digits_loop
digits_loop-append zero n out rest = refl
digits_loop-append (suc fuel) n out rest = elim (Bool-cases (ltb n 10)) [
  | inl last ↦ rw last refl
  | inr more ↦ rw more (digits_loop-append fuel (n / 10) ((b'0' + n % 10) ∷ out) rest)
]

pub number-to_string :
    (n : ℕ) (rest : Bytes) → starts_in_digit rest ≡ false → number_loop 0 (to_string n ++ rest) ≡ n
unfolding to_string
number-to_string n rest h =
    rw (sym (digits_loop-append (suc n) n [] rest))
      (number_loop-digits_loop (suc n) n rest (omega arith) ∙ number_loop-stops n rest h)

abbrev pub all_digits : Bytes → Bool
all_digits [] = true
all_digits (c ∷ s) = is_digit c && all_digits s

digits_loop-all_digits :
    (fuel n : ℕ) (out : Bytes)
    → all_digits out ≡ true
    → n < fuel
    → (c : ℕ) × (s : Bytes) × (digits_loop fuel n out ≡ c ∷ s) × (all_digits (c ∷ s) ≡ true)
unfolding digits_loop is_digit
digits_loop-all_digits zero n out h k = absurd (omega arith)
digits_loop-all_digits (suc fuel) n out h k = elim (Bool-cases (ltb n 10)) [
  | inl last ↦ (b'0' + n, out, rw last refl, ground arith)
  | inr more ↦
      let (c, s, e, d) =
        digits_loop-all_digits fuel (n / 10) ((b'0' + n % 10) ∷ out) (ground arith)
          (ground arith) in
      (c, s, rw more e, d)
]

-- a number is written as digits, and at least one
pub to_string-all_digits :
    (n : ℕ) → (c : ℕ) × (s : Bytes) × (to_string n ≡ c ∷ s) × (all_digits (c ∷ s) ≡ true)
unfolding to_string
to_string-all_digits n = digits_loop-all_digits (suc n) n [] refl (omega arith)
