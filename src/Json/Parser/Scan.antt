-- ===== src/Json/Parser/Scan.antt =====
-- Each kind of plain value is read back from the text that ToString makes of it.
use luce.Prelude.{
  ℕ, suc, ◌+◌, ◌-◌, ◌^◌, ◌<◌, ◌≡◌, refl, sym, ap, Bool, true, false, [], ◌∷◌, ◌++◌, ◌==◌,
  if◌then◌else◌, length, take, drop, Bytes, codes, same, find, some, ok, arith, take-append,
  drop-append, length-append, append_assoc, drop_add, subst, pos,
}
use luce.Decimal.{
  is_digit, number_loop, to_string, starts_in_digit, all_digits, to_string-all_digits,
  number-to_string,
}
use luce.StringUtil.Find.{lacks, find_append-lacks, find_append}
use luce.Json.{null, bool, int, str, quoted}
use luce.Json.Parser.{
  Parser, first_char, leading, parse_null, parse_bool, to_int, string_end, parse_string,
  parse_fraction, parse_number,
}
use luce.Json.Parser.Cursor.{at, ahead-at, move-at, char_at-at, compare_at-at, skip-at}

pub parse_null-at :
    (front rest : Bytes)
    → parse_null (at front (codes "null" ++ rest)) ≡ ok (null, at (front ++ codes "null") rest)
unfolding parse_null same
parse_null-at front rest =
    rw (compare_at-at (codes "null") front (codes "null" ++ rest))
      (ap (λ p. ok (null, p)) (move-at front (codes "null") rest 4 refl))

pub parse_bool-at :
    (b : Bool) (front rest : Bytes)
    → parse_bool (at front ((if b then codes "true" else codes "false") ++ rest))
      ≡ ok (bool b, at (front ++ (if b then codes "true" else codes "false")) rest)
unfolding parse_bool same
parse_bool-at true front rest =
    rw
      (
        compare_at-at (codes "true") front (codes "true" ++ rest),
        compare_at-at (codes "false") front (codes "true" ++ rest),
      )
      (ap (λ p. ok (bool true, p)) (move-at front (codes "true") rest 4 refl))
parse_bool-at false front rest =
    rw
      (
        compare_at-at (codes "true") front (codes "false" ++ rest),
        compare_at-at (codes "false") front (codes "false" ++ rest),
      )
      (ap (λ p. ok (bool false, p)) (move-at front (codes "false") rest 5 refl))

-- what may stand behind a number so that it ends there
abbrev pub EndsNumber : Bytes → Type 0
EndsNumber rest = (starts_in_digit rest ≡ false) × ((first_char rest == b'.') ≡ false)

leading-digits :
    (s rest : Bytes)
    → all_digits s ≡ true
    → starts_in_digit rest ≡ false
    → leading is_digit (s ++ rest) ≡ length s
unfolding leading
leading-digits [] [] d e = refl
leading-digits [] (c ∷ rest) d e = rw e refl
leading-digits (c ∷ s) rest d e = ground (arith, leading-digits s rest)

to_int-small : (n : ℕ) → n < 2 ^ 31 → to_int n ≡ pos n
unfolding to_int
to_int-small n h = ground arith

pub parse_number-at :
    (read_double : Bytes → ℕ) (n : ℕ) (front rest : Bytes)
    → n < 2 ^ 31
    → EndsNumber rest
    → parse_number read_double (at front (to_string n ++ rest))
      ≡ ok (int (pos n), at (front ++ to_string n) rest)
unfolding parse_number parse_fraction
parse_number-at read_double n front rest small (d, dot) =
    let (c, s, e, digits) = to_string-all_digits n in
    let size = leading-digits (c ∷ s) rest digits d in
    let first : is_digit c ≡ true = ground arith in
    let value : number_loop 0 ((c ∷ s) ++ rest) ≡ n =
      subst (λ t. number_loop 0 (t ++ rest) ≡ n) e (number-to_string n rest d) in
    rw
      (
        e,
        char_at-at front (c ∷ (s ++ rest)),
        skip-at is_digit front (c ∷ s) rest size,
        first,
        char_at-at (front ++ (c ∷ s)) rest,
        dot,
        ahead-at front (c ∷ (s ++ rest)),
        value,
        to_int-small n small,
      )
      refl

-- a string that ToString writes so that it can be read: no quote, and no backslash at its end
abbrev pub last_char : ℕ → Bytes → ℕ
last_char c [] = c
last_char c (x ∷ s) = last_char x s

abbrev pub IsPlain : Bytes → Type 0
IsPlain s = (lacks b'"' s ≡ true) × ((last_char b'"' s == 92) ≡ false)

first_char-drop :
    (c : ℕ) (s r : Bytes) → first_char (drop (length s) (c ∷ (s ++ r))) ≡ last_char c s
first_char-drop c [] r = refl
first_char-drop c (x ∷ s) r = first_char-drop x s r

module _ (s front rest : Bytes) where
  -- the text behind the opening quote, and the whole
  abbrev tail_text : Bytes
  tail_text = (s ++ b'"' ∷ []) ++ rest

  abbrev whole : Bytes
  whole = front ++ (b'"' ∷ tail_text)

  abbrev quote_index : ℕ
  quote_index = length (front ++ b'"' ∷ []) + length s

  tail_shape : tail_text ≡ s ++ (b'"' ∷ rest)
  tail_shape = append_assoc s (b'"' ∷ []) rest

  quote_found : lacks b'"' s ≡ true → find (b'"' ∷ []) tail_text ≡ some (length s)
  quote_found h = rw tail_shape (find_append (b'"' ∷ []) s rest (find_append-lacks b'"' [] s h))

  before_quote : first_char (drop (quote_index - 1) whole) ≡ last_char b'"' s
  before_quote =
      let here : quote_index - 1 ≡ length front + length s =
        omega (arith, length-append front (b'"' ∷ [])) in
      rw
        (
          here,
          drop_add (length front) (length s) whole,
          drop-append front (b'"' ∷ tail_text) (length front) refl,
          tail_shape,
        )
        (first_char-drop b'"' s (b'"' ∷ rest))

  behind :
      ◌≡◌ {A = Parser} record { str_ = whole; idx_ = suc quote_index } (at (front ++ quoted s) rest)
  behind =
      let count : suc quote_index ≡ length (front ++ quoted s) = omega (
        arith,
        length-append front (b'"' ∷ []),
        length-append front (quoted s),
        length-append s (b'"' ∷ []),
      ) in
      λ i. record { str_ = sym (append_assoc front (quoted s) rest) i; idx_ = count i }

  pub parse_string-at :
      IsPlain s
      → parse_string (at front (quoted s ++ rest)) ≡ ok (str s, at (front ++ quoted s) rest)
  unfolding parse_string string_end
  parse_string-at (plain, end) =
      let taken : take (quote_index - length (front ++ b'"' ∷ [])) tail_text ≡ s =
        rw tail_shape
          (take-append s (b'"' ∷ rest) (quote_index - length (front ++ b'"' ∷ [])) (omega arith)) in
      rw
        (
          parse_string,
          move-at front (b'"' ∷ []) tail_text 1 refl,
          ahead-at (front ++ b'"' ∷ []) tail_text,
          quote_found plain,
          move-at front (b'"' ∷ []) tail_text 1 refl,
          string_end,
          before_quote,
          end,
          ahead-at (front ++ b'"' ∷ []) tail_text,
          taken,
        )
        (ap (λ p. ok (str s, p)) behind)
