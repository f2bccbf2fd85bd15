-- ===== src/Json/Parser/Document.antt =====
-- FromString on a whole text that ToString wrote.
use luce.Prelude.{
  ℕ, zero, suc, ◌+◌, ◌*◌, ◌≤◌, ◌≡◌, refl, sym, ap, false, [], ◌∷◌, ◌++◌, length, Bytes, arith,
  length-append, append-nil, negsuc, ok, throws,
}
use luce.Decimal.{is_digit, to_string-all_digits}
use luce.Json.{JObject, int, int_to_string, object_to_string}
use luce.Json.Parser.{leading, is_space, parse_number, parse, trim_right, from_string}
use luce.Json.Parser.Cursor.{at, get_next_token-at, char_at-at, skip-at}
use luce.Json.Parser.Shape.{IsWritable, cost, EndsPlain, text-EndsPlain, digits-EndsPlain, cost-le}
use luce.Json.Parser.RoundTrip.{parse-at}

trim_right-cons : (x d : ℕ) (r s : Bytes) → trim_right s ≡ d ∷ r → trim_right (x ∷ s) ≡ x ∷ (d ∷ r)
unfolding trim_right
trim_right-cons x d r s e = rw (trim_right, e) refl

trim_right-append :
    (a : Bytes) (c : ℕ) → is_space c ≡ false → trim_right (a ++ c ∷ []) ≡ a ++ c ∷ []
unfolding trim_right
trim_right-append [] c h = rw h refl
trim_right-append (x ∷ []) c h = trim_right-cons x c [] (c ∷ []) (trim_right-append [] c h)
trim_right-append (x ∷ (y ∷ a)) c h =
    trim_right-cons x y (a ++ c ∷ []) (y ∷ (a ++ c ∷ [])) (trim_right-append (y ∷ a) c h)

pub trim_right-EndsPlain : (t : Bytes) → EndsPlain t → trim_right t ≡ t
trim_right-EndsPlain t (a, c, e, h) = rw e (trim_right-append a c h)

module _ (read_double : Bytes → ℕ) (print_double : ℕ → Bytes) where
  -- A value with no double and no negative number, whose strings and keys have no quote and no
  -- backslash at their end and whose keys ascend as in a std::map, is read back from the text that
  -- ToString writes of it.
  pub from_string-object_to_string :
      (v : JObject)
      → IsWritable v
      → from_string read_double (object_to_string print_double v) ≡ ok v
  unfolding from_string
  from_string-object_to_string v w =
      let text = object_to_string print_double v in
      let fuel : ℕ = 2 * length (text ++ []) + 2 in
      let enough : cost v ≤ fuel = omega (arith, cost-le print_double v w, length-append text []) in
      let read = parse-at read_double print_double fuel v [] [] enough w (refl, refl) in
      rw (trim_right-EndsPlain text (text-EndsPlain print_double v w), sym (append-nil text), read)
        refl

  minus : (fuel : ℕ) (s : Bytes) → 1 ≤ fuel → parse read_double fuel (at [] (b'-' ∷ s)) ≡ throws
  unfolding parse parse_number is_space is_digit leading
  minus zero s h = absurd (omega arith)
  minus (suc fuel) s h =
      rw
        (
          get_next_token-at [] b'-' s (refl, refl),
          char_at-at [] (b'-' ∷ s),
          skip-at is_digit [] [] (b'-' ∷ s) refl,
        )
        refl

  -- The text that ToString writes of a negative number is refused with std::logic_error.
  from_string-negative :
      (n : ℕ) → from_string read_double (object_to_string print_double (int (negsuc n))) ≡ throws
  unfolding from_string object_to_string int_to_string
  from_string-negative n =
      let (c, s, e, d) = to_string-all_digits (suc n) in
      let (a, x, p, plain) = digits-EndsPlain c s d in
      let trim = trim_right-EndsPlain (b'-' ∷ (c ∷ s)) (b'-' ∷ a, x, ap (◌∷◌ b'-') p, plain) in
      rw (e, trim) (rw (minus (2 * length (b'-' ∷ (c ∷ s)) + 2) (c ∷ s) (omega arith)) refl)
