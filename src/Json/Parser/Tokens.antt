-- ===== src/Json/Parser/Tokens.antt =====
-- The steps of the parser at the places in a text of ToString where it looks for a token.
use luce.Prelude.{
  ℕ, ◌≤◌, ◌≡◌, refl, ap, true, false, ◌||◌, [], ◌∷◌, ◌++◌, ◌==◌, Bytes, arith, append_assoc,
  Outcome, ok,
}
use luce.Decimal.{is_digit, to_string, to_string-all_digits}
use luce.Json.{
  JObject, Items, Members, null, bool, int, double, str, list, dict, member, quoted,
  object_to_string, more_to_string, members_to_string, more_members_to_string,
}
use luce.Json.Parser.{Parser, is_space, move, get_next_token}
use luce.Json.Parser.Cursor.{at, move-at, get_next_token-at}
use luce.Json.Parser.Shape.{IsWritable, cost, text-Starts, digit-IsToken}

digit-tests :
    (c : ℕ)
    → is_digit c ≡ true
    → ((c == b'-' || is_digit c) ≡ true)
      × ((c == b'n') ≡ false)
      × ((c == b't' || c == b'f') ≡ false)
unfolding is_digit
digit-tests c h = ground arith

pub same_end :
    (v : JObject) {a b : Bytes} (rest : Bytes)
    → a ≡ b
    → ◌≡◌ {A = Outcome (JObject × Parser)} (ok (v, at a rest)) (ok (v, at b rest))
same_end v rest e = ap (λ a. ok (v, at a rest)) e

pub cost-positive : (v : JObject) → 1 ≤ cost v
cost-positive null = omega arith
cost-positive (bool b) = omega arith
cost-positive (int n) = omega arith
cost-positive (double d) = omega arith
cost-positive (str s) = omega arith
cost-positive (list xs) = omega arith
cost-positive (dict m) = omega arith

pub first_digit :
    (n : ℕ) (front rest : Bytes)
    → (c : ℕ) × (get_next_token (at front (to_string n ++ rest))
        ≡ ok (c, at front (to_string n ++ rest)))
      × ((c == b'-' || is_digit c) ≡ true)
      × ((c == b'n') ≡ false)
      × ((c == b't' || c == b'f') ≡ false)
first_digit n front rest =
    let (c, s, e, digits) = to_string-all_digits n in
    let d : is_digit c ≡ true = ground arith in
    (
      c,
      rw e (get_next_token-at front c (s ++ rest) (digit-IsToken c d).0),
      (digit-tests c d).0,
      (digit-tests c d).1,
      (digit-tests c d).2,
    )

-- behind an item or a member: a comma or the closing bracket
pub next-at :
    (front : Bytes) (c : ℕ) (s : Bytes)
    → (c == b',' || c == b':' || c == b']' || c == b'}') ≡ true
    → get_next_token (at front (c ∷ s)) ≡ ok (c, at front (c ∷ s))
unfolding is_space
next-at front c s h = get_next_token-at front c s (ground arith)

pub step-at :
    (front : Bytes) (c : ℕ) (s : Bytes) → move 1 (at front (c ∷ s)) ≡ at (front ++ c ∷ []) s
step-at front c s = move-at front (c ∷ []) s 1 refl

module _ (print_double : ℕ → Bytes) where
  abbrev text : JObject → Bytes
  text = object_to_string print_double

  abbrev more : Items → Bytes
  more = more_to_string print_double

  abbrev more_members : Members → Bytes
  more_members = more_members_to_string print_double

  pub peek :
      (v : JObject) (front rest : Bytes)
      → IsWritable v
      → (c : ℕ) × (get_next_token (at front (text v ++ rest)) ≡ ok (c, at front (text v ++ rest)))
        × ((c == b']') ≡ false)
        × ((c == b'}') ≡ false)
  peek v front rest w =
      let (c, s, e, token, x, y) = text-Starts print_double v w in
      (c, rw e (get_next_token-at front c (s ++ rest) token), x, y)

  pub members_shape :
      (k : Bytes) (v : JObject) (m : Members) (rest : Bytes)
      → (members_to_string print_double (member k v m) ++ b'}' ∷ []) ++ rest
        ≡ quoted k ++ (b':' ∷ (text v ++ (more_members m ++ (b'}' ∷ rest))))
  unfolding members_to_string
  members_shape k v m rest = simp append_assoc

  pub more_members_shape :
      (k : Bytes) (v : JObject) (m : Members) (rest : Bytes)
      → more_members (member k v m) ++ (b'}' ∷ rest)
        ≡ b',' ∷ (quoted k ++ (b':' ∷ (text v ++ (more_members m ++ (b'}' ∷ rest)))))
  unfolding more_members_to_string
  more_members_shape k v m rest = simp append_assoc
