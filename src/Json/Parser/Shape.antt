-- ===== src/Json/Parser/Shape.antt =====
-- What the text of a value looks like: how it starts and ends, and how much fuel its reading takes.
use luce.Prelude.{
  ℕ, ◌+◌, ◌*◌, ◌^◌, ◌≤◌, ◌<◌, ◌≡◌, refl, ap, ◌∙◌, true, false, [], ◌∷◌, ◌++◌, ◌==◌, length, Bytes,
  codes, arith, length-append, pos, negsuc,
}
use luce.Decimal.{is_digit, all_digits, to_string, to_string-all_digits}
use luce.Json.{
  JObject, Items, Members, null, bool, int, double, str, list, dict, no_items, item, no_members,
  member, quoted, int_to_string, object_to_string, items_to_string, more_to_string,
  members_to_string, more_members_to_string,
}
use luce.Json.Parser.{is_space}
use luce.Json.Parser.Cursor.{IsToken}
use luce.Json.Parser.Scan.{IsPlain}
use luce.Json.Parser.Order.{Ascends}

-- The values that ToString writes as they are read: no double, no negative number, plain strings and
-- keys, and the keys of an object in the order that std::map keeps.
abbrev mutual
  pub IsWritable : JObject → Type 0
  IsWritable null = Unit
  IsWritable (bool b) = Unit
  IsWritable (int (pos n)) = n < 2 ^ 31
  IsWritable (int (negsuc n)) = ⊥
  IsWritable (double d) = ⊥
  IsWritable (str s) = IsPlain s
  IsWritable (list xs) = AreWritable xs
  IsWritable (dict m) = Ascends m × MembersAreWritable m

  pub AreWritable : Items → Type 0
  AreWritable no_items = Unit
  AreWritable (item x xs) = IsWritable x × AreWritable xs

  pub MembersAreWritable : Members → Type 0
  MembersAreWritable no_members = Unit
  MembersAreWritable (member k v m) = IsPlain k × IsWritable v × MembersAreWritable m

abbrev mutual
  pub cost : JObject → ℕ
  cost null = 1
  cost (bool b) = 1
  cost (int n) = 1
  cost (double d) = 1
  cost (str s) = 1
  cost (list xs) = 2 + cost_items xs
  cost (dict m) = 2 + cost_members m

  pub cost_items : Items → ℕ
  cost_items no_items = 0
  cost_items (item x xs) = 1 + (cost x + cost_items xs)

  pub cost_members : Members → ℕ
  cost_members no_members = 0
  cost_members (member k v m) = 2 + (cost v + cost_members m)

-- a text starts with a token that closes nothing
abbrev pub Starts : Bytes → Type 0
Starts t =
    (c : ℕ) × (s : Bytes) × (t ≡ c ∷ s) × IsToken c × ((c == b']') ≡ false) × ((c == b'}') ≡ false)

pub digit-IsToken :
    (c : ℕ) → is_digit c ≡ true → IsToken c × ((c == b']') ≡ false) × ((c == b'}') ≡ false)
unfolding is_digit is_space
digit-IsToken c h = ground arith

-- a text ends in a byte that is no space
abbrev pub EndsPlain : Bytes → Type 0
EndsPlain t = (a : Bytes) × (c : ℕ) × (t ≡ a ++ c ∷ []) × (is_space c ≡ false)

pub digits-EndsPlain : (c : ℕ) (s : Bytes) → all_digits (c ∷ s) ≡ true → EndsPlain (c ∷ s)
unfolding is_digit is_space
digits-EndsPlain c [] h = ([], c, refl, ground arith)
digits-EndsPlain c (d ∷ s) h =
    let (a, e, p, q) = digits-EndsPlain d s (ground arith) in (c ∷ a, e, ap (◌∷◌ c) p, q)

module _ (print_double : ℕ → Bytes) where
  pub text-Starts : (v : JObject) → IsWritable v → Starts (object_to_string print_double v)
  unfolding object_to_string int_to_string is_space
  text-Starts null w = (_, _, refl, (refl, refl), refl, refl)
  text-Starts (bool true) w = (_, _, refl, (refl, refl), refl, refl)
  text-Starts (bool false) w = (_, _, refl, (refl, refl), refl, refl)
  text-Starts (int (pos n)) w =
      let (c, s, e, d) = to_string-all_digits n in
      let (t, x, y) = digit-IsToken c (ground arith) in (c, s, e, t, x, y)
  text-Starts (int (negsuc n)) w = absurd w
  text-Starts (double d) w = absurd w
  text-Starts (str s) w = (_, _, refl, (refl, refl), refl, refl)
  text-Starts (list xs) w = (_, _, refl, (refl, refl), refl, refl)
  text-Starts (dict m) w = (_, _, refl, (refl, refl), refl, refl)

  pub text-EndsPlain : (v : JObject) → IsWritable v → EndsPlain (object_to_string print_double v)
  unfolding object_to_string int_to_string is_space
  text-EndsPlain null w = (codes "nul", b'l', refl, refl)
  text-EndsPlain (bool true) w = (codes "tru", b'e', refl, refl)
  text-EndsPlain (bool false) w = (codes "fals", b'e', refl, refl)
  text-EndsPlain (int (pos n)) w =
      let (c, s, e, d) = to_string-all_digits n in
      let (a, x, p, q) = digits-EndsPlain c s d in (a, x, e ∙ p, q)
  text-EndsPlain (int (negsuc n)) w = absurd w
  text-EndsPlain (double d) w = absurd w
  text-EndsPlain (str s) w = (b'"' ∷ s, b'"', refl, refl)
  text-EndsPlain (list xs) w = (b'[' ∷ items_to_string print_double xs, b']', refl, refl)
  text-EndsPlain (dict m) w = (b'{' ∷ members_to_string print_double m, b'}', refl, refl)

  abbrev text : JObject → Bytes
  text = object_to_string print_double

  digits-length : (n : ℕ) → 1 ≤ 2 * length (to_string n)
  digits-length n = let (c, s, e, d) = to_string-all_digits n in rw e (omega arith)

  member-length :
      (k a b : Bytes)
      → length (quoted k ++ (b':' ∷ (a ++ b))) ≡ 3 + length k + (length a + length b)
  member-length k a b = omega (
    arith,
    length-append (quoted k) (b':' ∷ (a ++ b)),
    length-append k (b'"' ∷ []),
    length-append a b,
  )

  -- the fuel is below twice the text's length
  mutual
    unfolding object_to_string int_to_string

    pub cost-le :
        (v : JObject) → IsWritable v → cost v ≤ 2 * length (object_to_string print_double v)
    cost-le null w = omega arith
    cost-le (bool true) w = omega arith
    cost-le (bool false) w = omega arith
    cost-le (int (pos n)) w = digits-length n
    cost-le (int (negsuc n)) w = absurd w
    cost-le (double d) w = absurd w
    cost-le (str s) w = omega (arith, length-append s (b'"' ∷ []))
    cost-le (list no_items) w = omega arith
    cost-le (list (item x xs)) w = omega (
      arith,
      cost-le x w.0,
      cost_items-le xs w.1,
      length-append (object_to_string print_double x) (more_to_string print_double xs),
      length-append (object_to_string print_double x ++ more_to_string print_double xs) (b']' ∷ []),
    )
    cost-le (dict no_members) w = omega arith
    cost-le (dict (member k v m)) w = omega (
      arith,
      cost-le v (w.1).1,
      cost_members-le m (w.1).2,
      member-length k (text v) (more_members_to_string print_double m),
      length-append (members_to_string print_double (member k v m)) (b'}' ∷ []),
    )

    cost_items-le :
        (xs : Items) → AreWritable xs → cost_items xs ≤ 2 * length (more_to_string print_double xs)
    cost_items-le no_items w = omega arith
    cost_items-le (item x xs) w = omega (
      arith,
      cost-le x w.0,
      cost_items-le xs w.1,
      length-append (object_to_string print_double x) (more_to_string print_double xs),
    )

    cost_members-le :
        (m : Members)
        → MembersAreWritable m
        → cost_members m ≤ 2 * length (more_members_to_string print_double m)
    cost_members-le no_members w = omega arith
    cost_members-le (member k v m) w = omega (
      arith,
      cost-le v w.1,
      cost_members-le m w.2,
      member-length k (text v) (more_members_to_string print_double m),
    )
