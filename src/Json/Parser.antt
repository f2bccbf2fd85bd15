-- ===== src/Json/Parser.antt =====
-- luce/common/json/Parser.{h,cpp}: the recursive descent over a text with an index. str_[i] is the
-- terminating zero at the text's end and undefined behind it; compare behind it is an out_of_range.
-- strtof64 of the C library is the argument `read_double`. The bytes of str_ are those of a text in the
-- C locale, where none above 127 is a space or a digit.
pub mod Cursor
pub mod Scan
pub mod Order
pub mod Shape
pub mod Tokens
pub mod RoundTrip
pub mod Document
pub mod Comments
use mathlib.Core.List.{reverse}
use luce.Prelude.{
  ℕ, zero, suc, ◌+◌, ◌-◌, ◌*◌, ◌%◌, ◌^◌, Bool, true, false, not, ◌&&◌, ◌||◌, Option, none, some,
  List, [], ◌∷◌, ◌++◌, ltb, leb, ◌==◌, if◌then◌else◌, length, get_elem?, take, drop, Bytes, codes,
  same, find, Outcome, ok, throws, undefined, out_of_fuel, ◌>>=◌, ℤ, pos, negsuc,
}
use luce.Decimal.{is_digit, number_loop}
use luce.Json.{
  JObject, Items, Members, null, bool, int, double, str, list, dict, no_items, item, no_members,
  member, value_str, append_item, put_member,
}

pub record Parser : Type 0 where
  pub str_ : Bytes
  pub idx_ : ℕ

unfoldable pub is_space : ℕ → Bool
is_space c = c == 32 || (leb 9 c && leb c 13)

-- the text from the index on
unfoldable pub ahead : Parser → Bytes
ahead p = drop p.idx_ p.str_

-- idx_ += n
unfoldable pub move : ℕ → Parser → Parser
move n p = record p { idx_ = p.idx_ + n }

abbrev pub first_char : Bytes → ℕ
first_char [] = 0
first_char (c ∷ s) = c

-- str_[idx_]
unfoldable pub char_at : Parser → Outcome ℕ
char_at p = if ltb (length p.str_) p.idx_ then undefined else ok (first_char (ahead p))

-- str_.compare(idx_, n, literal) == 0
unfoldable pub compare_at : Bytes → Parser → Outcome Bool
compare_at literal p =
    if ltb (length p.str_) p.idx_
    then throws
    else ok (same (take (length literal) (ahead p)) literal)

-- how many bytes at the front pass the test, which the terminating zero does not
unfoldable pub leading : (ℕ → Bool) → Bytes → ℕ
leading test [] = 0
leading test (c ∷ s) = let n = leading test s in if test c then suc n else 0

-- while (test(str_[idx_])) ++idx_
unfoldable pub skip : (ℕ → Bool) → Parser → Outcome Parser
skip test p = if ltb (length p.str_) p.idx_ then undefined else ok (move (leading test (ahead p)) p)

-- The loop of SkipComment, from a comment on. Where find gives npos, which is never str_.size(),
-- next_pos + 1 is 0, and the loop goes on from the text's front.
unfoldable pub comment_loop : ℕ → Parser → Outcome Parser
comment_loop zero p = out_of_fuel
comment_loop (suc fuel) p = do
  let behind : ℕ = elim (find (b'\n' ∷ []) (ahead p)) [ none ↦ 0 | some k ↦ p.idx_ + k + 1 ]
  p' ← skip is_space record p { idx_ = behind }
  more ← compare_at (codes "//") p'
  let again = comment_loop fuel p'
  if more then again else ok p'

unfoldable pub skip_comment : Parser → Outcome Parser
skip_comment p = do
  found ← compare_at (codes "//") p
  if found then comment_loop (suc (length p.str_)) p else ok p

unfoldable pub get_next_token : Parser → Outcome (ℕ × Parser)
get_next_token p = do
  p' ← skip is_space p
  let rest = skip_comment p'
  if leb (length p'.str_) p'.idx_
      then throws
      else (do p'' ← rest; token ← char_at p''; ok (token, p''))

unfoldable pub parse_null : Parser → Outcome (JObject × Parser)
parse_null p = do hit ← compare_at (codes "null") p; if hit then ok (null, move 4 p) else throws

unfoldable pub parse_bool : Parser → Outcome (JObject × Parser)
parse_bool p = do
  yes_ ← compare_at (codes "true") p
  no_ ← compare_at (codes "false") p
  if yes_ then ok (bool true, move 4 p) else if no_ then ok (bool false, move 5 p) else throws

-- static_cast<int>(strtol(...)): strtol stops at LONG_MAX, and the cast keeps the low 32 bits
unfoldable pub to_int : ℕ → ℤ
to_int n =
    let w = (if leb (2 ^ 63) n then 2 ^ 63 - 1 else n) % 2 ^ 32 in
    if ltb w (2 ^ 31) then pos w else negsuc (2 ^ 32 - w - 1)

-- IsEscConsume: whether the run of backslashes that ends at `pos` has an even length. A quote stands
-- in front of every run, so the index does not fall below 0.
unfoldable pub is_esc_consume : Bytes → ℕ → Bool
is_esc_consume str_ index = leading (λ c. c == 92) (reverse (take (suc index) str_)) % 2 == 0

-- the loop of ParseString: the index of the closing quote
unfoldable pub string_end : ℕ → Bytes → ℕ → Outcome ℕ
string_end zero str_ index = out_of_fuel
string_end (suc fuel) str_ index =
    let later : Outcome ℕ = elim (find (b'"' ∷ []) (drop (suc index) str_)) [
      | none ↦ throws
      | some k ↦ string_end fuel str_ (suc index + k)
    ] in
    if not (first_char (drop (index - 1) str_) == 92)
    then ok index
    else if is_esc_consume str_ (index - 1)
    then ok index
    else later

unfoldable pub parse_string : Parser → Outcome (JObject × Parser)
parse_string p =
    let pre = move 1 p in
    elim (find (b'"' ∷ []) (ahead pre)) [
      | none ↦ throws
      | some k ↦ do
        end_ ← string_end (suc (length p.str_)) p.str_ (pre.idx_ + k)
        ok (str (take (end_ - pre.idx_) (ahead pre)), record p { idx_ = suc end_ })
    ]

-- TrimRight
unfoldable pub trim_right : Bytes → Bytes
trim_right [] = []
trim_right (c ∷ s) = elim (trim_right s) [
  | [] ↦ if is_space c then [] else c ∷ []
  | d ∷ r ↦ c ∷ d ∷ r
]

module _ (read_double : Bytes → ℕ) where
  -- ParseNumber behind the digits of the integral part
  unfoldable pub parse_fraction : Bytes → Parser → Outcome (JObject × Parser)
  parse_fraction begin p = do
    c ← char_at p
    if not (c == b'.') then ok (int (to_int (number_loop 0 begin)), p) else (do
      d ← char_at (move 1 p)
      p' ← skip is_digit (move 1 p)
      if is_digit d then ok (double (read_double begin), p') else throws)

  unfoldable pub parse_number : Parser → Outcome (JObject × Parser)
  parse_number p = do
    c ← char_at p
    p' ← skip is_digit p
    if is_digit c then parse_fraction (ahead p) p' else throws

  -- Each call of Parse and each round of a loop costs a unit of fuel.
  unfoldable mutual
    pub parse : ℕ → Parser → Outcome (JObject × Parser)
    parse zero p = out_of_fuel
    parse (suc fuel) p = do
      (token, p') ← get_next_token p
      if token == b'n'
          then parse_null p'
          else if token == b't' || token == b'f'
          then parse_bool p'
          else if token == b'-' || is_digit token
          then parse_number p'
          else if token == b'"'
          then parse_string p'
          else if token == b'['
          then parse_list fuel p'
          else if token == b'{'
          then parse_dict fuel p'
          else throws

    parse_list : ℕ → Parser → Outcome (JObject × Parser)
    parse_list zero p = out_of_fuel
    parse_list (suc fuel) p = do
      (ch, p') ← get_next_token (move 1 p)
      if ch == b']' then ok (list no_items, move 1 p') else list_loop fuel no_items p'

    pub list_loop : ℕ → Items → Parser → Outcome (JObject × Parser)
    list_loop zero arr p = out_of_fuel
    list_loop (suc fuel) arr p = do
      (x, p') ← parse fuel p
      (ch, p'') ← get_next_token p'
      let arr' = append_item arr x
      if ch == b']'
          then ok (list arr', move 1 p'')
          else if not (ch == b',')
          then throws
          else list_loop fuel arr' (move 1 p'')

    parse_dict : ℕ → Parser → Outcome (JObject × Parser)
    parse_dict zero p = out_of_fuel
    parse_dict (suc fuel) p = do
      (ch, p') ← get_next_token (move 1 p)
      if ch == b'}' then ok (dict no_members, move 1 p') else dict_loop fuel no_members p'

    pub dict_loop : ℕ → Members → Parser → Outcome (JObject × Parser)
    dict_loop zero m p = out_of_fuel
    dict_loop (suc fuel) m p = do
      (k, p1) ← parse fuel p
      key ← value_str k
      (colon, p2) ← get_next_token p1
      if not (colon == b':') then throws else (do
        (v, p3) ← parse fuel (move 1 p2)
        (ch, p4) ← get_next_token p3
        let m' = put_member key v m
        if ch == b'}'
            then ok (dict m', move 1 p4)
            else if not (ch == b',')
            then throws
            else dict_loop fuel m' (move 1 p4))

  -- FromString, which leaves what stands behind the value unread
  unfoldable pub from_string : Bytes → Outcome JObject
  from_string content = do
    let str_ = trim_right content
    (v, _) ← parse (2 * length str_ + 2) record { str_ = str_; idx_ = 0 }
    ok v
