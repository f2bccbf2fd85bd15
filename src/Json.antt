-- ===== src/Json.antt =====
-- luce/common/json/JObject.{h,cpp}: a JSON value. The type tag and the variant agree after every
-- operation, so a value is one data type. A double is its bit pattern; what operator<< makes of one is
-- the argument `print_double`. std::map is the list of its entries in the order of the keys.
pub mod Parser
pub mod Dict
pub mod Convert
pub mod Tagged
use luce.Prelude.{
  ℕ, zero, suc, ◌+◌, ◌*◌, ◌^◌, Bool, true, false, ◌&&◌, Option, none, some, List, [], ◌∷◌, ◌++◌,
  ltb, ◌==◌, if◌then◌else◌, Bytes, codes, same, Outcome, ok, throws, undefined, ◌>>=◌, ℤ, pos,
  negsuc,
}
use luce.Decimal.{to_string}

mutual
  pub data JObject : Type 0 where
    null : JObject
    bool : Bool → JObject
    int : ℤ → JObject
    double : ℕ → JObject
    str : Bytes → JObject
    list : Items → JObject
    dict : Members → JObject

  pub data Items : Type 0 where
    no_items : Items
    item : JObject → Items → Items

  pub data Members : Type 0 where
    no_members : Members
    member : Bytes → JObject → Members → Members

-- Value<V>(): the value of the type asked for, or std::logic_error
unfoldable pub value_str : JObject → Outcome Bytes
value_str (str s) = ok s
value_str _ = throws

unfoldable pub value_int : JObject → Outcome ℤ
value_int (int n) = ok n
value_int _ = throws

unfoldable pub value_bool : JObject → Outcome Bool
value_bool (bool b) = ok b
value_bool _ = throws

unfoldable pub value_double : JObject → Outcome ℕ
value_double (double d) = ok d
value_double _ = throws

unfoldable pub value_list : JObject → Outcome Items
value_list (list xs) = ok xs
value_list _ = throws

unfoldable pub value_dict : JObject → Outcome Members
value_dict (dict m) = ok m
value_dict _ = throws

-- std::vector's push_back and pop_back; the latter on an empty vector is undefined
unfoldable pub append_item : Items → JObject → Items
append_item no_items x = item x no_items
append_item (item y ys) x = item y (append_item ys x)

unfoldable pub without_last : Items → Outcome Items
without_last no_items = undefined
without_last (item x no_items) = ok no_items
without_last (item x (item y ys)) = do zs ← without_last (item y ys); ok (item x zs)

unfoldable pub push_back : JObject → JObject → Outcome JObject
push_back (list xs) x = ok (list (append_item xs x))
push_back _ x = throws

unfoldable pub pop_back : JObject → Outcome JObject
pop_back (list xs) = do ys ← without_last xs; ok (list ys)
pop_back _ = throws

-- std::less of std::string: by bytes, a shorter text first
unfoldable pub text_less : Bytes → Bytes → Bool
text_less a [] = false
text_less [] (y ∷ b) = true
text_less (x ∷ a) (y ∷ b) =
    let rest = text_less a b in if ltb x y then true else if x == y then rest else false

-- m[key] = value of a std::map
unfoldable pub put_member : Bytes → JObject → Members → Members
put_member key v no_members = member key v no_members
put_member key v (member k w m) =
    let rest = put_member key v m in
    if same key k
    then member k v m
    else if text_less key k
    then member key v (member k w m)
    else member k w rest

unfoldable pub find_member : Bytes → Members → Option JObject
find_member key no_members = none
find_member key (member k w m) = let rest = find_member key m in if same key k then some w else rest

-- operator[]: the entry, made null where there is none, with the object that then holds it
unfoldable pub at_key : JObject → Bytes → Outcome (JObject × JObject)
at_key (dict m) key = elim (find_member key m) [
  | some v ↦ ok (v, dict m)
  | none ↦ ok (null, dict (put_member key null m))
]
at_key _ key = throws

-- obj[key] = value
unfoldable pub set_key : JObject → Bytes → JObject → Outcome JObject
set_key (dict m) key v = ok (dict (put_member key v m))
set_key _ key v = throws

unfoldable pub int_to_string : ℤ → Bytes
int_to_string (pos n) = to_string n
int_to_string (negsuc n) = b'-' ∷ to_string (suc n)

abbrev pub quoted : Bytes → Bytes
quoted s = b'"' ∷ (s ++ b'"' ∷ [])

module _ (print_double : ℕ → Bytes) where
  unfoldable mutual
    pub object_to_string : JObject → Bytes
    object_to_string null = codes "null"
    object_to_string (bool true) = codes "true"
    object_to_string (bool false) = codes "false"
    object_to_string (int n) = int_to_string n
    object_to_string (double d) = print_double d
    object_to_string (str s) = quoted s
    object_to_string (list xs) = b'[' ∷ (items_to_string xs ++ b']' ∷ [])
    object_to_string (dict m) = b'{' ∷ (members_to_string m ++ b'}' ∷ [])

    pub items_to_string : Items → Bytes
    items_to_string no_items = []
    items_to_string (item x xs) = object_to_string x ++ more_to_string xs

    -- the items behind the first, each behind its comma
    pub more_to_string : Items → Bytes
    more_to_string no_items = []
    more_to_string (item x xs) = b',' ∷ (object_to_string x ++ more_to_string xs)

    pub members_to_string : Members → Bytes
    members_to_string no_members = []
    members_to_string (member k v m) =
        quoted k ++ (b':' ∷ (object_to_string v ++ more_members_to_string m))

    pub more_members_to_string : Members → Bytes
    more_members_to_string no_members = []
    more_members_to_string (member k v m) =
        b',' ∷ (quoted k ++ (b':' ∷ (object_to_string v ++ more_members_to_string m)))
