-- ===== src/Json/Tagged.antt =====
-- luce/common/json/JObject.{h,cpp}: a JObject as it is kept, a tag and a variant, each of which could
-- say another type. Value() goes by the tag and get_if by the variant; Value<V>() tests the tag, and
-- then reads a V where Value() points. A null is kept as the string "null". What stands in a list or
-- an object is taken as a value.
use luce.Prelude.{
  ℕ, Bool, ℤ, Bytes, codes, Option, none, some, Outcome, ok, throws, undefined, exits, out_of_fuel,
  ◌>>=◌, ◌≡◌, refl,
}
use luce.Json.{
  JObject, Items, Members, null, bool, int, double, str, list, dict, value_str, value_int,
  value_bool, value_double, value_list, value_dict, append_item, without_last, push_back, pop_back,
  put_member, set_key,
}

-- TYPE
pub data Tag : Type 0 where
  t_null t_bool t_int t_double t_str t_list t_dict : Tag

pub data Variant : Type 0 where
  bool_v : Bool → Variant
  int_v : ℤ → Variant
  double_v : ℕ → Variant
  str_v : Bytes → Variant
  list_v : Items → Variant
  dict_v : Members → Variant

pub record Tagged : Type 0 where
  pub type_ : Tag
  pub value_ : Variant

-- get_if of each alternative
abbrev if_bool : Variant → Option Variant
if_bool (bool_v b) = some (bool_v b)
if_bool _ = none

abbrev if_int : Variant → Option Variant
if_int (int_v n) = some (int_v n)
if_int _ = none

abbrev if_double : Variant → Option Variant
if_double (double_v d) = some (double_v d)
if_double _ = none

abbrev if_str : Variant → Option Variant
if_str (str_v s) = some (str_v s)
if_str _ = none

abbrev if_list : Variant → Option Variant
if_list (list_v xs) = some (list_v xs)
if_list _ = none

abbrev if_dict : Variant → Option Variant
if_dict (dict_v m) = some (dict_v m)
if_dict _ = none

-- Value(): where it points, none for nullptr
unfoldable pub value_pointer : Tagged → Option Variant
value_pointer o = elim o.type_ [
  | t_null ↦ if_str o.value_
  | t_bool ↦ if_bool o.value_
  | t_int ↦ if_int o.value_
  | t_double ↦ if_double o.value_
  | t_list ↦ if_list o.value_
  | t_dict ↦ if_dict o.value_
  | t_str ↦ if_str o.value_
]

-- Value<V>() behind its test of the tag: a read as another type than the variant's is undefined
unfoldable pub read_as : {V : Type 0} → (Variant → Option V) → Tagged → Outcome V
unfolding value_pointer
read_as cast o = elim (value_pointer o) [
  | none ↦ throws
  | some v ↦ elim (cast v) [ none ↦ undefined | some x ↦ ok x ]
]

abbrev as_bool : Variant → Option Bool
as_bool (bool_v b) = some b
as_bool _ = none

abbrev as_int : Variant → Option ℤ
as_int (int_v n) = some n
as_int _ = none

abbrev as_double : Variant → Option ℕ
as_double (double_v d) = some d
as_double _ = none

abbrev as_str : Variant → Option Bytes
as_str (str_v s) = some s
as_str _ = none

abbrev as_list : Variant → Option Items
as_list (list_v xs) = some xs
as_list _ = none

abbrev as_dict : Variant → Option Members
as_dict (dict_v m) = some m
as_dict _ = none

unfoldable pub get_str : Tagged → Outcome Bytes
unfolding read_as
get_str o = elim o.type_ [ t_str ↦ read_as as_str o | _ ↦ throws ]

unfoldable pub get_int : Tagged → Outcome ℤ
unfolding read_as
get_int o = elim o.type_ [ t_int ↦ read_as as_int o | _ ↦ throws ]

unfoldable pub get_bool : Tagged → Outcome Bool
unfolding read_as
get_bool o = elim o.type_ [ t_bool ↦ read_as as_bool o | _ ↦ throws ]

unfoldable pub get_double : Tagged → Outcome ℕ
unfolding read_as
get_double o = elim o.type_ [ t_double ↦ read_as as_double o | _ ↦ throws ]

unfoldable pub get_list : Tagged → Outcome Items
unfolding read_as
get_list o = elim o.type_ [ t_list ↦ read_as as_list o | _ ↦ throws ]

unfoldable pub get_dict : Tagged → Outcome Members
unfolding read_as
get_dict o = elim o.type_ [ t_dict ↦ read_as as_dict o | _ ↦ throws ]

-- the constructors, and Null, Bool, Int, Double, Str, List and Dict
unfoldable pub represent : JObject → Tagged
represent null = record { type_ = t_null; value_ = str_v (codes "null") }
represent (bool b) = record { type_ = t_bool; value_ = bool_v b }
represent (int n) = record { type_ = t_int; value_ = int_v n }
represent (double d) = record { type_ = t_double; value_ = double_v d }
represent (str s) = record { type_ = t_str; value_ = str_v s }
represent (list xs) = record { type_ = t_list; value_ = list_v xs }
represent (dict m) = record { type_ = t_dict; value_ = dict_v m }

-- push_back, pop_back and the assignment to an entry, which change the variant in place
unfoldable pub push_back_tagged : Tagged → JObject → Outcome Tagged
unfolding get_list
push_back_tagged o x = do xs ← get_list o; ok record o { value_ = list_v (append_item xs x) }

unfoldable pub pop_back_tagged : Tagged → Outcome Tagged
unfolding get_list
pop_back_tagged o = do xs ← get_list o; ys ← without_last xs; ok record o { value_ = list_v ys }

unfoldable pub set_key_tagged : Tagged → Bytes → JObject → Outcome Tagged
unfolding get_dict
set_key_tagged o key v = do m ← get_dict o; ok record o { value_ = dict_v (put_member key v m) }

abbrev pub represented : Outcome JObject → Outcome Tagged
represented r = do v ← r; ok (represent v)

represented-list :
    (r : Outcome Items)
    → (do ys ← r; ok (represent (list ys))) ≡ represented (do ys ← r; ok (list ys))
represented-list (ok ys) = refl
represented-list throws = refl
represented-list undefined = refl
represented-list exits = refl
represented-list out_of_fuel = refl

-- At a JObject that was made by a constructor or by Null, Bool, Int, Double, Str, List or Dict, reading
-- through the tag and the variant does what a case on the one value does: each Value<V>() gives the
-- value, or throws, as the tagged sum does and is never undefined; push_back, pop_back and an assignment
-- to an entry give the representation of what they give on the sum, fail when they do, and are
-- undefined when they are.
represent-refines :
    (v x : JObject) (key : Bytes)
    → (get_str (represent v) ≡ value_str v)
      × (get_int (represent v) ≡ value_int v)
      × (get_bool (represent v) ≡ value_bool v)
      × (get_double (represent v) ≡ value_double v)
      × (get_list (represent v) ≡ value_list v)
      × (get_dict (represent v) ≡ value_dict v)
      × (push_back_tagged (represent v) x ≡ represented (push_back v x))
      × (pop_back_tagged (represent v) ≡ represented (pop_back v))
      × (set_key_tagged (represent v) key x ≡ represented (set_key v key x))
unfolding represent get_str get_int get_bool get_double get_list get_dict push_back_tagged
    pop_back_tagged set_key_tagged value_str value_int value_bool value_double value_list value_dict
    push_back pop_back set_key read_as value_pointer
represent-refines null x key = (refl, refl, refl, refl, refl, refl, refl, refl, refl)
represent-refines (bool b) x key = (refl, refl, refl, refl, refl, refl, refl, refl, refl)
represent-refines (int n) x key = (refl, refl, refl, refl, refl, refl, refl, refl, refl)
represent-refines (double d) x key = (refl, refl, refl, refl, refl, refl, refl, refl, refl)
represent-refines (str s) x key = (refl, refl, refl, refl, refl, refl, refl, refl, refl)
represent-refines (list xs) x key =
    (refl, refl, refl, refl, refl, refl, refl, represented-list (without_last xs), refl)
represent-refines (dict m) x key = (refl, refl, refl, refl, refl, refl, refl, refl, refl)
