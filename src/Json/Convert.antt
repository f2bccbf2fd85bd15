-- ===== src/Json/Convert.antt =====
-- luce/common/json/Parser.h: ToJSON and FromJson of a class, whose methods _to_json and _from_json
-- are rows of the macros to, to_struct, from and from_struct, one for each field. A row is a key and
-- the field's type; what the macros write is read off from the rows. A field of a basic type is put
-- in by its JObject, as the constructors are explicit.
pub mod Entries
pub mod RoundTrip
use luce.Prelude.{ℕ, Bool, ℤ, Bytes, Outcome, ok, throws, ◌>>=◌}
use luce.Json.{
  JObject, null, bool, int, double, str, list, dict, no_members, at_key, set_key, value_int,
  value_bool, value_double, value_str, object_to_string,
}
use luce.Json.Parser.{from_string}

mutual
  pub data Field : Type 0 where
    int_field bool_field double_field str_field : Field
    struct_field : Fields → Field

  pub data Fields : Type 0 where
    no_fields : Fields
    field : Bytes → Field → Fields → Fields

-- the values of a field, and of a class with these fields
abbrev mutual
  pub FieldValue : Field → Type 0
  FieldValue int_field = ℤ
  FieldValue bool_field = Bool
  FieldValue double_field = ℕ
  FieldValue str_field = Bytes
  FieldValue (struct_field fs) = Struct fs

  pub Struct : Fields → Type 0
  Struct no_fields = Unit
  Struct (field key f fs) = FieldValue f × Struct fs

unfoldable mutual
  -- the value that a row assigns to obj[key]: for to_struct, a new object that is then filled
  pub to_value : (f : Field) → FieldValue f → Outcome JObject
  to_value int_field n = ok (int n)
  to_value bool_field b = ok (bool b)
  to_value double_field d = ok (double d)
  to_value str_field s = ok (str s)
  to_value (struct_field fs) v = to_fields fs v (dict no_members)

  -- _to_json, row by row
  pub to_fields : (fs : Fields) → Struct fs → JObject → Outcome JObject
  to_fields no_fields v obj = ok obj
  to_fields (field key f fs) (v, vs) obj = do
    tmp ← to_value f v
    obj' ← set_key obj key tmp
    to_fields fs vs obj'

unfoldable mutual
  -- the field that a row reads at obj[key], and what it leaves there
  pub from_value : (f : Field) → JObject → Outcome (FieldValue f × JObject)
  from_value int_field obj = do n ← value_int obj; ok (n, obj)
  from_value bool_field obj = do b ← value_bool obj; ok (b, obj)
  from_value double_field obj = do d ← value_double obj; ok (d, obj)
  from_value str_field obj = do s ← value_str obj; ok (s, obj)
  from_value (struct_field fs) obj = from_fields fs obj

  -- _from_json, row by row; operator[] puts a null where there is no entry
  pub from_fields : (fs : Fields) → JObject → Outcome (Struct fs × JObject)
  from_fields no_fields obj = ok (tt, obj)
  from_fields (field key f fs) obj = do
    (at, obj1) ← at_key obj key
    (v, at') ← from_value f at
    obj2 ← set_key obj1 key at'
    (vs, obj3) ← from_fields fs obj2
    ok ((v, vs), obj3)

-- obj.Type() != T_DICT
abbrev want_dict : JObject → Outcome JObject
want_dict (dict m) = ok (dict m)
want_dict _ = throws

unfoldable pub to_json : (ℕ → Bytes) → (fs : Fields) → Struct fs → Outcome Bytes
to_json print_double fs src = do
  obj ← to_fields fs src (dict no_members)
  ok (object_to_string print_double obj)

unfoldable pub from_json : (Bytes → ℕ) → (fs : Fields) → Bytes → Outcome (Struct fs)
from_json read_double fs src = do
  obj ← from_string read_double src
  obj' ← want_dict obj
  (ret, _) ← from_fields fs obj'
  ok ret
