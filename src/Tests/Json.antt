-- ===== src/Tests/Json.antt =====
-- luce/common/json on concrete texts.
use luce.Prelude.{◌≡◌, refl, true, same, ℕ, Bytes, codes, ok, pos, arith}
use luce.Json.{
  Members, null, bool, int, str, list, dict, no_items, item, no_members, member, text_less,
  object_to_string,
}
use luce.Json.Parser.{from_string}
use luce.Json.Parser.Order.{Ascends}
use luce.Json.Convert.{
  Fields, no_fields, field, int_field, str_field, struct_field, Struct, to_json, from_json,
}
use luce.Json.Convert.RoundTrip.{from_json-to_json}
use luce.Json.Parser.Shape.{IsWritable}
use luce.Json.Parser.Document.{from_string-object_to_string}

abbrev read_double : Bytes → ℕ
read_double s = 0

abbrev print_double : ℕ → Bytes
print_double d = codes "0"

abbrev settings : Members
settings = member (codes "log") (str (codes "info")) (
    member (codes "port") (list (item (int (pos 80)) (item (bool true) (item null no_items))))
      no_members)

settings-IsWritable : IsWritable (dict settings)
unfolding text_less
settings-IsWritable = (
  ((refl, tt), (tt, tt)),
  ((refl, refl), (refl, refl), ((refl, refl), (omega arith, (tt, (tt, tt))), tt)),
)

from_string-object_to_string_example :
    from_string read_double (object_to_string print_double (dict settings)) ≡ ok (dict settings)
from_string-object_to_string_example =
    from_string-object_to_string read_double print_double (dict settings) settings-IsWritable

settings-Ascends : Ascends settings
unfolding text_less
settings-Ascends = ((refl, tt), (tt, tt))

-- a class with two fields and one of a class with one
abbrev server : Fields
server =
    field (codes "port") int_field
      (field (codes "at") (struct_field (field (codes "host") str_field no_fields)) no_fields)

abbrev a_server : Struct server
a_server = (pos 80, ((codes "::1", tt), tt))

from_json-to_json_example :
    (text : Bytes) × (to_json print_double server a_server ≡ ok text)
    × (from_json read_double server text ≡ ok a_server)
unfolding same
from_json-to_json_example =
    from_json-to_json read_double print_double server a_server
      ((refl, refl), (refl, tt), tt, ((refl, refl), tt, ((refl, refl), tt, tt, tt), tt))
      (omega arith, (((refl, refl), tt), tt))
