-- ===== src/Json/Convert/RoundTrip.antt =====
-- FromJson of what ToJSON writes of a class's object gives the object back.
use luce.Prelude.{
  ℕ, ◌≡◌, refl, ap, ◌∙◌, true, none, some, Bytes, same, same_refl, same_iff, Bool-cases, inl, inr,
  ok, arith,
}
use luce.Json.{
  JObject, Members, dict, no_members, member, text_less, put_member, find_member, set_key,
  value_int, value_bool, value_str, value_double, object_to_string,
}
use luce.Json.Dict.{find_member-put_member, at_key-found, IsBelow-trans}
use luce.Json.Parser.Order.{IsBelow, Ascends, text_less_asym}
use luce.Json.Parser.Document.{from_string-object_to_string}
use luce.Json.Convert.{
  Field, int_field, bool_field, double_field, str_field, struct_field, Fields, no_fields, field,
  FieldValue, Struct, from_value, from_fields, to_json, from_json,
}
use luce.Json.Convert.Entries.{
  IsPlainField, HasPlainKeys, HoldAllPlain, object_of, entries, to_fields-entries,
  entries-AreWritable, entries_found, entries-Ascends,
}

-- each row's key has the row's value
abbrev Held : (fs : Fields) → Struct fs → Members → Type 0
Held no_fields vs m = Unit
Held (field k f fs) (v, vs) m = (find_member k m ≡ some (object_of f v)) × Held fs vs m

entries-Held :
    (fs : Fields) (vs : Struct fs) (m : Members) → HasPlainKeys fs → Held fs vs (entries fs vs m)
unfolding entries
entries-Held no_fields vs m p = tt
entries-Held (field k f fs) (v, vs) m p =
    let m' = put_member k (object_of f v) m in
    (
      entries_found k fs vs m' p.1
          ∙ find_member-put_member k k (object_of f v) m
          ∙ rw (same_refl k) refl,
      entries-Held fs vs m' p.3,
    )

IsBelow-find_member : (k : Bytes) (m : Members) → IsBelow k m → find_member k m ≡ none
unfolding find_member
IsBelow-find_member k no_members b = refl
IsBelow-find_member k (member i w m) b = elim (Bool-cases (same k i)) [
  | inl hit ↦
      let e : same i k ≡ true = rw ((same_iff k i).0 hit) (same_refl i) in
      absurd {A = find_member k (member i w m) ≡ none} (ground (arith, text_less_asym k i b.0))
  | inr miss ↦ rw miss (IsBelow-find_member k m b.1)
]

found_here :
    (i : Bytes) (v w : JObject) (m : Members) → some w ≡ some v → member i v m ≡ member i w m
found_here i v w m e = cc

-- To assign an entry what it holds changes nothing.
put_member_found :
    (k : Bytes) (v : JObject) (m : Members)
    → Ascends m
    → find_member k m ≡ some v
    → put_member k v m ≡ m
unfolding put_member find_member
put_member_found k v no_members o e = absurd (cc)
put_member_found k v (member i w m) (below, o) e = elim (Bool-cases (same k i)) [
  | inl hit ↦ rw hit (found_here i v w m (rw hit at e))
  | inr miss ↦ elim (Bool-cases (text_less k i)) [
    | inl less ↦
        let gone = IsBelow-find_member k m (IsBelow-trans k i m less below) in
        absurd (let e' : find_member k m ≡ some v = rw miss at e in cc)
    | inr more ↦ rw (miss, more) (ap (member i w) (put_member_found k v m o (rw miss at e)))
  ]
]

from_fields_step :
    (k : Bytes) (f : Field) (fs : Fields) (v : FieldValue f) (vs : Struct fs) (m : Members)
    → Ascends m
    → find_member k m ≡ some (object_of f v)
    → from_value f (object_of f v) ≡ ok (v, object_of f v)
    → from_fields fs (dict m) ≡ ok (vs, dict m)
    → from_fields (field k f fs) (dict m) ≡ ok ((v, vs), dict m)
unfolding from_fields set_key
from_fields_step k f fs v vs m o e first rest =
    rw (at_key-found k (object_of f v) m e, first, put_member_found k (object_of f v) m o e, rest)
      refl

mutual
  unfolding from_value object_of value_int value_bool value_str value_double

  from_value-object :
      (f : Field) (v : FieldValue f)
      → IsPlainField f
      → from_value f (object_of f v) ≡ ok (v, object_of f v)
  from_value-object int_field v p = refl
  from_value-object bool_field v p = refl
  from_value-object double_field v p = absurd p
  from_value-object str_field v p = refl
  from_value-object (struct_field fs) v p =
      from_fields-Held fs v (entries fs v no_members) (entries-Ascends fs v no_members tt)
        (entries-Held fs v no_members p) p

  from_fields-Held :
      (fs : Fields) (vs : Struct fs) (m : Members)
      → Ascends m
      → Held fs vs m
      → HasPlainKeys fs
      → from_fields fs (dict m) ≡ ok (vs, dict m)
  from_fields-Held no_fields vs m o h p = refl
  from_fields-Held (field k f fs) (v, vs) m o h p =
      from_fields_step k f fs v vs m o h.0 (from_value-object f v p.2)
        (from_fields-Held fs vs m o h.1 p.3)

module _ (read_double : Bytes → ℕ) (print_double : ℕ → Bytes) where
  -- FromJson of the text that ToJSON writes gives the object back, for every class whose fields are
  -- numbers, bools, strings and such classes, under keys that differ, have no quote and do not end
  -- in a backslash; the object's numbers are not negative and its strings are like the keys.
  pub from_json-to_json :
      (fs : Fields) (src : Struct fs)
      → HasPlainKeys fs
      → HoldAllPlain fs src
      → (text : Bytes) × (to_json print_double fs src ≡ ok text)
        × (from_json read_double fs text ≡ ok src)
  unfolding to_json from_json
  from_json-to_json fs src keys plain =
      let m = entries fs src no_members in
      let order = entries-Ascends fs src no_members tt in
      let writable = entries-AreWritable fs src no_members keys plain tt in
      (
        object_to_string print_double (dict m),
        rw (to_fields-entries fs src no_members) refl,
        rw
            (
              from_string-object_to_string read_double print_double (dict m) (order, writable),
              from_fields-Held fs src m order (entries-Held fs src no_members keys) keys,
            )
            refl,
      )
