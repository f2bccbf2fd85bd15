-- ===== src/Json/Convert/Entries.antt =====
-- The entries that _to_json leaves in an object: their keys ascend, they hold the fields' values, and
-- ToString writes them as they are read.
use luce.Prelude.{
  ◌^◌, ◌<◌, ◌≡◌, refl, ◌∙◌, false, Bytes, same, Bool-cases, inl, inr, ok, pos, negsuc,
}
use luce.Json.{
  JObject, Members, bool, int, double, str, dict, no_members, member, text_less, put_member,
  find_member, set_key,
}
use luce.Json.Dict.{find_member-put_member, put_member-Ascends}
use luce.Json.Parser.Order.{Ascends}
use luce.Json.Parser.Scan.{IsPlain}
use luce.Json.Parser.Shape.{IsWritable, MembersAreWritable}
use luce.Json.Convert.{
  Field, int_field, bool_field, double_field, str_field, struct_field, Fields, no_fields, field,
  FieldValue, Struct, to_value, to_fields,
}

-- no row has this key
abbrev pub IsFresh : Bytes → Fields → Type 0
IsFresh key no_fields = Unit
IsFresh key (field k f fs) = (same key k ≡ false) × IsFresh key fs

-- The keys of a class are plain and differ, and no field is a double; so in the classes inside.
abbrev mutual
  pub IsPlainField : Field → Type 0
  IsPlainField int_field = Unit
  IsPlainField bool_field = Unit
  IsPlainField double_field = ⊥
  IsPlainField str_field = Unit
  IsPlainField (struct_field fs) = HasPlainKeys fs

  pub HasPlainKeys : Fields → Type 0
  HasPlainKeys no_fields = Unit
  HasPlainKeys (field key f fs) = IsPlain key × IsFresh key fs × IsPlainField f × HasPlainKeys fs

-- The numbers are not negative and fit an int32_t, and the strings are plain.
abbrev mutual
  HoldsPlain : (f : Field) → FieldValue f → Type 0
  HoldsPlain int_field (pos n) = n < 2 ^ 31
  HoldsPlain int_field (negsuc n) = ⊥
  HoldsPlain bool_field b = Unit
  HoldsPlain double_field d = ⊥
  HoldsPlain str_field s = IsPlain s
  HoldsPlain (struct_field fs) v = HoldAllPlain fs v

  pub HoldAllPlain : (fs : Fields) → Struct fs → Type 0
  HoldAllPlain no_fields v = Unit
  HoldAllPlain (field key f fs) (v, vs) = HoldsPlain f v × HoldAllPlain fs vs

-- the entries that _to_json leaves
unfoldable mutual
  pub object_of : (f : Field) → FieldValue f → JObject
  object_of int_field n = int n
  object_of bool_field b = bool b
  object_of double_field d = double d
  object_of str_field s = str s
  object_of (struct_field fs) v = dict (entries fs v no_members)

  pub entries : (fs : Fields) → Struct fs → Members → Members
  entries no_fields v m = m
  entries (field key f fs) (v, vs) m = entries fs vs (put_member key (object_of f v) m)

mutual
  unfolding to_value to_fields object_of entries set_key

  to_value-object : (f : Field) (v : FieldValue f) → to_value f v ≡ ok (object_of f v)
  to_value-object int_field v = refl
  to_value-object bool_field v = refl
  to_value-object double_field v = refl
  to_value-object str_field v = refl
  to_value-object (struct_field fs) v = to_fields-entries fs v no_members

  pub to_fields-entries :
      (fs : Fields) (v : Struct fs) (m : Members)
      → to_fields fs v (dict m) ≡ ok (dict (entries fs v m))
  to_fields-entries no_fields v m = refl
  to_fields-entries (field key f fs) (v, vs) m =
      rw (to_value-object f v) (to_fields-entries fs vs (put_member key (object_of f v) m))

pub entries_found :
    (key : Bytes) (fs : Fields) (vs : Struct fs) (m : Members)
    → IsFresh key fs
    → find_member key (entries fs vs m) ≡ find_member key m
unfolding entries
entries_found key no_fields vs m h = refl
entries_found key (field k f fs) (v, vs) m h =
    entries_found key fs vs (put_member k (object_of f v) m) h.1
    ∙ find_member-put_member key k (object_of f v) m
    ∙ rw h.0 refl

pub entries-Ascends :
    (fs : Fields) (vs : Struct fs) (m : Members) → Ascends m → Ascends (entries fs vs m)
unfolding entries
entries-Ascends no_fields vs m h = h
entries-Ascends (field k f fs) (v, vs) m h =
    entries-Ascends fs vs (put_member k (object_of f v) m)
      (put_member-Ascends k (object_of f v) m h)

put_member-AreWritable :
    (k : Bytes) (v : JObject) (m : Members)
    → IsPlain k
    → IsWritable v
    → MembersAreWritable m
    → MembersAreWritable (put_member k v m)
unfolding put_member
put_member-AreWritable k v no_members p w h = (p, w, h)
put_member-AreWritable k v (member i x m) p w h = elim (Bool-cases (same k i)) [
  | inl hit ↦ rw hit (h.0, w, h.2)
  | inr miss ↦ elim (Bool-cases (text_less k i)) [
    | inl less ↦ rw (miss, less) (p, w, h)
    | inr more ↦ rw (miss, more) (h.0, h.1, put_member-AreWritable k v m p w h.2)
  ]
]

mutual
  unfolding object_of entries

  object-IsWritable :
      (f : Field) (v : FieldValue f) → IsPlainField f → HoldsPlain f v → IsWritable (object_of f v)
  object-IsWritable int_field (pos n) p h = h
  object-IsWritable int_field (negsuc n) p h = absurd h
  object-IsWritable bool_field v p h = tt
  object-IsWritable double_field v p h = absurd h
  object-IsWritable str_field v p h = h
  object-IsWritable (struct_field fs) v p h =
      (entries-Ascends fs v no_members tt, entries-AreWritable fs v no_members p h tt)

  pub entries-AreWritable :
      (fs : Fields) (vs : Struct fs) (m : Members)
      → HasPlainKeys fs
      → HoldAllPlain fs vs
      → MembersAreWritable m
      → MembersAreWritable (entries fs vs m)
  entries-AreWritable no_fields vs m p h w = w
  entries-AreWritable (field k f fs) (v, vs) m p h w =
      entries-AreWritable fs vs (put_member k (object_of f v) m) p.3 h.1
        (put_member-AreWritable k (object_of f v) m p.0 (object-IsWritable f v p.2 h.0) w)
