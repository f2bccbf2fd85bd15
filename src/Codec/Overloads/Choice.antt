-- ===== src/Codec/Overloads/Choice.antt =====
-- Which of the overloads a type has: never two.
use luce.Prelude.{
  ℕ, ◌≤◌, ◌≡◌, refl, ◌⊎◌, inl, inr, Bool, true, false, Option, none, some, [], length,
  if◌then◌else◌, arith,
}
use luce.Codec.TypeHelper.{
  vector, deque, list, forward_list, Ty, boolean, text, no_types, arithmetic, object, sequence,
  map_of, tuple, Method, absent, changing, const, Class, has_serialize_method,
  has_deserialize_method, is_callable,
}
use luce.Codec.Overloads.{by_method, only_if, candidates, serializer, deserializer}

-- the number of overloads that a function has for a type, whether its call compiles or not
abbrev OneOf : {A : Type 0} → Option A → ℕ → Type 0
OneOf f n = ((f ≡ none) ⊎ (n ≡ 1)) × (n ≤ 1)

object-one_serializer :
    {A : Type 0} (m : Method) (f : A)
    → OneOf
        (elim m [ absent ↦ none | changing ↦ none | const ↦ some f ])
        (length (only_if (is_callable m) by_method []))
object-one_serializer absent f = (inl refl, omega arith)
object-one_serializer changing f = (inl refl, omega arith)
object-one_serializer const f = (inr refl, omega arith)

object-one_deserializer :
    {A : Type 0} (b : Bool) (f : A)
    → OneOf (if b then some f else none) (length (only_if b by_method []))
object-one_deserializer true f = (inr refl, omega arith)
object-one_deserializer false f = (inl refl, omega arith)

module _ (classes : ℕ → Class) where
  one_serializer :
      (t : Ty)
      → OneOf (serializer classes t) (length (candidates (has_serialize_method classes t) t))
  unfolding serializer candidates has_serialize_method
  one_serializer boolean = (inr refl, omega arith)
  one_serializer (arithmetic width) = (inr refl, omega arith)
  one_serializer (object k) =
      object-one_serializer (classes k).serialize_method (classes k).serial.serialize
  one_serializer text = (inr refl, omega arith)
  one_serializer (sequence vector t) = (inr refl, omega arith)
  one_serializer (sequence deque t) = (inr refl, omega arith)
  one_serializer (sequence list t) = (inr refl, omega arith)
  one_serializer (sequence forward_list t) = (inr refl, omega arith)
  one_serializer (map_of k v) = (inr refl, omega arith)
  one_serializer no_types = (inr refl, omega arith)
  one_serializer (tuple t ts) = (inr refl, omega arith)

  one_deserializer :
      (t : Ty)
      → OneOf (deserializer classes t) (length (candidates (has_deserialize_method classes t) t))
  unfolding deserializer candidates has_deserialize_method
  one_deserializer boolean = (inr refl, omega arith)
  one_deserializer (arithmetic width) = (inr refl, omega arith)
  one_deserializer (object k) =
      object-one_deserializer (is_callable (classes k).deserialize_method)
        (classes k).serial.deserialize
  one_deserializer text = (inr refl, omega arith)
  one_deserializer (sequence vector t) = (inr refl, omega arith)
  one_deserializer (sequence deque t) = (inr refl, omega arith)
  one_deserializer (sequence list t) = (inr refl, omega arith)
  one_deserializer (sequence forward_list t) = (inr refl, omega arith)
  one_deserializer (map_of k v) = (inr refl, omega arith)
  one_deserializer no_types = (inr refl, omega arith)
  one_deserializer (tuple t ts) = (inr refl, omega arith)

  -- No call of `serialize` or `deserialize` is ambiguous: the conditions of the six overloads let at
  -- most one through for any type, and just one if the call compiles.
  pub candidates-one :
      (t : Ty)
      → ((serializer classes t ≡ none)
          ⊎ (length (candidates (has_serialize_method classes t) t) ≡ 1))
        × (length (candidates (has_serialize_method classes t) t) ≤ 1)
        × ((deserializer classes t ≡ none)
            ⊎ (length (candidates (has_deserialize_method classes t) t) ≡ 1))
        × (length (candidates (has_deserialize_method classes t) t) ≤ 1)
  candidates-one t =
      ((one_serializer t).0, (one_serializer t).1, (one_deserializer t).0, (one_deserializer t).1)
