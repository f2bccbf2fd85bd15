-- ===== src/Codec/TypeHelper.antt =====
-- luce/codec/type_helper.h: the traits by which the templates of Serializer choose. A C++ type is a
-- `Ty`, as far as the traits tell types apart; a class is a number in a table that says which
-- methods it has. What the standard containers have is the standard library's.
use luce.Prelude.{ℕ, Bool, true, false, List, Bytes}
use luce.Codec.Serializer.{Serial}

pub data Container : Type 0 where
  vector deque list forward_list : Container

-- `arithmetic width` is a number of so many bytes; a tuple has a first type and a tuple of the
-- others, the last of which is `no_types`.
pub data Ty : Type 0 where
  boolean text no_types : Ty
  arithmetic object : ℕ → Ty
  sequence : Container → Ty → Ty
  map_of tuple : Ty → Ty → Ty

-- A method can be missing, or want an object that is not const.
pub data Method : Type 0 where
  absent changing const : Method

-- a class outside of this code, and what its own two methods do
pub record Class : Type 1 where
  pub Value : Type 0
  pub serialize_method : Method
  pub deserialize_method : Method
  pub size_method : Method
  pub serial : Serial Value

-- The test calls the method on `std::declval<C>()`, an object that is not const.
abbrev pub is_callable : Method → Bool
is_callable absent = false
is_callable changing = true
is_callable const = true

unfoldable pub container_has_size : Container → Bool
container_has_size forward_list = false
container_has_size vector = true
container_has_size deque = true
container_has_size list = true

module _ (classes : ℕ → Class) where
  unfoldable pub has_serialize_method : Ty → Bool
  has_serialize_method (object k) = is_callable (classes k).serialize_method
  has_serialize_method _ = false

  unfoldable pub has_deserialize_method : Ty → Bool
  has_deserialize_method (object k) = is_callable (classes k).deserialize_method
  has_deserialize_method _ = false

  unfoldable pub has_size_method : Ty → Bool
  unfolding container_has_size
  has_size_method (object k) = is_callable (classes k).size_method
  has_size_method (sequence c t) = container_has_size c
  has_size_method text = true
  has_size_method (map_of k v) = true
  has_size_method _ = false

  -- what a value of the type is
  abbrev pub El : Ty → Type 0
  El boolean = Bool
  El text = Bytes
  El no_types = Unit
  El (arithmetic width) = ℕ
  El (object k) = (classes k).Value
  El (sequence c t) = List (El t)
  El (map_of k v) = List (El k × El v)
  El (tuple t ts) = El t × El ts

unfoldable pub is_sequence_container_type : Ty → Bool
is_sequence_container_type (sequence vector t) = true
is_sequence_container_type (sequence deque t) = true
is_sequence_container_type (sequence list t) = true
is_sequence_container_type (sequence forward_list t) = true
is_sequence_container_type _ = false

-- std::is_arithmetic_v
abbrev pub is_arithmetic : Ty → Bool
is_arithmetic boolean = true
is_arithmetic (arithmetic width) = true
is_arithmetic _ = false
