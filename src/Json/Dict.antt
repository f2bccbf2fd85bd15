-- ===== src/Json/Dict.antt =====
-- The entries of an object: what operator[] finds after an assignment, and the order of the keys.
use luce.Prelude.{
  ◌≡◌, refl, sym, ◌∙◌, Bool, true, false, if◌then◌else◌, [], ◌∷◌, Bytes, same, arith, Option, some,
  ok, ◌>>=◌, inl, inr, Bool-cases, same_refl, same_iff, subst,
}
use luce.Json.{
  JObject, null, bool, int, double, str, list, dict, Members, no_members, member, text_less,
  put_member, find_member, at_key, set_key,
}
use luce.Json.Parser.Order.{IsBelow, Ascends}

if_same :
    (b : Bool) (x w y : Option JObject)
    → (if b then x else y) ≡ (if b then x else (if b then w else y))
if_same true x w y = refl
if_same false x w y = refl

-- operator[] of a key finds what was assigned to it last.
pub find_member-put_member :
    (j k : Bytes) (v : JObject) (m : Members)
    → find_member j (put_member k v m) ≡ (if same j k then some v else find_member j m)
unfolding find_member put_member
find_member-put_member j k v no_members = refl
find_member-put_member j k v (member i w m) = elim (Bool-cases (same k i)) [
  | inl hit ↦
      rw (hit, (same_iff k i).0 hit) (if_same (same j i) (some v) (some w) (find_member j m))
  | inr miss ↦ elim (Bool-cases (text_less k i)) [
    | inl less ↦ rw (miss, less) refl
    | inr more ↦
        rw (miss, more, find_member-put_member j k v m)
          (elim (Bool-cases (same j k)) [
            | inl e ↦ rw (e, subst (λ x. same x i ≡ false) (sym ((same_iff j k).0 e)) miss) refl
            | inr e ↦ rw e refl
          ])
  ]
]

text_less_trans :
    (a b c : Bytes) → text_less a b ≡ true → text_less b c ≡ true → text_less a c ≡ true
unfolding text_less
text_less_trans a b [] h k = k
text_less_trans a [] (z ∷ c) h k = absurd (ground arith)
text_less_trans [] (y ∷ b) (z ∷ c) h k = refl
text_less_trans (x ∷ a) (y ∷ b) (z ∷ c) h k = ground (arith, text_less_trans a b c)

text_less_total : (a b : Bytes) → same a b ≡ false → text_less a b ≡ false → text_less b a ≡ true
unfolding text_less same
text_less_total [] [] h k = absurd (ground arith)
text_less_total [] (y ∷ b) h k = absurd (ground arith)
text_less_total (x ∷ a) [] h k = refl
text_less_total (x ∷ a) (y ∷ b) h k = ground (arith, text_less_total a b)

pub IsBelow-trans : (j k : Bytes) (m : Members) → text_less j k ≡ true → IsBelow k m → IsBelow j m
IsBelow-trans j k no_members h b = tt
IsBelow-trans j k (member i w m) h b = (text_less_trans j k i h b.0, IsBelow-trans j k m h b.1)

IsBelow-put_member :
    (j k : Bytes) (v : JObject) (m : Members)
    → text_less j k ≡ true
    → IsBelow j m
    → IsBelow j (put_member k v m)
unfolding put_member
IsBelow-put_member j k v no_members h b = (h, b)
IsBelow-put_member j k v (member i w m) h b = elim (Bool-cases (same k i)) [
  | inl hit ↦ rw hit b
  | inr miss ↦ elim (Bool-cases (text_less k i)) [
    | inl less ↦ rw (miss, less) (h, b)
    | inr more ↦ rw (miss, more) (b.0, IsBelow-put_member j k v m h b.1)
  ]
]

-- An assignment keeps the keys in their order.
pub put_member-Ascends :
    (k : Bytes) (v : JObject) (m : Members) → Ascends m → Ascends (put_member k v m)
unfolding put_member
put_member-Ascends k v no_members o = (tt, o)
put_member-Ascends k v (member i w m) (below, o) = elim (Bool-cases (same k i)) [
  | inl hit ↦ rw hit (below, o)
  | inr miss ↦ elim (Bool-cases (text_less k i)) [
    | inl less ↦ rw (miss, less) ((less, IsBelow-trans k i m less below), (below, o))
    | inr more ↦
        rw (miss, more)
          (
            IsBelow-put_member i k v m (text_less_total k i miss more) below,
            put_member-Ascends k v m o,
          )
  ]
]

pub at_key-found :
    (k : Bytes) (v : JObject) (m : Members)
    → find_member k m ≡ some v
    → at_key (dict m) k ≡ ok (v, dict m)
unfolding at_key
at_key-found k v m e = rw (at_key, e) refl

-- After obj[k] = v, reading obj[k] gives v and leaves the object as it is; on a value that is no
-- object both are std::logic_error.
at_key-set_key :
    (obj : JObject) (k : Bytes) (v : JObject)
    → (do o ← set_key obj k v; at_key o k) ≡ (do o ← set_key obj k v; ok (v, o))
unfolding at_key set_key
at_key-set_key (dict m) k v =
    at_key-found k v (put_member k v m) (find_member-put_member k k v m ∙ rw (same_refl k) refl)
at_key-set_key null k v = refl
at_key-set_key (bool b) k v = refl
at_key-set_key (int n) k v = refl
at_key-set_key (double d) k v = refl
at_key-set_key (str s) k v = refl
at_key-set_key (list xs) k v = refl
