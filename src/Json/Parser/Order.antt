-- ===== src/Json/Parser/Order.antt =====
-- std::map as the parser fills it: entries that come in the order of their keys are put at the end.
use luce.Prelude.{◌≡◌, refl, ap, true, false, [], ◌∷◌, Bytes, same, arith}
use luce.Json.{
  JObject, Items, Members, no_items, item, no_members, member, append_item, text_less, put_member,
}

abbrev pub join_items : Items → Items → Items
join_items no_items ys = ys
join_items (item x xs) ys = item x (join_items xs ys)

pub join_items-append_item :
    (xs : Items) (x : JObject) (ys : Items)
    → join_items (append_item xs x) ys ≡ join_items xs (item x ys)
unfolding append_item
join_items-append_item no_items x ys = refl
join_items-append_item (item y xs) x ys = ap (item y) (join_items-append_item xs x ys)

pub append_item-join_items :
    (xs : Items) (x : JObject) → append_item xs x ≡ join_items xs (item x no_items)
unfolding append_item
append_item-join_items no_items x = refl
append_item-join_items (item y xs) x = ap (item y) (append_item-join_items xs x)

abbrev pub join_members : Members → Members → Members
join_members no_members ys = ys
join_members (member k v m) ys = member k v (join_members m ys)

pub join_members_assoc :
    (a b c : Members) → join_members (join_members a b) c ≡ join_members a (join_members b c)
join_members_assoc no_members b c = refl
join_members_assoc (member k v a) b c = ap (member k v) (join_members_assoc a b c)

-- the key is less than each of the entries'
abbrev pub IsBelow : Bytes → Members → Type 0
IsBelow k no_members = Unit
IsBelow k (member j v m) = (text_less k j ≡ true) × IsBelow k m

-- the keys ascend, as they do in a std::map
abbrev pub Ascends : Members → Type 0
Ascends no_members = Unit
Ascends (member k v m) = IsBelow k m × Ascends m

pub text_less_asym :
    (a b : Bytes) → text_less a b ≡ true → (same b a ≡ false) × (text_less b a ≡ false)
unfolding text_less same
text_less_asym a [] h = absurd (ground arith)
text_less_asym [] (y ∷ b) h = (refl, refl)
text_less_asym (x ∷ a) (y ∷ b) h = ground (arith, text_less_asym a b)

IsBelow-join_members :
    (j k : Bytes) (v : JObject) (a m : Members)
    → IsBelow j (join_members a (member k v m))
    → text_less j k ≡ true
IsBelow-join_members j k v no_members m h = h.0
IsBelow-join_members j k v (member i w a) m h = IsBelow-join_members j k v a m h.1

pub put_member-join_members :
    (k : Bytes) (v : JObject) (a m : Members)
    → Ascends (join_members a (member k v m))
    → put_member k v a ≡ join_members a (member k v no_members)
unfolding put_member
put_member-join_members k v no_members m h = refl
put_member-join_members k v (member j w a) m (below, h) =
    let order = text_less_asym j k (IsBelow-join_members j k v a m below) in
    rw (order.0, order.1) (ap (member j w) (put_member-join_members k v a m h))
