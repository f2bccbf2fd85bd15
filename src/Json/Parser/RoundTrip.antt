-- ===== src/Json/Parser/RoundTrip.antt =====
-- The parser reads a value from the text that ToString writes, wherever the text stands.
use luce.Prelude.{
  ℕ, zero, suc, ◌≤◌, ◌≡◌, refl, sym, true, false, [], ◌∷◌, ◌++◌, Bytes, codes, arith, append_assoc,
  pos, negsuc, ok, subst,
}
use luce.Decimal.{is_digit}
use luce.Json.{
  JObject, Items, Members, null, bool, int, double, str, list, dict, no_items, item, no_members,
  member, quoted, value_str, append_item, int_to_string, object_to_string, more_to_string,
  more_members_to_string,
}
use luce.Json.Parser.{is_space, parse, list_loop, dict_loop}
use luce.Json.Parser.Cursor.{at, get_next_token-at}
use luce.Json.Parser.Scan.{
  EndsNumber, parse_null-at, parse_bool-at, parse_number-at, parse_string-at,
}
use luce.Json.Parser.Order.{
  join_items, join_items-append_item, append_item-join_items, join_members, join_members_assoc,
  Ascends, put_member-join_members,
}
use luce.Json.Parser.Shape.{
  IsWritable, AreWritable, MembersAreWritable, cost, cost_items, cost_members,
}
use luce.Json.Parser.Tokens.{
  peek, same_end, members_shape, more_members_shape, cost-positive, first_digit, next-at, step-at,
}

module _ (read_double : Bytes → ℕ) (print_double : ℕ → Bytes) where
  abbrev text : JObject → Bytes
  text = object_to_string print_double

  abbrev more : Items → Bytes
  more = more_to_string print_double

  abbrev more_members : Members → Bytes
  more_members = more_members_to_string print_double

  mutual
    unfolding parse object_to_string int_to_string value_str is_space is_digit

    pub parse-at :
        (fuel : ℕ) (v : JObject) (front rest : Bytes)
        → cost v ≤ fuel
        → IsWritable v
        → EndsNumber rest
        → parse read_double fuel (at front (text v ++ rest)) ≡ ok (v, at (front ++ text v) rest)
    parse-at zero v front rest h w e = absurd (omega (arith, cost-positive v))
    parse-at (suc fuel) null front rest h w e =
        rw (get_next_token-at front b'n' (codes "ull" ++ rest) (refl, refl))
          (parse_null-at front rest)
    parse-at (suc fuel) (bool true) front rest h w e =
        rw (get_next_token-at front b't' (codes "rue" ++ rest) (refl, refl))
          (parse_bool-at true front rest)
    parse-at (suc fuel) (bool false) front rest h w e =
        rw (get_next_token-at front b'f' (codes "alse" ++ rest) (refl, refl))
          (parse_bool-at false front rest)
    parse-at (suc fuel) (int (pos n)) front rest h w e =
        let (c, next, first, plain, either) = first_digit n front rest in
        rw (next, plain, either, first) (parse_number-at read_double n front rest w e)
    parse-at (suc fuel) (int (negsuc n)) front rest h w e = absurd w
    parse-at (suc fuel) (double d) front rest h w e = absurd w
    parse-at (suc fuel) (str s) front rest h w e =
        rw (get_next_token-at front b'"' ((s ++ b'"' ∷ []) ++ rest) (refl, refl))
          (parse_string-at s front rest w)
    parse-at (suc zero) (list xs) front rest h w e = absurd (omega arith)
    parse-at (suc (suc fuel)) (list no_items) front rest h w e =
        rw
          (
            get_next_token-at front b'[' (b']' ∷ rest) (refl, refl),
            step-at front b'[' (b']' ∷ rest),
            next-at (front ++ b'[' ∷ []) b']' rest refl,
            step-at (front ++ b'[' ∷ []) b']' rest,
            append_assoc front (b'[' ∷ []) (b']' ∷ []),
          )
          refl
    parse-at (suc (suc fuel)) (list (item x xs)) front rest h w e =
        let tail = more xs ++ (b']' ∷ rest) in
        let (c, next, no_end, _) = peek print_double x (front ++ b'[' ∷ []) tail w.0 in
        rw
          (
            append_assoc (text x ++ more xs) (b']' ∷ []) rest,
            append_assoc (text x) (more xs) (b']' ∷ rest),
            get_next_token-at front b'[' (text x ++ tail) (refl, refl),
            step-at front b'[' (text x ++ tail),
            next,
            no_end,
            list_loop-at fuel no_items x xs (front ++ b'[' ∷ []) rest (omega arith) w,
          )
          (same_end (list (item x xs)) rest (simp append_assoc))
    parse-at (suc zero) (dict m) front rest h w e = absurd (omega arith)
    parse-at (suc (suc fuel)) (dict no_members) front rest h w e =
        rw
          (
            get_next_token-at front b'{' (b'}' ∷ rest) (refl, refl),
            step-at front b'{' (b'}' ∷ rest),
            next-at (front ++ b'{' ∷ []) b'}' rest refl,
            step-at (front ++ b'{' ∷ []) b'}' rest,
            append_assoc front (b'{' ∷ []) (b'}' ∷ []),
          )
          refl
    parse-at (suc (suc fuel)) (dict (member k v m)) front rest h w e =
        let tail = text v ++ (more_members m ++ (b'}' ∷ rest)) in
        rw
          (
            members_shape print_double k v m rest,
            get_next_token-at front b'{' (quoted k ++ (b':' ∷ tail)) (refl, refl),
            step-at front b'{' (quoted k ++ (b':' ∷ tail)),
            get_next_token-at (front ++ b'{' ∷ []) b'"' ((k ++ b'"' ∷ []) ++ (b':' ∷ tail))
                (refl, refl),
            dict_loop-at fuel no_members k v m (front ++ b'{' ∷ []) rest (omega arith) w.1 w.0,
          )
          (same_end (dict (member k v m)) rest (simp append_assoc))

    list_loop-at :
        (fuel : ℕ) (acc : Items) (x : JObject) (xs : Items) (front rest : Bytes)
        → cost_items (item x xs) ≤ fuel
        → AreWritable (item x xs)
        → list_loop read_double fuel acc (at front (text x ++ (more xs ++ (b']' ∷ rest))))
          ≡ ok (
            list (join_items acc (item x xs)),
            at (front ++ (text x ++ (more xs ++ b']' ∷ []))) rest,
          )
    list_loop-at zero acc x xs front rest h w = absurd (omega arith)
    list_loop-at (suc fuel) acc x no_items front rest h w =
        rw
          (
            parse-at fuel x front (b']' ∷ rest) (omega arith) w.0 (refl, refl),
            next-at (front ++ text x) b']' rest refl,
            step-at (front ++ text x) b']' rest,
            append_item-join_items acc x,
            append_assoc front (text x) (b']' ∷ []),
          )
          refl
    list_loop-at (suc fuel) acc x (item y ys) front rest h w =
        let first =
          parse-at fuel x front (more (item y ys) ++ (b']' ∷ rest)) (omega arith) w.0
            (refl, refl) in
        let later =
          list_loop-at fuel (append_item acc x) y ys ((front ++ text x) ++ b',' ∷ []) rest
            (omega arith) w.1 in
        rw
          (
            first,
            append_assoc (text y) (more ys) (b']' ∷ rest),
            next-at (front ++ text x) b',' (text y ++ (more ys ++ (b']' ∷ rest))) refl,
            step-at (front ++ text x) b',' (text y ++ (more ys ++ (b']' ∷ rest))),
            later,
            join_items-append_item acc x (item y ys),
          )
          (same_end (list (join_items acc (item x (item y ys)))) rest (simp append_assoc))

    dict_loop-at :
        (fuel : ℕ) (acc : Members) (k : Bytes) (v : JObject) (m : Members) (front rest : Bytes)
        → cost_members (member k v m) ≤ fuel
        → MembersAreWritable (member k v m)
        → Ascends (join_members acc (member k v m))
        → dict_loop read_double fuel acc
            (at front (quoted k ++ (b':' ∷ (text v ++ (more_members m ++ (b'}' ∷ rest))))))
          ≡ ok (
            dict (join_members acc (member k v m)),
            at (front ++ (quoted k ++ (b':' ∷ (text v ++ (more_members m ++ b'}' ∷ []))))) rest,
          )
    dict_loop-at zero acc k v m front rest h w o = absurd (omega arith)
    dict_loop-at (suc fuel) acc k v no_members front rest h w o =
        let here = ((front ++ quoted k) ++ b':' ∷ []) in
        rw
          (
            parse-at fuel (str k) front (b':' ∷ (text v ++ (b'}' ∷ rest))) (omega arith) w.0
                (refl, refl),
            next-at (front ++ quoted k) b':' (text v ++ (b'}' ∷ rest)) refl,
            step-at (front ++ quoted k) b':' (text v ++ (b'}' ∷ rest)),
            parse-at fuel v here (b'}' ∷ rest) (omega arith) w.1 (refl, refl),
            next-at (here ++ text v) b'}' rest refl,
            step-at (here ++ text v) b'}' rest,
            put_member-join_members k v acc no_members o,
          )
          (same_end (dict (join_members acc (member k v no_members))) rest (simp append_assoc))
    dict_loop-at (suc fuel) acc k v (member j u m) front rest h w o =
        let here = ((front ++ quoted k) ++ b':' ∷ []) in
        let end = quoted j ++ (b':' ∷ (text u ++ (more_members m ++ (b'}' ∷ rest)))) in
        let join = join_members_assoc acc (member k v no_members) (member j u m) in
        let later =
          dict_loop-at fuel (join_members acc (member k v no_members)) j u m
            ((here ++ text v) ++ b',' ∷ []) rest (omega arith) w.2 (subst Ascends (sym join) o) in
        rw
          (
            more_members_shape print_double j u m rest,
            parse-at fuel (str k) front (b':' ∷ (text v ++ (b',' ∷ end))) (omega arith) w.0
                (refl, refl),
            next-at (front ++ quoted k) b':' (text v ++ (b',' ∷ end)) refl,
            step-at (front ++ quoted k) b':' (text v ++ (b',' ∷ end)),
            parse-at fuel v here (b',' ∷ end) (omega arith) w.1 (refl, refl),
            next-at (here ++ text v) b',' end refl,
            step-at (here ++ text v) b',' end,
            put_member-join_members k v acc (member j u m) o,
            later,
            join,
          )
          (same_end (dict (join_members acc (member k v (member j u m)))) rest (simp append_assoc))
