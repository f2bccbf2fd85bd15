-- ===== src/StringUtil/Affix.antt =====
-- `StartsWith`, `EndsWith`, `Contains` and `Replace` against descriptions by concatenation.
use luce.Prelude.{
  ℕ, zero, suc, ◌+◌, ◌-◌, ◌≤◌, ◌≡◌, ◌↔◌, refl, sym, ap, ◌∙◌, true, some, List, [], ◌∷◌, ◌++◌, arith,
  length, take, drop, Bytes, same, is_prefix, find, append-nil, append_assoc, Bool-cases,
  Option-cases, inl, inr, length-append, take-append, drop-append, take-append-drop, same_iff,
  is_prefix-append, drop_add,
}
use luce.StringUtil.{starts_with, ends_with, contains, replace_loop, replace}
use luce.StringUtil.Find.{find_splits, find_append}
use luce.StringUtil.Join.{joined}
use luce.StringUtil.Split.{Separable}

starts_with_splits :
    (str prefix : Bytes) → starts_with str prefix ≡ true → (r : Bytes) × (str ≡ prefix ++ r)
unfolding starts_with
starts_with_splits str prefix h =
    let e : take (length prefix) str ≡ prefix =
      (same_iff (take (length prefix) str) prefix).0 (ground arith) in
    (
      drop (length prefix) str,
      sym (take-append-drop (length prefix) str) ∙ ap (λ t. t ++ drop (length prefix) str) e,
    )

starts_with-append : (prefix r : Bytes) → starts_with (prefix ++ r) prefix ≡ true
unfolding starts_with
starts_with-append prefix r = ground (
  arith,
  length-append prefix r,
  same_iff (take (length prefix) (prefix ++ r)) prefix,
  take-append prefix r (length prefix) refl,
)

-- `StartsWith` answers whether the text is the prefix with something behind it.
starts_with_iff :
    (str prefix : Bytes) → (starts_with str prefix ≡ true) ↔ ((r : Bytes) × (str ≡ prefix ++ r))
starts_with_iff str prefix =
    (starts_with_splits str prefix, λ (r, e). rw e (starts_with-append prefix r))

ends_with_splits :
    (str suffix : Bytes) → ends_with str suffix ≡ true → (r : Bytes) × (str ≡ r ++ suffix)
unfolding ends_with
ends_with_splits str suffix h =
    let n = length str - length suffix in
    let e : drop n str ≡ suffix = (same_iff (drop n str) suffix).0 (ground arith) in
    (take n str, sym (take-append-drop n str) ∙ ap (λ t. take n str ++ t) e)

ends_with-append : (r suffix : Bytes) → ends_with (r ++ suffix) suffix ≡ true
unfolding ends_with
ends_with-append r suffix =
    let size = length-append r suffix in
    let n = length (r ++ suffix) - length suffix in
    ground (
      arith,
      size,
      same_iff (drop n (r ++ suffix)) suffix,
      drop-append r suffix n (omega (arith, size)),
    )

-- `EndsWith` answers whether the text is the suffix with something in front of it.
ends_with_iff :
    (str suffix : Bytes) → (ends_with str suffix ≡ true) ↔ ((r : Bytes) × (str ≡ r ++ suffix))
ends_with_iff str suffix = (ends_with_splits str suffix, λ (r, e). rw e (ends_with-append r suffix))

-- `find` does not miss an occurrence
find_hits : (p a r : Bytes) → (n : ℕ) × (find p (a ++ (p ++ r)) ≡ some n)
unfolding find
find_hits [] [] [] = (0, refl)
find_hits [] [] (x ∷ r) = (0, refl)
find_hits (x ∷ p) [] r = (0, rw (is_prefix-append (x ∷ p) r))
find_hits p (c ∷ a) r = elim (Bool-cases (is_prefix p (c ∷ (a ++ (p ++ r))))) [
  | inl hit ↦ (0, rw hit)
  | inr miss ↦ let (n, e) = find_hits p a r in (suc n, rw (miss, e))
]

contains_splits :
    (str target : Bytes)
    → contains str target ≡ true
    → (a : Bytes) × (r : Bytes) × (str ≡ a ++ (target ++ r))
unfolding contains
contains_splits str target h = elim (Option-cases (find target str)) [
  | inr (n, found) ↦ (take n str, drop (length target) (drop n str), find_splits target str n found)
  | inl lost ↦ elim (Bool-cases (same str target)) [
    | inl whole ↦ ([], [], (same_iff str target).0 whole ∙ sym (append-nil target))
    | inr part ↦ elim (Bool-cases (same target [])) [
      | inl none_ ↦ ([], str, rw ((same_iff target []).0 none_))
      | inr some_ ↦ absurd (ground arith)
    ]
  ]
]

-- nothing in a text that is empty
middle-nil : (a target r : Bytes) → a ++ (target ++ r) ≡ [] → a ++ (target ++ r) ≡ target
middle-nil [] [] r h = h
middle-nil [] (x ∷ t) r h = cc
middle-nil (x ∷ a) t r h = cc

pub contains-append : (a target r : Bytes) → contains (a ++ (target ++ r)) target ≡ true
unfolding contains
contains-append a target r =
    let (n, hit) = find_hits target a r in
    let str = a ++ (target ++ r) in
    ground (arith, hit, same_iff str target, same_iff str [], middle-nil a target r)

-- `Contains` answers whether the target stands somewhere in the text.
pub contains_iff :
    (str target : Bytes)
    → (contains str target ≡ true) ↔ ((a : Bytes) × (r : Bytes) × (str ≡ a ++ (target ++ r)))
contains_iff str target =
    (contains_splits str target, λ (a, r, e). rw e (contains-append a target r))

replace_loop-joined :
    (from to : Bytes) (parts : List Bytes) (count : ℕ) (done : Bytes)
    → Separable from true parts
    → length parts ≤ count
    → replace_loop count done (joined from parts) from to ≡ done ++ joined to parts
unfolding replace_loop
replace_loop-joined from to [] count done s h = absurd s
replace_loop-joined from to (p ∷ ps) zero done s h = absurd (omega arith)
replace_loop-joined from to (p ∷ []) (suc count) done s h = rw (s.0, replace_loop)
replace_loop-joined from to (p ∷ q ∷ ps) (suc count) done s h =
    let rest = joined from (q ∷ ps) in
    let left : drop (length p + length from) (p ++ (from ++ rest)) ≡ rest =
      drop_add (length p) (length from) (p ++ (from ++ rest))
      ∙ ap (drop (length from)) (drop-append p (from ++ rest) (length p) refl)
      ∙ drop-append from rest (length from) refl in
    rw
      (
        find_append from p rest s.0,
        take-append p (from ++ rest) (length p) refl,
        left,
        replace_loop,
      )
      (replace_loop-joined from to (q ∷ ps) count (done ++ (p ++ to)) s.2 (omega arith)
        ∙ simp append_assoc)

-- With a count that reaches, `Replace` puts `to` in the place of each `from` that stands between the
-- parts of a text, where no `from` ends inside a part and the last part holds none.
replace-joined :
    (from to : Bytes) (parts : List Bytes) (count : ℕ)
    → Separable from true parts
    → length parts ≤ count
    → replace (joined from parts) from to count ≡ joined to parts
unfolding replace
replace-joined from to parts count s h = replace_loop-joined from to parts count [] s h
