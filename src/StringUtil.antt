-- ===== src/StringUtil.antt =====
-- luce/common/string_util.cpp: joining, splitting, trimming and searching texts.
-- A text is a list of bytes. `std::string::find`, `substr` and the like are the library's, over
-- lists; a `substr` whose count reaches past the end stops there, as in C++.
pub mod Find
pub mod Join
pub mod Split
pub mod Lossless
pub mod Total
pub mod Trim
pub mod Affix
use mathlib.Core.List.{reverse}
use luce.Prelude.{
  ℕ, zero, suc, ◌+◌, ◌-◌, Bool, true, false, not, ◌&&◌, ◌||◌, Option, none, some, List, [], ◌∷◌,
  ◌++◌, leb, ◌==◌, if◌then◌else◌, length, take, drop, Bytes, same, is_prefix, find, Outcome, ok,
  out_of_fuel,
}

-- the sum that `JoinImpl` reserves, one separator too many
unfoldable pub total_size : List Bytes → Bytes → ℕ
total_size [] delim = 0
total_size (item ∷ parts) delim = length item + length delim + total_size parts delim

-- the loop of `JoinImpl`; the flag is `it == parts.begin()`
unfoldable pub join_loop : Bool → Bytes → List Bytes → Bytes → Bytes
join_loop first result [] delim = result
join_loop first result (item ∷ parts) delim =
    join_loop false ((if first then result else result ++ delim) ++ item) parts delim

unfoldable pub join : List Bytes → Bytes → Bytes
unfolding total_size join_loop
join parts delim = if total_size parts delim == 0 then [] else join_loop true [] parts delim

unfoldable pub starts_with : Bytes → Bytes → Bool
starts_with str prefix = leb (length prefix) (length str) && same (take (length prefix) str) prefix

unfoldable pub ends_with : Bytes → Bytes → Bool
ends_with str suffix =
    leb (length suffix) (length str) && same (drop (length str - length suffix) str) suffix

-- str.substr(0, pos), with npos for `none`
abbrev pub before : Option ℕ → Bytes → Bytes
before none current = current
before (some pos) current = take pos current

abbrev pub at_front : Option ℕ → Bool
at_front (some zero) = true
at_front _ = false

-- the end of a round of `Split`, on what is left behind a separator
unfoldable pub split_rest :
    (Bytes → List Bytes → Outcome (List Bytes)) → Bool → Bytes → List Bytes → Outcome (List Bytes)
split_rest again keep_empty [] result = ok (if keep_empty then result ++ [] ∷ [] else result)
split_rest again keep_empty (c ∷ current) result = again (c ∷ current) result

-- the part of a round behind the first `if`: stop at npos, else go on behind the separator
unfoldable pub split_after :
    (Bytes → List Bytes → Outcome (List Bytes))
    → Option ℕ
    → Bytes
    → Bytes
    → Bool
    → List Bytes
    → Outcome (List Bytes)
split_after again none current delim keep_empty result = ok result
split_after again (some pos) current delim keep_empty result =
    split_rest again keep_empty (drop (pos + length delim) current) result

-- `while (true)` of `Split`
unfoldable pub split_loop : Bytes → Bool → ℕ → Bytes → List Bytes → Outcome (List Bytes)
split_loop delim keep_empty zero current result = out_of_fuel
split_loop delim keep_empty (suc fuel) current result =
    let pos = find delim current in
    split_after (split_loop delim keep_empty fuel) pos current delim keep_empty
      (if not (at_front pos) || keep_empty then result ++ before pos current ∷ [] else result)

-- Each round drops a separator, so the text's length bounds the rounds if the separator is not empty.
unfoldable pub split : Bytes → Bytes → Bool → Outcome (List Bytes)
split [] delim keep_empty = ok []
split (c ∷ str) delim keep_empty = split_loop delim keep_empty (suc (length (c ∷ str))) (c ∷ str) []

unfoldable pub contains : Bytes → Bytes → Bool
contains str target =
    if same str target
    then true
    else if same str []
    then false
    else if same target []
    then true
    else elim (find target str) [ none ↦ false | some _ ↦ true ]

-- find_first_not_of(' ')
unfoldable pub find_first_not_space : Bytes → Option ℕ
find_first_not_space [] = none
find_first_not_space (c ∷ s) =
    if c == b' '
    then elim (find_first_not_space s) [ none ↦ none | some i ↦ some (suc i) ]
    else some 0

-- find_last_not_of(' ')
unfoldable pub find_last_not_space : Bytes → Option ℕ
find_last_not_space [] = none
find_last_not_space (c ∷ s) = elim (find_last_not_space s) [
  | some i ↦ some (suc i)
  | none ↦ if c == b' ' then none else some 0
]

-- str.back() == ' ', on a text that is not empty
unfoldable pub ends_in_space : Bytes → Bool
ends_in_space [] = false
ends_in_space (c ∷ []) = c == b' '
ends_in_space (c ∷ d ∷ s) = ends_in_space (d ∷ s)

-- the last two statements of `Trim`; `start` is known to be no npos. The other search cannot
-- fail there, since the text at `start` is no space.
unfoldable pub trim_from : ℕ → Bytes → Bytes
trim_from start str =
    let end_ : ℕ =
      if ends_in_space str
      then elim (find_last_not_space str) [ some i ↦ i | none ↦ 0 ]
      else length str in
    take (end_ - start + 1) (drop start str)

unfoldable pub trim : Bytes → Bytes
trim [] = []
trim (c ∷ str) =
    if c == b' '
    then elim (find_first_not_space (c ∷ str)) [
      | none ↦ []
      | some start ↦ trim_from start (c ∷ str)
    ]
    else trim_from 0 (c ∷ str)

-- the loop of `Replace`. `done` is what stands in front of the place where the search goes on, so
-- target.find(from, p + to.size()) is a search in `rest`. The count falls once a round.
unfoldable pub replace_loop : ℕ → Bytes → Bytes → Bytes → Bytes → Bytes
replace_loop zero done rest from to = done ++ rest
replace_loop (suc count) done rest from to = elim (find from rest) [
  | none ↦ done ++ rest
  | some p ↦ replace_loop count (done ++ (take p rest ++ to)) (drop (p + length from) rest) from to
]

unfoldable pub replace : Bytes → Bytes → Bytes → ℕ → Bytes
replace target from to count = replace_loop count [] target from to
