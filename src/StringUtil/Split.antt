-- ===== src/StringUtil/Split.antt =====
-- `Split` reads back what `Join` wrote.
use luce.Prelude.{
  ℕ, zero, suc, ◌+◌, ◌<◌, ◌≡◌, ◌≢◌, refl, ap, ◌∙◌, ◌⊎◌, Bool, true, not, ◌||◌, none, some, List, [],
  ◌∷◌, ◌++◌, arith, if◌then◌else◌, length, take, drop, Bytes, find, Outcome, ok, append_assoc, inl,
  inr, length-append, take-append, drop-append, drop_add, length-drop,
}
use luce.StringUtil.{at_front, split_rest, split_after, split_loop, split, join}
use luce.StringUtil.Find.{find_splits, find_append}
use luce.StringUtil.Join.{joined, join-joined}

-- a part that a round keeps: every part if empty ones are kept
abbrev Kept : Bool → Bytes → Type 0
Kept keep p = (keep ≡ true) ⊎ (p ≢ [])

-- No separator ends before its part does, the last part has none, and empty parts are kept.
abbrev pub Separable : Bytes → Bool → List Bytes → Type 0
Separable d keep [] = ⊥
Separable d keep (p ∷ []) = (find d p ≡ none) × Kept keep p
Separable d keep (p ∷ q ∷ ps) =
    (find d (p ++ d) ≡ some (length p)) × Kept keep p × Separable d keep (q ∷ ps)

split_rest_lem :
    (again : Bytes → List Bytes → Outcome (List Bytes)) (keep : Bool) (current : Bytes)
    (parts result : List Bytes)
    → (current ≡ [] → (keep ≡ true) × (parts ≡ [] ∷ []))
    → (current ≢ [] → again current result ≡ ok (result ++ parts))
    → split_rest again keep current result ≡ ok (result ++ parts)
unfolding split_rest
split_rest_lem again keep [] parts result h k = ground (arith, h refl)
split_rest_lem again keep (c ∷ current) parts result h k = k (λ e. cc)

joined-nil :
    (d : Bytes) (keep : Bool) (parts : List Bytes)
    → d ≢ []
    → Separable d keep parts
    → joined d parts ≡ []
    → (keep ≡ true) × (parts ≡ [] ∷ [])
joined-nil d keep [] ne s h = absurd s
joined-nil d keep ([] ∷ []) ne (f, inl k) h = (k, refl)
joined-nil d keep ([] ∷ []) ne (f, inr k) h = absurd (k refl)
joined-nil d keep ((x ∷ p) ∷ []) ne s h = cc
joined-nil [] keep (p ∷ q ∷ ps) ne s h = absurd (ne refl)
joined-nil (x ∷ d) keep ([] ∷ q ∷ ps) ne s h = cc
joined-nil (x ∷ d) keep ((y ∷ p) ∷ q ∷ ps) ne s h = cc

-- the first `if` of a round keeps the part
keep_round :
    (keep : Bool) (p : Bytes) (result : List Bytes)
    → Kept keep p
    → (if not (at_front (some (length p))) || keep then result ++ p ∷ [] else result)
      ≡ result ++ p ∷ []
keep_round keep [] result (inl k) = ground arith
keep_round keep [] result (inr k) = absurd (k refl)
keep_round keep (x ∷ p) result k = refl

length-pos : (d : Bytes) → d ≢ [] → 0 < length d
length-pos [] ne = absurd (ne refl)
length-pos (x ∷ d) ne = omega arith

split_loop-joined :
    (d : Bytes) (keep : Bool) (parts : List Bytes) (fuel : ℕ) (result : List Bytes)
    → d ≢ []
    → Separable d keep parts
    → length (joined d parts) < fuel
    → split_loop d keep fuel (joined d parts) result ≡ ok (result ++ parts)
unfolding split_loop split_after
split_loop-joined d keep [] fuel result ne s h = absurd s
split_loop-joined d keep (p ∷ parts) zero result ne s h = absurd (omega arith)
split_loop-joined d keep (p ∷ []) (suc fuel) result ne s h = rw (s.0, split_after)
split_loop-joined d keep (p ∷ q ∷ ps) (suc fuel) result ne s h =
    let rest = joined d (q ∷ ps) in
    let cut : take (length p) (p ++ (d ++ rest)) ≡ p = take-append p (d ++ rest) (length p) refl in
    let left : drop (length p + length d) (p ++ (d ++ rest)) ≡ rest =
      drop_add (length p) (length d) (p ++ (d ++ rest))
      ∙ ap (drop (length d)) (drop-append p (d ++ rest) (length p) refl)
      ∙ drop-append d rest (length d) refl in
    let next : split_rest (split_loop d keep fuel) keep rest (result ++ p ∷ [])
        ≡ ok ((result ++ p ∷ []) ++ q ∷ ps) =
      split_rest_lem (split_loop d keep fuel) keep rest (q ∷ ps) (result ++ p ∷ [])
        (joined-nil d keep (q ∷ ps) ne s.2)
        (λ _.
          split_loop-joined d keep (q ∷ ps) fuel (result ++ p ∷ []) ne s.2 (
            omega
              (arith, h, length-append p (d ++ rest), length-append d rest, length-pos d ne))) in
    rw (find_append d p rest s.0, cut, keep_round keep p result s.1, split_after, left)
      (next ∙ ap ok (append_assoc result (p ∷ []) (q ∷ ps)))

pub split-split_loop :
    (t d : Bytes) (keep : Bool) → t ≢ [] → split t d keep ≡ split_loop d keep (suc (length t)) t []
unfolding split
split-split_loop [] d keep ne = absurd (ne refl)
split-split_loop (c ∷ t) d keep ne = refl

-- `Split` reads back the parts that were joined, if no separator ends inside a part.
pub split-joined :
    (d : Bytes) (keep : Bool) (parts : List Bytes)
    → d ≢ []
    → Separable d keep parts
    → joined d parts ≢ []
    → split (joined d parts) d keep ≡ ok parts
split-joined d keep parts ne s text =
    split-split_loop (joined d parts) d keep text
    ∙ split_loop-joined d keep parts (suc (length (joined d parts))) [] ne s (omega arith)

-- what a round leaves is shorter, since the separator is not empty
pub split_loop-falls :
    (d current : Bytes) (n : ℕ)
    → d ≢ []
    → find d current ≡ some n
    → length (drop (n + length d) current) < length current
split_loop-falls d current n ne found =
    let size = ap length (find_splits d current n found) in
    let whole = length-append (take n current) (d ++ drop (length d) (drop n current)) in
    omega (
      arith,
      size,
      whole,
      length-append d (drop (length d) (drop n current)),
      length-pos d ne,
      length-drop (n + length d) current,
    )

-- `Join` followed by `Split` gives the parts back, where no separator ends inside a part, the last
-- part holds none, empty parts are kept or absent, and the joined text is not empty.
split-join :
    (parts : List Bytes) (d : Bytes) (keep : Bool)
    → d ≢ []
    → Separable d keep parts
    → join parts d ≢ []
    → split (join parts d) d keep ≡ ok parts
split-join parts d keep ne s text =
    rw join-joined (split-joined d keep parts ne s (λ e. text (join-joined parts d ∙ e)))
