-- ===== src/StringUtil/Find.antt =====
-- Laws of `find`: where the separator of a text is found.
use luce.Prelude.{
  ℕ, zero, suc, ◌≤◌, ◌≡◌, refl, Bool, true, not, ◌&&◌, none, some, [], ◌∷◌, ◌++◌, arith, ◌==◌,
  length, take, drop, Bytes, is_prefix, find, is_prefix_splits, is_prefix-append, length-append,
  append-nil, append_assoc,
}

-- A hit is an occurrence: the text is what stands before, the needle and what stands behind.
pub find_splits :
    (p s : Bytes) (n : ℕ) → find p s ≡ some n → s ≡ take n s ++ (p ++ drop (length p) (drop n s))
unfolding find
find_splits p [] zero h = ground (arith, is_prefix_splits p [])
find_splits p [] (suc n) h = ground arith
find_splits p (c ∷ s) zero h = ground (arith, is_prefix_splits p (c ∷ s))
find_splits p (c ∷ s) (suc n) h = ground (arith, find_splits p s n)

-- An occurrence that fits in `s` is not changed by what follows.
is_prefix-append_right :
    (p s r : Bytes) → length p ≤ length s → is_prefix p (s ++ r) ≡ is_prefix p s
unfolding is_prefix
is_prefix-append_right [] s r h = refl
is_prefix-append_right (x ∷ p) [] r h = absurd (omega arith)
is_prefix-append_right (x ∷ p) (c ∷ s) r h = ground (arith, is_prefix-append_right p s r)

-- A separator that first occurs right behind `a` is found there, whatever follows it.
pub find_append :
    (p a r : Bytes) → find p (a ++ p) ≡ some (length a) → find p (a ++ (p ++ r)) ≡ some (length a)
unfolding find
find_append [] [] [] h = refl
find_append [] [] (x ∷ r) h = refl
find_append (x ∷ p) [] r h = rw (is_prefix-append (x ∷ p) r)
find_append p (c ∷ a) r h =
    let kept = is_prefix-append_right p (c ∷ (a ++ p)) r (omega (arith, length-append a p)) in
    ground (arith, kept, append_assoc a p r, find_append p a r)

-- The text has no byte `c`.
abbrev pub lacks : ℕ → Bytes → Bool
lacks c [] = true
lacks c (x ∷ s) = not (c == x) && lacks c s

-- A text without the separator's first byte has no occurrence, and ends where a separator follows.
pub find-lacks : (c : ℕ) (p s : Bytes) → lacks c s ≡ true → find (c ∷ p) s ≡ none
unfolding find
find-lacks c p [] h = refl
find-lacks c p (x ∷ s) h = ground (arith, find-lacks c p s)

pub find_append-lacks :
    (c : ℕ) (p s : Bytes) → lacks c s ≡ true → find (c ∷ p) (s ++ c ∷ p) ≡ some (length s)
unfolding find
find_append-lacks c p [] h = ground (arith, is_prefix-append (c ∷ p) [], append-nil p)
find_append-lacks c p (x ∷ s) h = ground (arith, find_append-lacks c p s)
