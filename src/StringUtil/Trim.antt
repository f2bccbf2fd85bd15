-- ===== src/StringUtil/Trim.antt =====
-- `Trim` takes away exactly the spaces at both ends.
use luce.Prelude.{
  ℕ, zero, suc, ◌+◌, ◌≡◌, ◌≢◌, refl, sym, ap, Bool, true, false, none, some, [], ◌∷◌, ◌++◌, arith,
  ◌==◌, length, take, drop, replicate, Bytes, append-nil, Bool-cases, Option-cases, inl, inr,
  length-append, drop-append, length-replicate, take_all,
}
use luce.StringUtil.{find_first_not_space, find_last_not_space, ends_in_space, trim_from, trim}

abbrev pub spaces : ℕ → Bytes
spaces n = replicate n b' '

abbrev pub starts_in_space : Bytes → Bool
starts_in_space [] = false
starts_in_space (c ∷ s) = c == b' '

find_first_none : (s : Bytes) → find_first_not_space s ≡ none → s ≡ spaces (length s)
unfolding find_first_not_space
find_first_none [] h = refl
find_first_none (c ∷ s) h = ground (arith, find_first_none s)

-- the text from the first byte that is no space
abbrev FirstAt : Bytes → ℕ → Type 0
FirstAt s i = (c : ℕ) × (m : Bytes) × (s ≡ spaces i ++ (c ∷ m)) × ((c == b' ') ≡ false)

find_first_some : (s : Bytes) (i : ℕ) → find_first_not_space s ≡ some i → FirstAt s i
unfolding find_first_not_space
find_first_some [] i h = cc
find_first_some (c ∷ s) i h = elim (Bool-cases (c == b' ')) [
  | inr word ↦ (c, s, ground arith, word)
  | inl space ↦ elim (Option-cases (find_first_not_space s)) [
    | inl lost ↦ absurd (ground arith)
    | inr (j, found) ↦
        let e : i ≡ suc j = ground arith in
        let (d, m, cut, word) = find_first_some s j found in (d, m, rw e (ground arith), word)
  ]
]

find_last-spaces :
    (n : ℕ) (m : Bytes) (j : ℕ)
    → find_last_not_space m ≡ some j
    → find_last_not_space (spaces n ++ m) ≡ some (n + j)
unfolding find_last_not_space
find_last-spaces zero m j h = ground arith
find_last-spaces (suc n) m j h = ground (arith, find_last-spaces n m j h)

ends_in_space-spaces :
    (n c : ℕ) (m : Bytes) → ends_in_space (spaces n ++ (c ∷ m)) ≡ ends_in_space (c ∷ m)
unfolding ends_in_space
ends_in_space-spaces zero c m = refl
ends_in_space-spaces (suc zero) c m = refl
ends_in_space-spaces (suc (suc n)) c m = ends_in_space-spaces (suc n) c m

find_last_none : (s : Bytes) → find_last_not_space s ≡ none → s ≡ spaces (length s)
unfolding find_last_not_space
find_last_none [] h = refl
find_last_none (c ∷ s) h = ground (arith, find_last_none s)

-- the text up to the last byte that is no space
find_last_some :
    (s : Bytes) (j : ℕ)
    → find_last_not_space s ≡ some j
    → (k : ℕ) × (s ≡ take (suc j) s ++ spaces k) × (ends_in_space (take (suc j) s) ≡ false)
unfolding find_last_not_space ends_in_space
find_last_some [] j h = cc
find_last_some (c ∷ []) j h = let e : j ≡ 0 = ground arith in rw e (0, refl, ground arith)
find_last_some (c ∷ d ∷ s) j h = elim (Option-cases (find_last_not_space (d ∷ s))) [
  | inr (i, found) ↦
      let e : j ≡ suc i = ground arith in
      let (k, cut, word) = find_last_some (d ∷ s) i found in rw e (k, ap (◌∷◌ c) cut, word)
  | inl lost ↦
      let e : j ≡ 0 = ground arith in
      rw e (suc (length s), ap (◌∷◌ c) (find_last_none (d ∷ s) lost), ground arith)
]

-- a text with a last byte that is no space has a word for `find_last_not_of`
find_last_none_word : (c : ℕ) (m : Bytes) → (c == b' ') ≡ false → find_last_not_space (c ∷ m) ≢ none
unfolding find_last_not_space
find_last_none_word c m word = ground arith

word-ends : (s : Bytes) → s ≡ s ++ spaces 0
word-ends s = sym (append-nil s)

-- What `Trim` returns: the text without the spaces at its ends, and nothing else taken away.
abbrev pub Trimmed : Bytes → Bytes → Type 0
Trimmed str r =
    (a : ℕ) × (k : ℕ) × (str ≡ spaces a ++ (r ++ spaces k))
    × (starts_in_space r ≡ false)
    × (ends_in_space r ≡ false)

module _ (a c : ℕ) (m : Bytes) where
  dropped : drop a (spaces a ++ (c ∷ m)) ≡ c ∷ m
  dropped = drop-append (spaces a) (c ∷ m) a (sym (length-replicate a b' '))

  trim_from_word : ends_in_space (c ∷ m) ≡ false → trim_from a (spaces a ++ (c ∷ m)) ≡ c ∷ m
  unfolding trim_from
  trim_from_word h =
      rw (ends_in_space-spaces a c m, h, dropped)
        (take_all _ (c ∷ m)
          (omega (arith, length-append (spaces a) (c ∷ m), length-replicate {A = ℕ} a b' ')))

  trim_from_cut :
      (j : ℕ)
      → ends_in_space (c ∷ m) ≡ true
      → find_last_not_space (c ∷ m) ≡ some j
      → trim_from a (spaces a ++ (c ∷ m)) ≡ take (suc j) (c ∷ m)
  unfolding trim_from
  trim_from_cut j h f =
      rw (ends_in_space-spaces a c m, h, find_last-spaces a (c ∷ m) j f, dropped)
        (ap (λ n. take n (c ∷ m)) {y = suc j} (omega arith))

  trim_from-Trimmed :
      (c == b' ') ≡ false → Trimmed (spaces a ++ (c ∷ m)) (trim_from a (spaces a ++ (c ∷ m)))
  trim_from-Trimmed word = elim (Bool-cases (ends_in_space (c ∷ m))) [
    | inr h ↦ rw (trim_from_word h) (a, 0, ap (λ t. spaces a ++ t) (word-ends (c ∷ m)), word, h)
    | inl h ↦ elim (Option-cases (find_last_not_space (c ∷ m))) [
      | inl lost ↦ absurd (find_last_none_word c m word lost)
      | inr (j, found) ↦
          let (k, cut, end_) = find_last_some (c ∷ m) j found in
          rw (trim_from_cut j h found) (a, k, ap (λ t. spaces a ++ t) cut, word, end_)
    ]
  ]

-- `Trim` returns the text between the spaces at its two ends, which starts and ends with no space.
trim-Trimmed : (str : Bytes) → Trimmed str (trim str)
unfolding trim
trim-Trimmed [] = (0, 0, refl, refl, unfold ends_in_space in refl)
trim-Trimmed (c ∷ str) = elim (Bool-cases (c == b' ')) [
  | inr word ↦ rw word (trim_from-Trimmed 0 c str word)
  | inl space ↦ elim (Option-cases (find_first_not_space (c ∷ str))) [
    | inl lost ↦
        rw (space, lost, trim)
          (0, length (c ∷ str), find_first_none (c ∷ str) lost, refl, unfold ends_in_space in refl)
    | inr (i, found) ↦
        let (d, m, cut, word) = find_first_some (c ∷ str) i found in
        rw (space, found, trim, cut) (trim_from-Trimmed i d m word)
  ]
]
