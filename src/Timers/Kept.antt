-- ===== src/Timers/Kept.antt =====
-- Erase loses no other timer: swaps keep what a vector holds.
use luce.Prelude.{
  ℕ, zero, suc, ◌-◌, ◌<◌, ◌≡◌, ◌≢◌, refl, ◌∙◌, ◌+◌, ◌*◌, true, false, some, List, [], ◌∷◌, ◌==◌,
  if◌then◌else◌, length, get_elem?, arith, inl, inr, Bool-cases, Option-cases,
}
use luce.Timers.{Timer, swap, smaller_index, heapify_down, erase}
use luce.Timers.Swaps.{get_elem?-swap, length-swap}
use luce.Timers.Erasing.{moved, length-moved, get_elem?-take}

-- a place of the vector holds the value
abbrev pub Holds {ℓ} : {A : Type ℓ} → List A → A → Type ℓ
Holds xs a = (i : ℕ) × (i < length xs) × (get_elem? xs i ≡ some a)

pub below_length {ℓ} :
    {A : Type ℓ} (xs : List A) (i : ℕ) (a : A) → get_elem? xs i ≡ some a → i < length xs
below_length [] i a e = absurd (cc)
below_length (x ∷ xs) zero a e = omega arith
below_length (x ∷ xs) (suc i) a e = omega (arith, below_length xs i a e)

same_number : (n : ℕ) → (n == n) ≡ true
same_number n = ground arith

-- where the swap of i and j moves the place x
abbrev place : ℕ → ℕ → ℕ → ℕ
place i j x = if x == i then j else if x == j then i else x

module _ {A : Type 0} where
  swap-at :
      (xs : List A) (i j x : ℕ) (a : A)
      → i < length xs
      → j < length xs
      → get_elem? xs x ≡ some a
      → get_elem? (swap i j xs) (place i j x) ≡ some a
  swap-at xs i j x a hi hj e =
      let found = get_elem?-swap xs i j (place i j x) hi hj in
      elim (Bool-cases (x == i)) [
        | inl first ↦
            let same : i ≡ x = ground arith in found ∙ rw first (rw (same_number j) (rw same e))
        | inr other ↦ elim (Bool-cases (x == j)) [
          | inl second ↦
              let same : j ≡ x = ground arith in
              let apart : (i == j) ≡ false = ground arith in
              found ∙ rw (other, second) (rw (apart, same_number i) (rw same e))
          | inr third ↦ found ∙ rw (other, third) (rw (third, other) e)
        ]
      ]

  swap-Holds : (xs : List A) (i j : ℕ) (a : A) → Holds xs a → Holds (swap i j xs) a
  unfolding swap
  swap-Holds xs i j a h = elim (Option-cases (get_elem? xs i)) [
    | inl out ↦ rw (swap, out) h
    | inr (b, e) ↦ elim (Option-cases (get_elem? xs j)) [
      | inl out ↦ rw (swap, e, out) h
      | inr (c, f) ↦
          let at = swap-at xs i j h.0 a (below_length xs i b e) (below_length xs j c f) h.2 in
          (place i j h.0, below_length (swap i j xs) (place i j h.0) a at, at)
    ]
  ]

module _ {Task : Type 0} where
  heapify_down-Holds :
      (fuel : ℕ) (ts : List (Timer Task)) (j : ℕ) (t : Timer Task)
      → Holds ts t
      → Holds (heapify_down fuel ts j) t
  unfolding heapify_down
  heapify_down-Holds zero ts j t h = h
  heapify_down-Holds (suc fuel) ts j t h =
      let s : ℕ = smaller_index ts (j * 2 + 2) (smaller_index ts (j * 2 + 1) j) in
      let later = heapify_down-Holds fuel (swap s j ts) s t (swap-Holds ts s j t h) in
      elim (Bool-cases (s == j)) [ inl e ↦ rw e h | inr e ↦ rw e later ]

  length-heapify_down :
      (fuel : ℕ) (ts : List (Timer Task)) (j : ℕ) → length (heapify_down fuel ts j) ≡ length ts
  unfolding heapify_down
  length-heapify_down zero ts j = refl
  length-heapify_down (suc fuel) ts j =
      let s : ℕ = smaller_index ts (j * 2 + 2) (smaller_index ts (j * 2 + 1) j) in
      let later = length-heapify_down fuel (swap s j ts) s ∙ length-swap s j ts in
      elim (Bool-cases (s == j)) [ inl e ↦ rw e refl | inr e ↦ rw e later ]

  moved-Holds :
      (index x : ℕ) (ts : List (Timer Task)) (t : Timer Task)
      → index < length ts
      → x < length ts
      → x ≢ index
      → get_elem? ts x ≡ some t
      → Holds (moved index ts) t
  moved-Holds index x ts t inside l ne e =
      let y : ℕ = place index (length ts - 1) x in
      let at = swap-at ts index (length ts - 1) x t inside (omega (arith, inside)) e in
      let below : y < length ts - 1 = ground arith in
      (
        y,
        omega (arith, length-moved index ts, below),
        get_elem?-take (swap index (length ts - 1) ts) (length ts - 1) y below ∙ at,
      )

  -- Erase takes one timer out, and those at all other places are still there.
  pub erase-Holds :
      (index x : ℕ) (ts : List (Timer Task)) (t : Timer Task)
      → index < length ts
      → x < length ts
      → x ≢ index
      → get_elem? ts x ≡ some t
      → Holds (erase index ts) t
  unfolding erase
  erase-Holds index x ts t inside l ne e =
      heapify_down-Holds (length (moved index ts)) (moved index ts) index t
        (moved-Holds index x ts t inside l ne e)

  pub length-erase : (index : ℕ) (ts : List (Timer Task)) → length (erase index ts) ≡ length ts - 1
  unfolding erase
  length-erase index ts =
      length-heapify_down (length (moved index ts)) (moved index ts) index ∙ length-moved index ts
