-- ===== src/Timers/Swaps.antt =====
-- Reading a list after a write, a swap or an append.
use luce.Prelude.{
  ℕ, zero, suc, ◌<◌, ◌≡◌, refl, ap, ◌∙◌, Bool, true, false, some, inl, inr, List, [], ◌∷◌, ◌++◌,
  ◌==◌, if◌then◌else◌, length, get_elem?, set, arith, length-set, Option-cases,
}
use luce.Timers.{Timer, swap, expiry_of, expiry_at}

module _ {ℓ} {A : Type ℓ} where
  pub get_elem?-set :
      (xs : List A) (i k : ℕ) (v : A)
      → i < length xs
      → get_elem? (set xs i v) k ≡ (if k == i then some v else get_elem? xs k)
  get_elem?-set [] i k v h = absurd (omega (arith, h))
  get_elem?-set (x ∷ xs) zero zero v h = refl
  get_elem?-set (x ∷ xs) zero (suc k) v h = ground arith
  get_elem?-set (x ∷ xs) (suc i) zero v h = ground arith
  get_elem?-set (x ∷ xs) (suc i) (suc k) v h = get_elem?-set xs i k v (omega arith) ∙ ground arith

  pub get_elem?-below : (xs : List A) (i : ℕ) → i < length xs → (a : A) × (get_elem? xs i ≡ some a)
  get_elem?-below [] i h = absurd (omega arith)
  get_elem?-below (x ∷ xs) zero h = (x, refl)
  get_elem?-below (x ∷ xs) (suc i) h = get_elem?-below xs i (omega arith)

  pub get_elem?-append :
      (xs ys : List A) (i : ℕ) → i < length xs → get_elem? (xs ++ ys) i ≡ get_elem? xs i
  get_elem?-append [] ys i h = absurd (omega arith)
  get_elem?-append (x ∷ xs) ys zero h = refl
  get_elem?-append (x ∷ xs) ys (suc i) h = get_elem?-append xs ys i (omega arith)

  pub length-swap : (i j : ℕ) (xs : List A) → length (swap i j xs) ≡ length xs
  unfolding swap
  length-swap i j xs = elim (Option-cases (get_elem? xs i)) [
    | inl e ↦ rw (swap, e) refl
    | inr (a, e) ↦ elim (Option-cases (get_elem? xs j)) [
      | inl f ↦ rw (swap, e, f) refl
      | inr (b, f) ↦ rw (swap, e, f) (length-set (set xs i b) j a ∙ length-set xs i b)
    ]
  ]

  pub get_elem?-swap :
      (xs : List A) (i j k : ℕ)
      → i < length xs
      → j < length xs
      → get_elem? (swap i j xs) k
        ≡ (if k == j then get_elem? xs i else if k == i then get_elem? xs j else get_elem? xs k)
  unfolding swap
  get_elem?-swap xs i j k hi hj =
      let (a, e) = get_elem?-below xs i hi in
      let (b, f) = get_elem?-below xs j hj in
      let inside : j < length (set xs i b) = omega (arith, hj, length-set xs i b) in
      rw (swap, e, f)
        (get_elem?-set (set xs i b) j k a inside
          ∙ ap (λ o. if k == j then some a else o) (get_elem?-set xs i k b hi))

ap-if {ℓ κ} :
    {A : Type ℓ} {B : Type κ} (f : A → B) (b : Bool) (x y : A)
    → f (if b then x else y) ≡ (if b then f x else f y)
ap-if f true x y = refl
ap-if f false x y = refl

module _ {Task : Type 0} where
  pub expiry_at-swap :
      (ts : List (Timer Task)) (i j k : ℕ)
      → i < length ts
      → j < length ts
      → expiry_at (swap i j ts) k
        ≡ (if k == j then expiry_at ts i else if k == i then expiry_at ts j else expiry_at ts k)
  unfolding expiry_at
  expiry_at-swap ts i j k hi hj =
      ap expiry_of (get_elem?-swap ts i j k hi hj)
      ∙ ap-if expiry_of (k == j) (get_elem? ts i) _
      ∙ ap (λ n. if k == j then expiry_of (get_elem? ts i) else n)
          (ap-if expiry_of (k == i) (get_elem? ts j) (get_elem? ts k))
