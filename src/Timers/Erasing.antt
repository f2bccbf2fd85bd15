-- ===== src/Timers/Erasing.antt =====
-- Erase, by which RemoveTimer and pop take a timer out: the last timer moves to its place and sinks.
-- It does not rise, so the order is kept exactly where it need not.
use luce.Prelude.{
  ℕ, zero, suc, ◌+◌, ◌-◌, ◌*◌, ◌/◌, ◌≤◌, ◌<◌, ◌≡◌, ◌≢◌, refl, sym, ◌∙◌, ap, true, false, List, [],
  ◌∷◌, ltb, ◌==◌, if◌then◌else◌, length, get_elem?, take, arith, inl, inr, Bool-cases, subst,
  length-take,
}
use luce.Timers.{Timer, swap, expiry_of, expiry_at, smaller_index, heapify_down, erase}
use luce.Timers.Swaps.{expiry_at-swap, length-swap}
use luce.Timers.Heap.{IsHeap}
use luce.Timers.Sinking.{DownBut, heapify_down-IsHeap}

pub get_elem?-take {ℓ} :
    {A : Type ℓ} (xs : List A) (n i : ℕ) → i < n → get_elem? (take n xs) i ≡ get_elem? xs i
get_elem?-take xs zero i h = absurd (omega arith)
get_elem?-take [] (suc n) i h = refl
get_elem?-take (x ∷ xs) (suc n) zero h = refl
get_elem?-take (x ∷ xs) (suc n) (suc i) h = get_elem?-take xs n i (omega arith)

module _ {Task : Type 0} where
  -- what is left before HeapifyDown
  abbrev pub moved : ℕ → List (Timer Task) → List (Timer Task)
  moved index ts = take (length ts - 1) (swap index (length ts - 1) ts)

  pub length-moved : (index : ℕ) (ts : List (Timer Task)) → length (moved index ts) ≡ length ts - 1
  length-moved index ts = omega (
    arith,
    length-take (length ts - 1) (swap index (length ts - 1) ts),
    length-swap index (length ts - 1) ts,
  )

  expiry_at-moved :
      (index : ℕ) (ts : List (Timer Task)) (x : ℕ)
      → index < length ts
      → x < length ts - 1
      → expiry_at (moved index ts) x
        ≡ (if x == index then expiry_at ts (length ts - 1) else expiry_at ts x)
  unfolding expiry_at
  expiry_at-moved index ts x inside l =
      let not_last : (x == (length ts - 1)) ≡ false = ground arith in
      ap expiry_of (get_elem?-take (swap index (length ts - 1) ts) (length ts - 1) x l)
      ∙ expiry_at-swap ts index (length ts - 1) x inside (omega (arith, inside))
      ∙ rw not_last refl

  kept :
      (index : ℕ) (ts : List (Timer Task)) (x : ℕ)
      → index < length ts
      → x < length ts - 1
      → x ≢ index
      → expiry_at (moved index ts) x ≡ expiry_at ts x
  kept index ts x inside l ne =
      let other : (x == index) ≡ false = ground arith in
      expiry_at-moved index ts x inside l ∙ rw other refl

  taken :
      (index : ℕ) (ts : List (Timer Task)) (x : ℕ)
      → index < length ts
      → x < length ts - 1
      → x ≡ index
      → expiry_at (moved index ts) x ≡ expiry_at ts (length ts - 1)
  taken index ts x inside l e =
      let same : (x == index) ≡ true = ground arith in
      expiry_at-moved index ts x inside l ∙ rw same refl

  -- the timer at this index may take the last one's time
  abbrev pub MayTake : ℕ → List (Timer Task) → Type 0
  MayTake zero ts = Unit
  MayTake (suc p) ts = expiry_at ts (p / 2) ≤ expiry_at ts (length ts - 1)

  at_parent :
      (index p : ℕ) (ts : List (Timer Task))
      → index ≡ suc p
      → MayTake index ts
      → expiry_at ts (p / 2) ≤ expiry_at ts (length ts - 1)
  at_parent zero p ts e h = absurd (omega (arith, e))
  at_parent (suc q) p ts e h =
      let same : q ≡ p = omega (arith, e) in
      subst (λ x. expiry_at ts (x / 2) ≤ expiry_at ts (length ts - 1)) same h

  moved-DownBut :
      (index : ℕ) (ts : List (Timer Task))
      → index < length ts
      → IsHeap ts
      → MayTake index ts
      → DownBut index (length ts - 1) (expiry_at (moved index ts))
  moved-DownBut index ts inside h may = (a, b)
    where
      a :
          (i : ℕ)
          → suc i < length ts - 1
          → i / 2 ≢ index
          → expiry_at (moved index ts) (i / 2) ≤ expiry_at (moved index ts) (suc i)
      a i l ne =
          let up = kept index ts (i / 2) inside (omega (arith, l)) ne in
          elim (Bool-cases (suc i == index)) [
            | inl here ↦
                let same : suc i ≡ index = ground arith in
                rw (up, taken index ts (suc i) inside l same) (at_parent index i ts (sym same) may)
            | inr there ↦
                rw (up, kept index ts (suc i) inside l (ground arith)) (h i (omega (arith, l)))
          ]

      b :
          (i p : ℕ)
          → suc i < length ts - 1
          → i / 2 ≡ index
          → index ≡ suc p
          → expiry_at (moved index ts) (p / 2) ≤ expiry_at (moved index ts) (suc i)
      b i p l e f =
          let up = kept index ts (p / 2) inside (omega (arith, l, e, f)) (omega (arith, f)) in
          let here = kept index ts (suc i) inside l (omega (arith, e)) in
          let first : expiry_at ts (p / 2) ≤ expiry_at ts index =
            subst (λ x. expiry_at ts (p / 2) ≤ expiry_at ts x) (sym f)
              (h p (omega (arith, l, e, f))) in
          let second : expiry_at ts index ≤ expiry_at ts (suc i) =
            subst (λ x. expiry_at ts x ≤ expiry_at ts (suc i)) e (h i (omega (arith, l))) in
          rw (up, here) (omega (arith, first, second))

  -- Erase at an index of a heap leaves a heap, if the index is the first or the last timer does not
  -- expire before the parent of the one that is erased.
  pub erase-IsHeap :
      (index : ℕ) (ts : List (Timer Task))
      → index < length ts
      → IsHeap ts
      → MayTake index ts
      → IsHeap (erase index ts)
  unfolding erase
  erase-IsHeap index ts inside h may =
      let size = length-moved index ts in
      heapify_down-IsHeap (length (moved index ts)) (moved index ts) index (omega arith)
        (rw size (moved-DownBut index ts inside h may))

  no_children :
      (ts : List (Timer Task)) (index fuel : ℕ)
      → length ts ≤ index * 2 + 1
      → heapify_down fuel ts index ≡ ts
  unfolding heapify_down smaller_index
  no_children ts index zero h = refl
  no_children ts index (suc fuel) h =
      let left : ltb (index * 2 + 1) (length ts) ≡ false = ground arith in
      let right : ltb (index * 2 + 2) (length ts) ≡ false = ground arith in
      let same : (index == index) ≡ true = ground arith in rw (left, right, same) refl

  -- Otherwise it does not: where a timer without children behind it is erased whose parent expires
  -- after the last timer, what is left is no heap.
  pub erase-broken :
      (p : ℕ) (ts : List (Timer Task))
      → suc p < length ts - 1
      → length ts - 1 ≤ suc p * 2 + 1
      → expiry_at ts (length ts - 1) < expiry_at ts (p / 2)
      → ¬ IsHeap (erase (suc p) ts)
  unfolding erase
  erase-broken p ts inside leaf less h =
      let size = length-moved (suc p) ts in
      let stays =
        no_children (moved (suc p) ts) (suc p) (length (moved (suc p) ts))
          (omega (arith, size, leaf)) in
      let order : IsHeap (moved (suc p) ts) = subst IsHeap stays h in
      let up =
        kept (suc p) ts (p / 2) (omega (arith, inside)) (omega (arith, inside)) (omega arith) in
      let here = taken (suc p) ts (suc p) (omega (arith, inside)) inside refl in
      omega (arith, order p (omega (arith, size, inside)), up, here, less)
