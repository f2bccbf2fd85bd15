-- ===== src/Timers/Heap.antt =====
-- The heap order: no timer expires before its parent, so the first expires first.
use luce.Prelude.{
  ℕ, zero, suc, ◌+◌, ◌/◌, ◌≤◌, ◌<◌, ◌≡◌, ◌≢◌, refl, sym, ◌∙◌, ap, false, List, [], ◌∷◌, ◌++◌, ltb,
  ◌==◌, if◌then◌else◌, length, arith, length-append, inl, inr, Bool-cases, ltb→lt, subst,
}
use luce.Timers.{Timer, swap, expiry_of, expiry_at, heapify_up, push}
use luce.Timers.Swaps.{expiry_at-swap, length-swap, get_elem?-append}

-- on the expiry times by index
abbrev pub Ordered : ℕ → (ℕ → ℕ) → Type 0
Ordered n k = (i : ℕ) → suc i < n → k (i / 2) ≤ k (suc i)

-- ordered but between j and its parent, and the children of j not below that parent
abbrev OrderedBut : ℕ → ℕ → (ℕ → ℕ) → Type 0
OrderedBut j n k =
    ((i : ℕ) → suc i < n → suc i ≢ j → k (i / 2) ≤ k (suc i))
    × ((i p : ℕ) → suc i < n → i / 2 ≡ j → j ≡ suc p → k (p / 2) ≤ k (suc i))

unfoldable pub swapped : ℕ → ℕ → (ℕ → ℕ) → ℕ → ℕ
swapped i j k x = if x == j then k i else if x == i then k j else k x

-- one swap with the parent moves the exception up
OrderedBut-swapped :
    (p n : ℕ) (k : ℕ → ℕ)
    → suc p < n
    → k (suc p) < k (p / 2)
    → OrderedBut (suc p) n k
    → OrderedBut (p / 2) n (swapped (suc p) (p / 2) k)
unfolding swapped
OrderedBut-swapped p n k bound less (h, h') = (a, b)
  where
    a :
        (i : ℕ)
        → suc i < n
        → suc i ≢ p / 2
        → swapped (suc p) (p / 2) k (i / 2) ≤ swapped (suc p) (p / 2) k (suc i)
    a i l ne = grind (arith, h i l, h' i p l)

    b :
        (i r : ℕ)
        → suc i < n
        → i / 2 ≡ p / 2
        → p / 2 ≡ suc r
        → swapped (suc p) (p / 2) k (r / 2) ≤ swapped (suc p) (p / 2) k (suc i)
    b i r l e f = grind (arith, h i l, h r)

module _ {Task : Type 0} where
  abbrev pub IsHeap : List (Timer Task) → Type 0
  IsHeap ts = Ordered (length ts) (expiry_at ts)

  heapify_up-IsHeap :
      (fuel : ℕ) (ts : List (Timer Task)) (j : ℕ)
      → j < length ts
      → j ≤ fuel
      → OrderedBut j (length ts) (expiry_at ts)
      → IsHeap (heapify_up fuel ts j)
  unfolding heapify_up swapped
  heapify_up-IsHeap fuel ts zero inside enough (h, _) = λ i l. h i l (omega arith)
  heapify_up-IsHeap zero ts (suc p) inside enough h = absurd (omega arith)
  heapify_up-IsHeap (suc fuel) ts (suc p) inside enough h =
      elim (Bool-cases (ltb (expiry_at ts (suc p)) (expiry_at ts (p / 2)))) [
        | inr e ↦ rw e (λ i l. stays e i l)
        | inl e ↦ rw e (
            heapify_up-IsHeap fuel (swap (suc p) (p / 2) ts) (p / 2)
              (omega (arith, same_length, inside)) (omega (arith, enough))
              (moved (ltb→lt (expiry_at ts (suc p)) (expiry_at ts (p / 2)) e)))
      ]
    where
      same_length : length (swap (suc p) (p / 2) ts) ≡ length ts
      same_length = length-swap (suc p) (p / 2) ts

      same_keys :
          (x : ℕ) → expiry_at (swap (suc p) (p / 2) ts) x ≡ swapped (suc p) (p / 2) (expiry_at ts) x
      same_keys x = expiry_at-swap ts (suc p) (p / 2) x inside (omega (arith, inside))

      moved :
          expiry_at ts (suc p) < expiry_at ts (p / 2)
          → OrderedBut
              (p / 2)
              (length (swap (suc p) (p / 2) ts))
              (expiry_at (swap (suc p) (p / 2) ts))
      moved less =
          subst (OrderedBut (p / 2) (length (swap (suc p) (p / 2) ts))) (λ i x. sym (same_keys x) i)
            (rw same_length (OrderedBut-swapped p (length ts) (expiry_at ts) inside less h))

      stays :
          ltb (expiry_at ts (suc p)) (expiry_at ts (p / 2)) ≡ false
          → (i : ℕ) → suc i < length ts
          → expiry_at ts (i / 2) ≤ expiry_at ts (suc i)
      stays e i l = grind (arith, h.0 i l)

  expiry_at-append :
      (ts : List (Timer Task)) (timer : Timer Task) (i : ℕ)
      → i < length ts
      → expiry_at (ts ++ (timer ∷ [])) i ≡ expiry_at ts i
  unfolding expiry_at
  expiry_at-append ts timer i l = ap expiry_of (get_elem?-append ts (timer ∷ []) i l)

  length-heapify_up :
      (fuel : ℕ) (ts : List (Timer Task)) (j : ℕ) → length (heapify_up fuel ts j) ≡ length ts
  unfolding heapify_up
  length-heapify_up fuel ts zero = refl
  length-heapify_up zero ts (suc p) = refl
  length-heapify_up (suc fuel) ts (suc p) =
      elim (Bool-cases (ltb (expiry_at ts (suc p)) (expiry_at ts (p / 2)))) [
        | inr e ↦ rw e refl
        | inl e ↦ rw e (
            length-heapify_up fuel (swap (suc p) (p / 2) ts) (p / 2)
            ∙ length-swap (suc p) (p / 2) ts)
      ]

  -- Push onto a heap leaves a heap with one timer more.
  pub push-IsHeap :
      (timer : Timer Task) (ts : List (Timer Task))
      → IsHeap ts
      → IsHeap (push timer ts) × (length (push timer ts) ≡ suc (length ts))
  unfolding push
  push-IsHeap timer ts h = (
    heapify_up-IsHeap (length ts) (ts ++ (timer ∷ [])) (length ts) (omega (arith, longer))
        (omega arith) (a, b),
    length-heapify_up (length ts) (ts ++ (timer ∷ [])) (length ts) ∙ omega (arith, longer),
  )
    where
      longer : length (ts ++ (timer ∷ [])) ≡ length ts + 1
      longer = length-append ts (timer ∷ [])

      same : (i : ℕ) → i < length ts → expiry_at (ts ++ (timer ∷ [])) i ≡ expiry_at ts i
      same i l = expiry_at-append ts timer i l

      a :
          (i : ℕ)
          → suc i < length (ts ++ (timer ∷ []))
          → suc i ≢ length ts
          → expiry_at (ts ++ (timer ∷ [])) (i / 2) ≤ expiry_at (ts ++ (timer ∷ [])) (suc i)
      a i l ne =
          let inner : suc i < length ts = omega (arith, l, longer, ne) in
          let up : i / 2 < length ts = omega (arith, inner) in
          rw (same (i / 2) up, same (suc i) inner) (h i inner)

      b :
          (i p : ℕ)
          → suc i < length (ts ++ (timer ∷ []))
          → i / 2 ≡ length ts
          → length ts ≡ suc p
          → expiry_at (ts ++ (timer ∷ [])) (p / 2) ≤ expiry_at (ts ++ (timer ∷ [])) (suc i)
      b i p l e f = absurd (omega (arith, l, longer, e, f))
