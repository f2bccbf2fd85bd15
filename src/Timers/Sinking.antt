-- ===== src/Timers/Sinking.antt =====
-- HeapifyDown mends a heap whose order fails at most between one place and its children.
use luce.Prelude.{
  ℕ, zero, suc, ◌+◌, ◌*◌, ◌/◌, ◌≤◌, ◌<◌, ◌≡◌, ◌≢◌, refl, sym, true, false, List, ltb, ◌==◌,
  if◌then◌else◌, length, arith, ◌⊎◌, inl, inr, Bool-cases, ltb→lt, subst,
}
use luce.Timers.{Timer, swap, expiry_at, smaller_index, heapify_down}
use luce.Timers.Swaps.{expiry_at-swap, length-swap}
use luce.Timers.Heap.{swapped, IsHeap}

-- ordered but between j and its children, and these not below the parent of j
abbrev pub DownBut : ℕ → ℕ → (ℕ → ℕ) → Type 0
DownBut j n k =
    ((i : ℕ) → suc i < n → i / 2 ≢ j → k (i / 2) ≤ k (suc i))
    × ((i p : ℕ) → suc i < n → i / 2 ≡ j → j ≡ suc p → k (p / 2) ≤ k (suc i))

-- what smallest_index can be: j where no child is smaller, or the smallest child
abbrev Picked : ℕ → ℕ → (ℕ → ℕ) → ℕ → Type 0
Picked j n k s =
    ((s ≡ j) × ((i : ℕ) → suc i < n → i / 2 ≡ j → k j ≤ k (suc i)))
    ⊎ ((p : ℕ) × (s ≡ suc p)
        × (p / 2 ≡ j)
        × (s < n)
        × (k s < k j)
        × ((i : ℕ) → suc i < n → i / 2 ≡ j → k s ≤ k (suc i)))

-- one swap with the smallest child moves the exception down
DownBut-swapped :
    (j p n : ℕ) (k : ℕ → ℕ)
    → suc p < n
    → p / 2 ≡ j
    → k (suc p) < k j
    → ((i : ℕ) → suc i < n → i / 2 ≡ j → k (suc p) ≤ k (suc i))
    → DownBut j n k
    → DownBut (suc p) n (swapped (suc p) j k)
unfolding swapped
DownBut-swapped j p n k bound child less least (h, h') = (a, b)
  where
    a :
        (i : ℕ)
        → suc i < n
        → i / 2 ≢ suc p
        → swapped (suc p) j k (i / 2) ≤ swapped (suc p) j k (suc i)
    a i l ne = grind (arith, h i l, h' p i, least i l)

    b :
        (i r : ℕ)
        → suc i < n
        → i / 2 ≡ suc p
        → suc p ≡ suc r
        → swapped (suc p) j k (r / 2) ≤ swapped (suc p) j k (suc i)
    b i r l e f = grind (arith, h i l)

-- a bound for the two children bounds every child
children :
    (j n m : ℕ) (k : ℕ → ℕ)
    → (j * 2 + 1 < n → m ≤ k (j * 2 + 1))
    → (j * 2 + 2 < n → m ≤ k (j * 2 + 2))
    → (i : ℕ) → suc i < n
    → i / 2 ≡ j
    → m ≤ k (suc i)
children j n m k h1 h2 i l e = elim (Bool-cases (i == j * 2)) [
  | inl left ↦
      let same : j * 2 + 1 ≡ suc i = ground arith in
      subst (λ x. m ≤ k x) same (h1 (omega (arith, same, l)))
  | inr right ↦
      let same : j * 2 + 2 ≡ suc i = ground arith in
      subst (λ x. m ≤ k x) same (h2 (omega (arith, same, l)))
]

module _ {Task : Type 0} where
  -- smaller_index gives the child if it is there and smaller, and else what it was given
  smaller_cases :
      (ts : List (Timer Task)) (child smallest : ℕ)
      → ((smaller_index ts child smallest ≡ child)
          × (child < length ts)
          × (expiry_at ts child < expiry_at ts smallest))
        ⊎ ((smaller_index ts child smallest ≡ smallest)
            × (child < length ts → expiry_at ts smallest ≤ expiry_at ts child))
  unfolding smaller_index
  smaller_cases ts child smallest = elim (Bool-cases (ltb child (length ts))) [
    | inl inside ↦ elim (Bool-cases (ltb (expiry_at ts child) (expiry_at ts smallest))) [
      | inl less ↦ inl (
        rw (inside, less) refl,
        ltb→lt child (length ts) inside,
        ltb→lt (expiry_at ts child) (expiry_at ts smallest) less,
      )
      | inr more ↦ inr (rw (inside, more) refl, λ l. ground arith)
    ]
    | inr outside ↦ inr (
      rw outside refl,
      λ l. absurd {A = expiry_at ts smallest ≤ expiry_at ts child} (ground arith),
    )
  ]

  smallest-Picked :
      (ts : List (Timer Task)) (j : ℕ)
      → Picked j
          (length ts)
          (expiry_at ts)
          (smaller_index ts (j * 2 + 2) (smaller_index ts (j * 2 + 1) j))
  smallest-Picked ts j = elim (smaller_cases ts (j * 2 + 1) j) [
    | inl (e1, l1, s1) ↦ rw e1 (elim (smaller_cases ts (j * 2 + 2) (j * 2 + 1)) [
      | inl (e2, l2, s2) ↦ rw e2 (
          inr (
            j * 2 + 1,
            omega arith,
            omega arith,
            l2,
            omega (arith, s1, s2),
            children j (length ts) (expiry_at ts (j * 2 + 2)) (expiry_at ts)
                (λ l. omega (arith, s2)) (λ l. omega arith),
          ))
      | inr (e2, m2) ↦ rw e2 (
          inr (
            j * 2,
            omega arith,
            omega arith,
            l1,
            s1,
            children j (length ts) (expiry_at ts (j * 2 + 1)) (expiry_at ts) (λ l. omega arith) m2,
          ))
    ])
    | inr (e1, m1) ↦ rw e1 (elim (smaller_cases ts (j * 2 + 2) j) [
      | inl (e2, l2, s2) ↦ rw e2 (
          inr (
            j * 2 + 1,
            omega arith,
            omega arith,
            l2,
            s2,
            children j (length ts) (expiry_at ts (j * 2 + 2)) (expiry_at ts)
                (λ l. omega (arith, s2, m1 l)) (λ l. omega arith),
          ))
      | inr (e2, m2) ↦
          rw e2 (inl (refl, children j (length ts) (expiry_at ts j) (expiry_at ts) m1 m2))
    ])
  ]

  swap-DownBut :
      (ts : List (Timer Task)) (j p : ℕ)
      → p / 2 ≡ j
      → suc p < length ts
      → expiry_at ts (suc p) < expiry_at ts j
      → ((i : ℕ) → suc i < length ts → i / 2 ≡ j → expiry_at ts (suc p) ≤ expiry_at ts (suc i))
      → DownBut j (length ts) (expiry_at ts)
      → DownBut (suc p) (length (swap (suc p) j ts)) (expiry_at (swap (suc p) j ts))
  unfolding swapped
  swap-DownBut ts j p child inside less least h =
      let same_length : length (swap (suc p) j ts) ≡ length ts = length-swap (suc p) j ts in
      let parent : j < length ts = omega (arith, child, inside) in
      let same_keys = λ (x : ℕ). expiry_at-swap ts (suc p) j x inside parent in
      subst (DownBut (suc p) (length (swap (suc p) j ts))) (λ i x. sym (same_keys x) i)
        (rw same_length (DownBut-swapped j p (length ts) (expiry_at ts) inside child less least h))

  -- one round, from what it picks and what the rounds behind it do
  settles :
      (ts : List (Timer Task)) (j s : ℕ) (rest : List (Timer Task))
      → Picked j (length ts) (expiry_at ts) s
      → DownBut j (length ts) (expiry_at ts)
      → ((p : ℕ)
          → s ≡ suc p
          → j < suc p
          → DownBut (suc p) (length (swap (suc p) j ts)) (expiry_at (swap (suc p) j ts))
          → IsHeap rest)
      → IsHeap (if s == j then ts else rest)
  settles ts j s rest (inl (e, least)) h rounds =
      let same : (s == j) ≡ true = ground arith in rw same (λ i l. stays i l)
    where
      stays : (i : ℕ) → suc i < length ts → expiry_at ts (i / 2) ≤ expiry_at ts (suc i)
      stays i l = elim (Bool-cases (i / 2 == j)) [
        | inl here ↦ let same : i / 2 ≡ j = ground arith in rw same (least i l same)
        | inr there ↦ h.0 i l (ground arith)
      ]
  settles ts j s rest (inr (p, e, child, inside, less, least)) h rounds =
      let deeper : j < suc p = omega (arith, child) in
      let other : (s == j) ≡ false = ground (arith, e) in
      let inside' : suc p < length ts = omega (arith, e, inside) in
      let less' : expiry_at ts (suc p) < expiry_at ts j =
        subst (λ x. expiry_at ts x < expiry_at ts j) e less in
      let least' : (i : ℕ)
          → suc i < length ts
          → i / 2 ≡ j
          → expiry_at ts (suc p) ≤ expiry_at ts (suc i) =
        λ i l d. subst (λ x. expiry_at ts x ≤ expiry_at ts (suc i)) e (least i l d) in
      rw other (rounds p e deeper (swap-DownBut ts j p child inside' less' least' h))

  -- HeapifyDown from j with enough fuel makes a heap of an order that fails only between j and its
  -- children.
  pub heapify_down-IsHeap :
      (fuel : ℕ) (ts : List (Timer Task)) (j : ℕ)
      → length ts ≤ fuel + j
      → DownBut j (length ts) (expiry_at ts)
      → IsHeap (heapify_down fuel ts j)
  unfolding heapify_down
  heapify_down-IsHeap zero ts j enough (h, _) = λ i l. h i l (omega (arith, enough, l))
  heapify_down-IsHeap (suc fuel) ts j enough h =
      let s : ℕ = smaller_index ts (j * 2 + 2) (smaller_index ts (j * 2 + 1) j) in
      settles ts j s (heapify_down fuel (swap s j ts) s) (smallest-Picked ts j) h (λ p e deeper d.
        let ready : DownBut s (length (swap s j ts)) (expiry_at (swap s j ts)) =
          subst (λ x. DownBut x (length (swap x j ts)) (expiry_at (swap x j ts))) (sym e) d in
        heapify_down-IsHeap fuel (swap s j ts) s
          (omega (arith, length-swap s j ts, enough, deeper, e)) ready)
