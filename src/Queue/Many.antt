-- ===== src/Queue/Many.antt =====
-- A vector of queues, one for each worker of a pool.
use luce.Prelude.{
  ℕ, zero, suc, ◌+◌, ◌≡◌, ◌<◌, ◌≤◌, refl, List, [], ◌∷◌, Option, none, some, length, get_elem?, set,
  arith, length-append, length-set, ap, Outcome, ok, undefined, or_undefined, ◌>>=◌,
}
use luce.Queue.{BlockingQueue, push, size}

module _ {T : Type 0} where
  -- queues[i].push(value)
  unfoldable pub push_to : ℕ → T → List (BlockingQueue T) → Outcome (List (BlockingQueue T))
  push_to i value qs = do q ← or_undefined (get_elem? qs i); ok (set qs i (push value q))

  -- the sum of size() over the first `n` queues; `missing` is what an index out of range does
  unfoldable pub size_loop : Outcome ℕ → ℕ → List (BlockingQueue T) → Outcome ℕ
  size_loop missing zero qs = ok 0
  size_loop missing (suc n) [] = missing
  size_loop missing (suc n) (q ∷ qs) = do rest ← size_loop missing n qs; ok (size q + rest)

  -- how many items stand in the queues
  abbrev pub total : List (BlockingQueue T) → ℕ
  total [] = 0
  total (q ∷ qs) = length q.queue_ + total qs

  pub size_loop-total :
      (missing : Outcome ℕ) (qs : List (BlockingQueue T))
      → size_loop missing (length qs) qs ≡ ok (total qs)
  unfolding size_loop size
  size_loop-total missing [] = refl
  size_loop-total missing (q ∷ qs) = rw (size_loop-total missing qs) refl

  abbrev size_of : Option (BlockingQueue T) → ℕ
  size_of none = 0
  size_of (some q) = length q.queue_

  pub total-set :
      (qs : List (BlockingQueue T)) (i : ℕ) (q q' : BlockingQueue T)
      → get_elem? qs i ≡ some q
      → total (set qs i q') + length q.queue_ ≡ total qs + length q'.queue_
  total-set [] zero q q' h = cc
  total-set [] (suc i) q q' h = cc
  total-set (r ∷ qs) zero q q' h = omega (arith, ap size_of h)
  total-set (r ∷ qs) (suc i) q q' h = omega (arith, total-set qs i q q' h)

  pub get_elem?-in :
      (qs : List (BlockingQueue T)) (i : ℕ)
      → i < length qs
      → (q : BlockingQueue T) × (get_elem? qs i ≡ some q)
  get_elem?-in [] i h = absurd (omega arith)
  get_elem?-in (q ∷ qs) zero h = (q, refl)
  get_elem?-in (q ∷ qs) (suc i) h = get_elem?-in qs i (omega arith)

  get_elem?-out : (qs : List (BlockingQueue T)) (i : ℕ) → length qs ≤ i → get_elem? qs i ≡ none
  get_elem?-out [] i h = refl
  get_elem?-out (q ∷ qs) zero h = absurd (omega arith)
  get_elem?-out (q ∷ qs) (suc i) h = get_elem?-out qs i (omega arith)

  pub push_to-out :
      (i : ℕ) (value : T) (qs : List (BlockingQueue T))
      → length qs ≤ i
      → push_to i value qs ≡ undefined
  unfolding push_to
  push_to-out i value qs h = rw (get_elem?-out qs i h) refl

  -- an item pushed to a queue that is there is one more
  pub push_to-total :
      (i : ℕ) (value : T) (qs : List (BlockingQueue T))
      → i < length qs
      → (qs' : List (BlockingQueue T)) × (push_to i value qs ≡ ok qs')
        × (length qs' ≡ length qs)
        × (total qs' ≡ suc (total qs))
  unfolding push_to push
  push_to-total i value qs h =
      let (q, e) = get_elem?-in qs i h in
      let q' = push value q in
      (
        set qs i q',
        rw (push_to, e) refl,
        length-set qs i q',
        omega (arith, total-set qs i q q' e, length-append q.queue_ (value ∷ [])),
      )
