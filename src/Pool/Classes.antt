-- ===== src/Pool/Classes.antt =====
-- The pool's classes: what AllocBuf and Revert keep true of them, and what a caller gets.
use luce.Prelude.{
  ℕ, zero, suc, ◌+◌, ◌-◌, ◌/◌, ◌≤◌, ◌<◌, ◌≡◌, ◌⊎◌, inl, inr, refl, sym, true, false, Option, none,
  some, List, [], ◌∷◌, leb, ◌==◌, if◌then◌else◌, Outcome, ok, exits, arith, subst, Bool-cases,
  Option-cases, ==_iff,
}
use luce.Pool.{
  IoBuf, BufPool, mem_limit, new_io_buf, bucket, set_bucket, new_chain, alloc_pool_mem, alloc_class,
  new_buf_pool, class_of, grow, take_from, alloc_buf,
}

-- a buffer of a class, with nothing in it
abbrev pub IsFresh : ℕ → IoBuf → Type 0
IsFresh key b = (b.capacity ≡ key) × (b.valid_length ≡ 0) × (b.head ≡ 0)

abbrev pub AllFresh : ℕ → List IoBuf → Type 0
AllFresh key [] = Unit
AllFresh key (b ∷ bs) = IsFresh key b × AllFresh key bs

-- every buffer lies in the class of its capacity and is empty, and the memory is below the limit
pub record IsPool (p : BufPool) : Type 0 where
  pub fresh : (key : ℕ) → AllFresh key (bucket key p)
  limited : p.total_mem_ < mem_limit

bucket-set_bucket :
    (key k : ℕ) (bs : List IoBuf) (p : BufPool)
    → bucket k (set_bucket key bs p) ≡ (if k == key then bs else bucket k p)
unfolding bucket set_bucket
bucket-set_bucket key k bs p = elim (Bool-cases (k == key)) [
  | inl e ↦ rw (bucket, set_bucket, e) refl
  | inr e ↦ rw (bucket, set_bucket, e) refl
]

set_bucket-fresh :
    (key : ℕ) (bs : List IoBuf) (p : BufPool)
    → ((k : ℕ) → AllFresh k (bucket k p))
    → AllFresh key bs
    → (k : ℕ) → AllFresh k (bucket k (set_bucket key bs p))
set_bucket-fresh key bs p h hs k =
    rw (bucket-set_bucket key k bs p)
      (elim (Bool-cases (k == key)) [ inl e ↦ rw (e, (==_iff k key).0 e) hs | inr e ↦ rw e (h k) ])

new_chain-fresh : (key n : ℕ) → AllFresh key (new_chain key n)
unfolding new_chain
new_chain-fresh key zero = tt
new_chain-fresh key (suc n) = ((refl, refl, refl), new_chain-fresh key n)

alloc_class-fresh :
    (mem_cap num : ℕ) (p : BufPool)
    → ((k : ℕ) → AllFresh k (bucket k p))
    → (k : ℕ) → AllFresh k (bucket k (alloc_class mem_cap num p))
unfolding alloc_class alloc_pool_mem bucket
alloc_class-fresh mem_cap num p h =
    set_bucket-fresh mem_cap (new_io_buf mem_cap ∷ new_chain mem_cap (num - 1)) p h
      ((refl, refl, refl), new_chain-fresh mem_cap (num - 1))

empty-fresh : (k : ℕ) → AllFresh k (bucket k record { pool_ = λ k. none; total_mem_ = 0 })
unfolding bucket
empty-fresh k = tt

new_buf_pool-fresh : (k : ℕ) → AllFresh k (bucket k new_buf_pool)
unfolding new_buf_pool
new_buf_pool-fresh = alloc_class-fresh 8388608 10 _ (
    alloc_class-fresh 4194304 20 _ (
      alloc_class-fresh 1048576 50 _ (
        alloc_class-fresh 262144 200 _ (
          alloc_class-fresh 65536 500 _
            (alloc_class-fresh 16384 1000 _ (alloc_class-fresh 4096 5000 _ empty-fresh))))))

-- The constructor makes a pool in which every buffer is empty and lies in the class of its capacity,
-- with less memory than the limit.
pub new_buf_pool-IsPool : IsPool new_buf_pool
unfolding new_buf_pool alloc_class alloc_pool_mem set_bucket
new_buf_pool-IsPool = record { fresh = new_buf_pool-fresh; limited = omega arith }

-- the class taken from is large enough
class_of-le : (n key : ℕ) → class_of n ≡ some key → n ≤ key
unfolding class_of
class_of-le n key h = ground arith

class_of-none : (n : ℕ) → class_of n ≡ none → 8388608 < n
unfolding class_of
class_of-none n h = ground arith

-- what a class gives: a fresh buffer of it, and the pool stays well formed; or the end of the program,
-- where it has no buffer and one more would reach the limit
Gives : ℕ → BufPool → Outcome (Option IoBuf × BufPool) → Type 0
Gives key p o =
    ((bucket key p ≡ []) × (mem_limit ≤ p.total_mem_ + key / 1024) × (o ≡ exits))
    ⊎ ((b : IoBuf) × (p' : BufPool) × (o ≡ ok (some b, p')) × IsFresh key b × IsPool p')

grow-Gives : (key : ℕ) (p : BufPool) → IsPool p → bucket key p ≡ [] → Gives key p (grow key p)
unfolding grow Gives set_bucket bucket
grow-Gives key p h none_left = elim (Bool-cases (leb mem_limit (p.total_mem_ + key / 1024))) [
  | inl e ↦ inl (none_left, reached e, rw e refl)
  | inr e ↦ inr (
    new_io_buf key,
    record p {
      pool_ = λ k. if k == key then some [] else p.pool_ k;
      total_mem_ = p.total_mem_ + key / 1024;
    },
    rw e refl,
    (refl, refl, refl),
    record { fresh = set_bucket-fresh key [] p h.fresh tt; limited = below e },
  )
]
  where
    reached :
        leb mem_limit (p.total_mem_ + key / 1024) ≡ true → mem_limit ≤ p.total_mem_ + key / 1024
    reached e = ground arith

    below :
        leb mem_limit (p.total_mem_ + key / 1024) ≡ false → p.total_mem_ + key / 1024 < mem_limit
    below e = ground arith

take_from-Gives : (key : ℕ) (p : BufPool) → IsPool p → Gives key p (take_from key p)
unfolding Gives take_from set_bucket
take_from-Gives key p h = known (bucket key p) refl
  where
    known : (bs : List IoBuf) → bucket key p ≡ bs → Gives key p (take_from key p)
    known [] e =
        let grows : take_from key p ≡ grow key p = rw (take_from, e) refl in
        subst (Gives key p) (sym grows) (grow-Gives key p h e)
    known (b ∷ bs) e =
        let f : AllFresh key (b ∷ bs) = subst (AllFresh key) e (h.fresh key) in
        rw (take_from, e)
          (inr (
            b,
            set_bucket key bs p,
            refl,
            f.0,
            record { fresh = set_bucket-fresh key bs p h.fresh f.1; limited = h.limited },
          ))

-- AllocBuf on a well-formed pool, for any size asked for: it exits, and then the size's class has no
-- buffer left and one more would reach the memory limit; or the size is above 8 MiB and it gives no
-- buffer and leaves the pool; or it gives an empty buffer whose capacity is that of the size's class
-- and at least the size, and the pool stays well formed, below the limit.
pub alloc_buf-IsPool :
    (n : ℕ) (p : BufPool)
    → IsPool p
    → ((key : ℕ) × (class_of n ≡ some key)
        × (bucket key p ≡ [])
        × (mem_limit ≤ p.total_mem_ + key / 1024)
        × (alloc_buf n p ≡ exits))
      ⊎ ((8388608 < n) × (alloc_buf n p ≡ ok (none, p)))
      ⊎ ((b : IoBuf) × (p' : BufPool) × (alloc_buf n p ≡ ok (some b, p'))
          × (class_of n ≡ some b.capacity)
          × (n ≤ b.capacity)
          × (b.valid_length ≡ 0)
          × (b.head ≡ 0)
          × IsPool p')
unfolding alloc_buf Gives
alloc_buf-IsPool n p h = elim (Option-cases (class_of n)) [
  | inl e ↦ inr (inl (class_of-none n e, rw (alloc_buf, e) refl))
  | inr (key, e) ↦ elim (take_from-Gives key p h) [
    | inl (left, limit, g) ↦ inl (key, e, left, limit, rw (alloc_buf, e) g)
    | inr (b, p', g, f, h') ↦
        inr (
          inr
            (b, p', rw (alloc_buf, e) g, rw (f.0) e, rw (f.0) (class_of-le n key e), f.1, f.2, h'))
  ]
]
