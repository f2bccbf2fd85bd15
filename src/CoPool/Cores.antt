-- ===== src/CoPool/Cores.antt =====
-- luce/co/co_thread_pool.cpp: GetCurrentCpus, the constructor's loop that binds each worker to a core,
-- and GetCurrentId. What sched_getaffinity gives is an argument, `none` for a failure; the result of
-- sched_setaffinity only goes to the log. The cores that the workers are given are the result.
use luce.Prelude.{
  ℕ, zero, suc, ◌+◌, ◌%◌, ◌<◌, ◌≤◌, ◌≡◌, ◌≢◌, refl, sym, subst, Bool, true, false, Option, none,
  some, List, [], ◌∷◌, ◌==◌, length, get_elem?, if◌then◌else◌, Outcome, ok, undefined, ◌>>=◌,
  or_undefined, arith, Bool-cases, inl, inr,
}
use luce.Timers.Swaps.{get_elem?-below}

-- the cores from i on, as many as CPU_SETSIZE still has, that are in the set
unfoldable pub cpu_loop : ℕ → ℕ → (ℕ → Bool) → List ℕ
cpu_loop zero i set = []
cpu_loop (suc n) i set = let rest = cpu_loop n (suc i) set in if set i then i ∷ rest else rest

unfoldable pub get_current_cpus : ℕ → Option (ℕ → Bool) → List ℕ
get_current_cpus cpu_setsize none = []
get_current_cpus cpu_setsize (some set) = cpu_loop cpu_setsize 0 set

-- cpu_ids[i % cpu_num] for `n` workers from i on; % 0 is undefined
unfoldable pub bind_loop : List ℕ → ℕ → ℕ → Outcome (List ℕ)
bind_loop cpu_ids zero i = ok []
bind_loop cpu_ids (suc n) i = if length cpu_ids == 0 then undefined else (do
  id ← or_undefined (get_elem? cpu_ids (i % length cpu_ids))
  rest ← bind_loop cpu_ids n (suc i)
  ok (id ∷ rest))

unfoldable pub bind_cores : Bool → ℕ → Option (ℕ → Bool) → ℕ → Outcome (List ℕ)
bind_cores enable_core_bindings cpu_setsize affinity thread_num =
    if enable_core_bindings
    then bind_loop (get_current_cpus cpu_setsize affinity) thread_num 0
    else ok []

-- the pair of a thread, its id and its pool, as GetCurrentId reads it: `none` for the pair that no
-- worker has set. A pool is a number, and none the result -1.
unfoldable pub get_current_id : ℕ → Option (ℕ × ℕ) → Option ℕ
get_current_id pool none = none
get_current_id pool (some (id, of_pool)) = if pool == of_pool then some id else none

abbrev pub AllowedBy : (ℕ → Bool) → List ℕ → Type 0
AllowedBy set [] = Unit
AllowedBy set (x ∷ xs) = (set x ≡ true) × AllowedBy set xs

cpu_loop-AllowedBy : (n i : ℕ) (set : ℕ → Bool) → AllowedBy set (cpu_loop n i set)
unfolding cpu_loop
cpu_loop-AllowedBy zero i set = tt
cpu_loop-AllowedBy (suc n) i set = elim (Bool-cases (set i)) [
  | inl e ↦ rw e (e, cpu_loop-AllowedBy n (suc i) set)
  | inr e ↦ rw e (cpu_loop-AllowedBy n (suc i) set)
]

cpu_loop-some :
    (n i c : ℕ) (set : ℕ → Bool) → i ≤ c → c < i + n → set c ≡ true → 0 < length (cpu_loop n i set)
unfolding cpu_loop
cpu_loop-some zero i c set low high e = absurd (omega arith)
cpu_loop-some (suc n) i c set low high e = elim (Bool-cases (set i)) [
  | inl f ↦ rw f (omega arith)
  | inr f ↦
      let apart : i ≢ c =
        λ same. let here : set i ≡ true = subst (λ x. set x ≡ true) (sym same) e in cc in
      rw f (cpu_loop-some n (suc i) c set (omega (arith, low, apart)) (omega (arith, high)) e)
]

AllowedBy-get_elem? :
    (set : ℕ → Bool) (xs : List ℕ) (i x : ℕ)
    → AllowedBy set xs
    → get_elem? xs i ≡ some x
    → set x ≡ true
AllowedBy-get_elem? set [] i x all e = absurd (cc)
AllowedBy-get_elem? set (y ∷ xs) zero x all e = let same : y ≡ x = cc in rw (sym same) all.0
AllowedBy-get_elem? set (y ∷ xs) (suc i) x all e = AllowedBy-get_elem? set xs i x all.1 e

-- with a core to bind to, each worker is bound to one, and to one of the set
bind_loop-AllowedBy :
    (set : ℕ → Bool) (cpu_ids : List ℕ) (n i : ℕ)
    → 0 < length cpu_ids
    → AllowedBy set cpu_ids
    → (ids : List ℕ) × (bind_loop cpu_ids n i ≡ ok ids) × (length ids ≡ n) × AllowedBy set ids
unfolding bind_loop
bind_loop-AllowedBy set cpu_ids zero i some_core all = ([], refl, refl, tt)
bind_loop-AllowedBy set cpu_ids (suc n) i some_core all =
    let below : i % length cpu_ids < length cpu_ids = grind arith in
    let (id, e) = get_elem?-below cpu_ids (i % length cpu_ids) below in
    let (ids, f, size, allowed) = bind_loop-AllowedBy set cpu_ids n (suc i) some_core all in
    let there : (length cpu_ids == 0) ≡ false = ground arith in
    (
      id ∷ ids,
      rw (there, e, f) refl,
      omega (arith, size),
      (AllowedBy-get_elem? set cpu_ids (i % length cpu_ids) id all e, allowed),
    )

-- With core bindings, if the process may run on some core below CPU_SETSIZE, every worker is bound to a
-- core, and each of these is one that the process may run on. If sched_getaffinity fails, the
-- constructor of a pool with a worker takes a remainder by zero.
bind_cores-AllowedBy :
    (cpu_setsize c thread_num : ℕ) (set : ℕ → Bool)
    → c < cpu_setsize
    → set c ≡ true
    → ((ids : List ℕ) × (bind_cores true cpu_setsize (some set) thread_num ≡ ok ids)
        × (length ids ≡ thread_num)
        × AllowedBy set ids)
      × (bind_cores true cpu_setsize none (suc thread_num) ≡ undefined)
unfolding bind_cores get_current_cpus bind_loop
bind_cores-AllowedBy cpu_setsize c thread_num set inside e = (
  bind_loop-AllowedBy set (cpu_loop cpu_setsize 0 set) thread_num 0
      (cpu_loop-some cpu_setsize 0 c set (omega arith) (omega (arith, inside)) e)
      (cpu_loop-AllowedBy cpu_setsize 0 set),
  refl,
)
