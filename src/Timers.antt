-- ===== src/Timers.antt =====
-- luce/timer/timer.h: the timers as a binary heap in a vector, by their expiry time. Times are counted
-- from the clock's epoch, and ids do not run over. An index past the vector's end, which the code's
-- callers do not give, reads as time 0 and swaps nothing. Each recursion is on fuel: the index, which
-- HeapifyUp halves, or the size, which HeapifyDown's index stays below.
pub mod Swaps
pub mod Heap
pub mod Ticks
pub mod Sinking
pub mod Erasing
pub mod Kept
pub mod Removing
use luce.Prelude.{
  ℕ, zero, suc, ◌+◌, ◌-◌, ◌*◌, ◌/◌, Bool, true, false, Option, none, some, List, [], ◌∷◌, ◌++◌, ltb,
  leb, ◌==◌, ◌&&◌, if◌then◌else◌, length, get_elem?, set, take, Outcome, ok, undefined,
}

pub record Timer (Task : Type 0) : Type 0 where
  pub expiry_time : ℕ
  pub timer_id : ℕ
  pub task : Task

-- the static counter timer_id_ is next_id
pub record TimerManager (Task : Type 0) : Type 0 where
  pub timers_ : List (Timer Task)
  pub next_id : ℕ
  pub stop_ : Bool

-- std::swap of two places
unfoldable pub swap {ℓ} : {A : Type ℓ} → ℕ → ℕ → List A → List A
swap i j xs = elim (get_elem? xs i) [
  | none ↦ xs
  | some a ↦ elim (get_elem? xs j) [ none ↦ xs | some b ↦ set (set xs i b) j a ]
]

module _ {Task : Type 0} where
  abbrev pub expiry_of : Option (Timer Task) → ℕ
  expiry_of none = 0
  expiry_of (some t) = t.expiry_time

  unfoldable pub expiry_at : List (Timer Task) → ℕ → ℕ
  expiry_at ts i = expiry_of (get_elem? ts i)

  unfoldable pub heapify_up : ℕ → List (Timer Task) → ℕ → List (Timer Task)
  heapify_up fuel ts zero = ts
  heapify_up zero ts (suc i) = ts
  heapify_up (suc fuel) ts (suc i) =
      let parent_index = i / 2 in
      let rest = heapify_up fuel (swap (suc i) parent_index ts) parent_index in
      if ltb (expiry_at ts (suc i)) (expiry_at ts parent_index) then rest else ts

  -- the smaller of an index and a child that may lie past the end
  unfoldable pub smaller_index : List (Timer Task) → ℕ → ℕ → ℕ
  smaller_index ts child smallest =
      if ltb child (length ts) && ltb (expiry_at ts child) (expiry_at ts smallest)
      then child
      else smallest

  unfoldable pub heapify_down : ℕ → List (Timer Task) → ℕ → List (Timer Task)
  heapify_down zero ts index = ts
  heapify_down (suc fuel) ts index =
      let smallest_index =
        smaller_index ts (index * 2 + 2) (smaller_index ts (index * 2 + 1) index) in
      let rest = heapify_down fuel (swap smallest_index index ts) smallest_index in
      if smallest_index == index then ts else rest

  unfoldable pub erase : ℕ → List (Timer Task) → List (Timer Task)
  erase index ts =
      let rest = take (length ts - 1) (swap index (length ts - 1) ts) in
      heapify_down (length rest) rest index

  unfoldable pub push : Timer Task → List (Timer Task) → List (Timer Task)
  push timer ts = heapify_up (length ts) (ts ++ (timer ∷ [])) (length ts)

  -- pop: `timer` refers to the vector's first place, and is copied after Erase. What an empty vector
  -- gives is a Timer whose fields are not set.
  unfoldable pub pop : Timer Task → List (Timer Task) → Outcome (Timer Task × List (Timer Task))
  pop unset [] = ok (unset, [])
  pop unset (t ∷ ts) =
      let left = erase 0 (t ∷ ts) in
      elim left [ [] ↦ undefined | front ∷ rest ↦ ok (front, front ∷ rest) ]

  -- std::find_if by the id, as an index
  unfoldable pub find_id : ℕ → List (Timer Task) → Option ℕ
  find_id timer_id [] = none
  find_id timer_id (t ∷ ts) =
      if t.timer_id == timer_id
      then some 0
      else elim (find_id timer_id ts) [ none ↦ none | some i ↦ some (suc i) ]

  -- AddTimer, at a time of the clock: the id, and the manager
  unfoldable pub add_timer : ℕ → ℕ → Task → TimerManager Task → ℕ × TimerManager Task
  add_timer now milliseconds callback m =
      let timer : Timer Task = record {
        expiry_time = now + milliseconds;
        timer_id = m.next_id;
        task = callback;
      } in
      (m.next_id, record m { timers_ = push timer m.timers_; next_id = suc m.next_id })

  unfoldable pub remove_timer : ℕ → TimerManager Task → TimerManager Task
  remove_timer timer_id m = elim (find_id timer_id m.timers_) [
    | none ↦ m
    | some i ↦ record m { timers_ = erase i m.timers_ }
  ]

  -- one round of Tick: the task that it starts, if any
  unfoldable pub tick :
      ℕ → Timer Task → TimerManager Task → Outcome (Option Task × TimerManager Task)
  tick now unset m = elim m.timers_ [
    | [] ↦ ok (none, m)
    | t ∷ ts ↦
        if leb t.expiry_time now
        then elim (pop unset (t ∷ ts)) [
          | ok (timer, left) ↦ ok (some timer.task, record m { timers_ = left })
          | _ ↦ undefined
        ]
        else ok (none, m)
  ]

  unfoldable pub shutdown : TimerManager Task → TimerManager Task
  shutdown m = record m { stop_ = true }
