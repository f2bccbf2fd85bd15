-- ===== src/Task/Owners.antt =====
-- luce/co/task.h: the Task objects of a program as the owners of their coroutines' frames. A Task is
-- its handle_, `none` for nullptr; one whose life is over holds none. A Task's index is its place in the
-- order in which the Tasks were made.
use luce.Prelude.{
  ℕ, ◌<◌, Option, none, some, List, [], ◌∷◌, ◌++◌, length, get_elem?, set, ◌≡◌, Outcome, ok, ◌>>=◌,
  or_undefined,
}
use luce.Task.{Body, Frame, new_frame, detach, destroy_task}

pub record Program (T : Type 0) : Type 0 where
  pub tasks : List (Option ℕ)
  pub frames : List (Option (Frame T))

-- a call of a coroutine, Task(Task&&), swap, ~Task and detach
pub data Use (T : Type 0) : Type 0 where
  makes : Body T → Use T
  moves : ℕ → Use T
  swaps : ℕ → ℕ → Use T
  ends : ℕ → Use T
  detaches : ℕ → Use T

-- Task(Task&&): std::exchange with nullptr
abbrev move_task : ℕ → Option ℕ → List (Option ℕ) → List (Option ℕ)
move_task i handle_ tasks = set tasks i none ++ handle_ ∷ []

abbrev swap_tasks : ℕ → ℕ → Option ℕ → Option ℕ → List (Option ℕ) → List (Option ℕ)
swap_tasks i j lhs rhs tasks = set (set tasks i rhs) j lhs

module _ {T : Type 0} where
  abbrev pub no_tasks : Program T
  no_tasks = record { tasks = []; frames = [] }

  -- get_return_object: the Task of a new coroutine
  abbrev new_task : Body T → Program T → Program T
  new_task b p = record p {
    tasks = p.tasks ++ some (length p.frames) ∷ [];
    frames = p.frames ++ some (new_frame b) ∷ [];
  }

  -- Task::detach
  abbrev detach_task : ℕ → ℕ → Program T → Outcome (Program T)
  detach_task i h p = do
    frames' ← detach h p.frames
    ok record p { tasks = set p.tasks i none; frames = frames' }

  unfoldable pub use_task : Use T → Program T → Outcome (Program T)
  use_task (makes b) p = ok (new_task b p)
  use_task (moves i) p = do
    handle_ ← or_undefined (get_elem? p.tasks i)
    ok record p { tasks = move_task i handle_ p.tasks }
  use_task (swaps i j) p = do
    lhs ← or_undefined (get_elem? p.tasks i)
    rhs ← or_undefined (get_elem? p.tasks j)
    ok record p { tasks = swap_tasks i j lhs rhs p.tasks }
  use_task (ends i) p = do
    handle_ ← or_undefined (get_elem? p.tasks i)
    frames' ← destroy_task handle_ p.frames
    ok record p { tasks = set p.tasks i none; frames = frames' }
  use_task (detaches i) p = do
    handle_ ← or_undefined (get_elem? p.tasks i)
    h ← or_undefined handle_
    detach_task i h p

  -- a use of Tasks that were made; detach reads the promise, so that its Task must hold a handle
  abbrev pub MayUse : Use T → List (Option ℕ) → Type 0
  MayUse (makes b) tasks = Unit
  MayUse (moves i) tasks = i < length tasks
  MayUse (swaps i j) tasks = (i < length tasks) × (j < length tasks)
  MayUse (ends i) tasks = i < length tasks
  MayUse (detaches i) tasks = (h : ℕ) × (get_elem? tasks i ≡ some (some h))

  pub data Reached : Program T → Type 0 where
    starts : Reached no_tasks
    uses :
        (u : Use T) (p p' : Program T)
        → Reached p
        → MayUse u p.tasks
        → use_task u p ≡ ok p'
        → Reached p'
