-- ===== src/Task.antt =====
-- luce/co/task.h and luce/co/scheduler.cpp: coroutines that await each other. A coroutine's body is the
-- sequence of what it awaits: tasks, each made where it is awaited, and events, at which it suspends
-- until the event resumes it with a value, with loops around these that need not end. The events are a list; behind its end nothing happens any
-- more. A handle is an index into the frames, `none` where one is destroyed. The type of a result is not
-- void, whose Result holds no value.
pub mod Frames
pub mod Finishing
pub mod Running
pub mod Owners
pub mod Owning
use luce.Prelude.{
  ℕ, zero, suc, ◌+◌, Bool, true, false, Option, none, some, List, [], ◌∷◌, ◌++◌, if◌then◌else◌,
  length, get_elem?, set, Outcome, ok, undefined, out_of_fuel, ◌>>=◌, or_undefined,
}

-- co_return of a value, co_await of a task and what is done with its result, co_await of an event, or
-- a loop: from a state, what a round does, which ends in the next state, the test that goes around
-- again, and what is behind the loop
pub data Body (T : Type 0) : Type 0 where
  returns : T → Body T
  awaits : Body T → (T → Body T) → Body T
  suspends : (T → Body T) → Body T
  loops : T → (T → Body T) → (T → Bool) → (T → Body T) → Body T

-- where a coroutine stands: before a body, in the co_await of the task with this handle, in that of an
-- event, or at its end
pub data Stage (T : Type 0) : Type 0 where
  before : Body T → Stage T
  awaiting : ℕ → (T → Body T) → Stage T
  waiting : (T → Body T) → Stage T
  done : Stage T

-- the promise, and where the coroutine stands; std::noop_coroutine is `none`
pub record Frame (T : Type 0) : Type 0 where
  pub stage : Stage T
  pub value_ : Option T
  pub continuation_ : Option ℕ
  pub is_detached_ : Bool

module _ {T : Type 0} where
  -- one body behind another, in the same coroutine
  unfoldable pub and_then : Body T → (T → Body T) → Body T
  and_then (returns v) f = f v
  and_then (awaits task k) f = awaits task (λ x. and_then (k x) f)
  and_then (suspends k) f = suspends (λ x. and_then (k x) f)
  and_then (loops state body more k) f = loops state body more (λ x. and_then (k x) f)

  -- a round of a loop, and the test behind it
  unfoldable pub unroll : T → (T → Body T) → (T → Bool) → (T → Body T) → Body T
  unroll state body more k =
      and_then (body state) (λ next. if more next then loops next body more k else k next)

  -- a call of the coroutine, which suspends at once
  unfoldable pub new_frame : Body T → Frame T
  new_frame b = record {
    stage = before b;
    value_ = none;
    continuation_ = none;
    is_detached_ = false;
  }

  -- a frame that is there
  unfoldable pub frame_at : List (Option (Frame T)) → ℕ → Outcome (Frame T)
  frame_at frames h = do f ← or_undefined (get_elem? frames h); or_undefined f

  -- destroy of a handle
  unfoldable pub destroy : ℕ → List (Option (Frame T)) → Outcome (List (Option (Frame T)))
  destroy h frames = do _ ← frame_at frames h; ok (set frames h none)

  -- return_value and final_suspend: the frames then, and the coroutine that is resumed
  unfoldable pub final_suspend :
      ℕ → Frame T → T → List (Option (Frame T)) → Outcome (Option ℕ × List (Option (Frame T)))
  final_suspend h f v frames = do
    let ended = set frames h (some record f { stage = done; value_ = some v })
    frames' ← if f.is_detached_ then destroy h ended else ok ended
    ok (f.continuation_, frames')

  -- co_await of a new task: set_continuation, and the task's handle is resumed
  unfoldable pub await_suspend :
      ℕ → Frame T → Body T → (T → Body T) → List (Option (Frame T)) → ℕ × List (Option (Frame T))
  await_suspend h f task k frames =
      let started = record (new_frame task) { continuation_ = some h } in
      (
        length frames,
        set frames h (some record f { stage = awaiting (length frames) k }) ++ some started ∷ [],
      )

  -- await_resume, by which time the value is set, and behind which the task that was awaited is destroyed
  unfoldable pub await_resume :
      ℕ → Frame T → ℕ → (T → Body T) → List (Option (Frame T)) → Outcome (List (Option (Frame T)))
  await_resume h f task k frames = do
    awaited ← frame_at frames task
    v ← or_undefined awaited.value_
    frames' ← destroy task frames
    ok (set frames' h (some record f { stage = before (k v) }))

  -- an awaiter of an event suspends its coroutine, and the event resumes it
  unfoldable pub suspend :
      ℕ → Frame T → (T → Body T) → List (Option (Frame T)) → List (Option (Frame T))
  suspend h f k frames = set frames h (some record f { stage = waiting k })

  unfoldable pub wake :
      ℕ → Frame T → (T → Body T) → T → List (Option (Frame T)) → List (Option (Frame T))
  wake h f k v frames = set frames h (some record f { stage = before (k v) })

  -- resume of a handle, and of the coroutines that wait for these events, until all control is back:
  -- each coroutine passes it on to the next
  unfoldable pub resume :
      ℕ → ℕ → List (Option (Frame T)) → List T → Outcome (List (Option (Frame T)))
  resume zero h frames events = out_of_fuel
  resume (suc fuel) h frames events = do
    f ← frame_at frames h
    elim f.stage [
      | done ↦ undefined
      | waiting k ↦ undefined
      | before b ↦ elim b [
        | returns v ↦ do
          (next, frames') ← final_suspend h f v frames
          elim next [ none ↦ ok frames' | some c ↦ resume fuel c frames' events ]
        | awaits task k ↦ let r = await_suspend h f task k frames in resume fuel r.0 r.1 events
        | suspends k ↦ elim events [
          | [] ↦ ok (suspend h f k frames)
          | v ∷ later ↦ resume fuel h (wake h f k v (suspend h f k frames)) later
        ]
        | loops state body more k ↦
            resume fuel h
              (set frames h (some record f { stage = before (unroll state body more k) })) events
      ]
      | awaiting task k ↦ do frames' ← await_resume h f task k frames; resume fuel h frames' events
    ]

  unfoldable pub detach : ℕ → List (Option (Frame T)) → Outcome (List (Option (Frame T)))
  detach h frames = do
    f ← frame_at frames h
    ok (set frames h (some record f { is_detached_ = true }))

  -- a Task's own handle_, `none` for nullptr: ready, result, and what its destructor does
  unfoldable pub ready : Option ℕ → List (Option (Frame T)) → Outcome Bool
  ready none frames = ok true
  ready (some h) frames = do
    f ← frame_at frames h
    ok (elim f.stage [ done ↦ true | before b ↦ false | awaiting n k ↦ false | waiting k ↦ false ])

  -- result: `unset` is what value_ holds before it is set, the value that T is made with, or undefined
  -- for a T such as int
  unfoldable pub task_result : Outcome T → Option ℕ → List (Option (Frame T)) → Outcome T
  task_result unset none frames = undefined
  task_result unset (some h) frames = do
    f ← frame_at frames h
    elim f.value_ [ none ↦ unset | some v ↦ ok v ]

  unfoldable pub destroy_task :
      Option ℕ → List (Option (Frame T)) → Outcome (List (Option (Frame T)))
  destroy_task none frames = ok frames
  destroy_task (some h) frames = destroy h frames

  -- run: no event is waited for
  unfoldable pub run : Outcome T → ℕ → Option ℕ → List (Option (Frame T)) → Outcome T
  unfolding ready task_result
  run unset fuel task frames = do
    is_ready ← ready task frames
    if is_ready then task_result unset task frames else (do
      h ← or_undefined task
      detached ← detach h frames
      frames' ← resume fuel h detached []
      task_result unset (some h) frames')

  -- Scheduler::co_spawn, as far as the worker that resumes the handle and the events that resume it
  -- again; the Task that is given lets its handle go
  unfoldable pub co_spawn :
      ℕ → ℕ → List (Option (Frame T)) → List T → Outcome (List (Option (Frame T)))
  co_spawn fuel h frames events = do detached ← detach h frames; resume fuel h detached events

-- What a body means on these events: the value that it returns, the steps that it takes, the tasks
-- that it awaits, and the events that are left.
pub data Gives {T : Type 0} : Body T → List T → T → ℕ → ℕ → List T → Type 0 where
  gives_value : (v : T) (es : List T) → Gives (returns v) es v 0 0 es
  gives_event :
      (k : T → Body T) (x : T) (es : List T) (v : T) (s t : ℕ) (es' : List T)
      → Gives (k x) es v s t es'
      → Gives (suspends k) (x ∷ es) v (suc s) t es'
  gives_loop :
      (state : T) (body : T → Body T) (more : T → Bool) (k : T → Body T) (es : List T) (v : T)
      (s t : ℕ) (es' : List T)
      → Gives (unroll state body more k) es v s t es'
      → Gives (loops state body more k) es v (suc s) t es'
  gives_task :
      (task : Body T) (k : T → Body T) (es : List T) (x : T) (s t : ℕ) (es1 : List T) (v : T)
      (s' t' : ℕ) (es2 : List T)
      → Gives task es x s t es1
      → Gives (k x) es1 v s' t' es2
      → Gives (awaits task k) es v (3 + (s + s')) (suc (t + t')) es2
