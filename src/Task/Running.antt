-- ===== src/Task/Running.antt =====
-- run, which resumes the task once and then reads the result: if the body ended, in a destroyed frame,
-- and if it suspended, before it is set.
use luce.Prelude.{
  ℕ, suc, ◌+◌, ◌≡◌, refl, ap, ◌∙◌, Bool, true, false, Option, none, some, List, [], ◌∷◌, ◌++◌,
  length, ok, undefined, append_assoc, arith, Outcome, ◌>>=◌,
}
use luce.Task.{
  Body, awaits, suspends, loops, unroll, Stage, before, awaiting, waiting, Frame, new_frame,
  frame_at, resume, run, ready, task_result, Gives,
}
use luce.Task.Frames.{
  frame, gone, get_elem?-here, frame_at-here, resume-awaits, resume-suspends, resume-loops,
}
use luce.Task.Finishing.{reaches, await_step, finishes, detaches, same_length}

-- Without any event a body suspends, after these steps.
pub data Stops {T : Type 0} : Body T → ℕ → Type 0 where
  at_once : (k : T → Body T) → Stops (suspends k) 0
  around :
      (state : T) (body : T → Body T) (more : T → Bool) (k : T → Body T) (s : ℕ)
      → Stops (unroll state body more k) s
      → Stops (loops state body more k) (suc s)
  inside : (task : Body T) (k : T → Body T) (s : ℕ) → Stops task s → Stops (awaits task k) (suc s)
  behind :
      (task : Body T) (k : T → Body T) (x : T) (s t s' : ℕ)
      → Gives task [] x s t []
      → Stops (k x) s'
      → Stops (awaits task k) (3 + (s + s'))

module _ {T : Type 0} where
  -- control is back, and the coroutine stands in a co_await, with all else of its frame as it was
  abbrev Stays :
      List (Option (Frame T))
      → Option T
      → Option ℕ
      → Bool
      → Outcome (List (Option (Frame T)))
      → Type 0
  Stays xs o c d r =
      (stage : Stage T) × (zs : List (Option (Frame T))) × (r
        ≡ ok (xs ++ (some (frame stage o c d) ∷ zs)))

  stops :
      (b : Body T) (s : ℕ) (xs ys : List (Option (Frame T))) (o : Option T) (c : Option ℕ)
      (d : Bool)
      → Stops b s
      → Stays xs o c d (resume (suc s) (length xs) (xs ++ (some (frame (before b) o c d) ∷ ys)) [])
  stops _ _ xs ys o c d (at_once k) = (waiting k, ys, resume-suspends 0 xs ys k o c d)
  stops _ _ xs ys o c d (around state body more k s h) =
      let (stage, zs, e) = stops (unroll state body more k) s xs ys o c d h in
      (stage, zs, resume-loops (suc s) xs ys state body more k o c d [] ∙ e)
  stops _ _ xs ys o c d (inside task k s h) =
      let f = frame (before (awaits task k)) o c d in
      let n : ℕ = length (xs ++ (some f ∷ ys)) in
      let a = frame (awaiting n k) o c d in
      let front : List (Option (Frame T)) = xs ++ (some a ∷ ys) in
      let place : n ≡ length front = same_length xs ys (some f) (some a) in
      let child = frame (before task) none (some (length xs)) false in
      let (stage, zs, e) = stops task s front [] none (some (length xs)) false h in
      (
        awaiting n k,
        ys ++ (some (frame stage none (some (length xs)) false) ∷ zs),
        resume-awaits (suc s) xs ys task k o c d n [] refl
            ∙ ap (λ i. resume (suc s) i (front ++ some child ∷ []) []) place
            ∙ e
            ∙ ap ok (
                append_assoc xs (some a ∷ ys)
                  (some (frame stage none (some (length xs)) false) ∷ zs)),
      )
  stops _ _ xs ys o c d (behind task k x s t s' h h') =
      let m : ℕ = suc s' in
      let count : suc (3 + (s + s')) ≡ 3 + (s + m) = omega arith in
      let (stage, zs, e) = stops (k x) s' xs (ys ++ (none ∷ gone t)) o c d h' in
      (
        stage,
        zs,
        ap (λ i. resume i (length xs) (xs ++ (some (frame (before (awaits task k)) o c d) ∷ ys)) [])
              count
            ∙ await_step task k [] x s t [] m xs ys o c d (λ front.
              reaches task [] x s t [] (suc (suc m)) front [] none (some (length xs)) false h)
            ∙ e,
      )

  module _ (unset : Outcome T) where
    destroyed :
        (xs ys : List (Option (Frame T)))
        → task_result unset (some (length xs)) (xs ++ (none ∷ ys)) ≡ undefined
    unfolding task_result frame_at
    destroyed xs ys = rw (get_elem?-here xs ys none) refl

    no_value :
        (xs ys : List (Option (Frame T))) (stage : Stage T) (c : Option ℕ) (d : Bool)
        → task_result unset (some (length xs)) (xs ++ (some (frame stage none c d) ∷ ys)) ≡ unset
    unfolding task_result
    no_value xs ys stage c d = rw (frame_at-here xs ys (frame stage none c d)) refl

    run-new :
        (fuel : ℕ) (b : Body T) (xs : List (Option (Frame T)))
        → run unset fuel (some (length xs)) (xs ++ some (new_frame b) ∷ []) ≡ (
            resume fuel (length xs) (xs ++ some (frame (before b) none none true) ∷ []) []
            >>= λ frames'. task_result unset (some (length xs)) frames')
    unfolding run ready new_frame
    run-new fuel b xs =
        rw (frame_at-here xs [] (frame (before b) none none false), detaches b xs) refl

    -- run of a task, not of void, whose body gives a value without an event is undefined, whatever an
    -- unset value_ holds: the detached frame is destroyed at the body's end, and run then reads the
    -- result in it.
    pub run-ended :
        (b : Body T) (v : T) (s t : ℕ) (xs : List (Option (Frame T)))
        → Gives b [] v s t []
        → run unset (suc s) (some (length xs)) (xs ++ some (new_frame b) ∷ []) ≡ undefined
    run-ended b v s t xs h =
        rw (run-new (suc s) b xs, finishes b [] v s t [] xs true h) (destroyed xs (gone t))

    -- run of a task whose body suspends reads its value_ unset.
    run-suspended :
        (b : Body T) (s : ℕ) (xs : List (Option (Frame T)))
        → Stops b s
        → run unset (suc s) (some (length xs)) (xs ++ some (new_frame b) ∷ []) ≡ unset
    run-suspended b s xs h =
        let (stage, zs, e) = stops b s xs [] none none true h in
        rw (run-new (suc s) b xs, e) (no_value xs zs stage none true)
