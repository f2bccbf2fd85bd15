-- ===== src/Task/Finishing.antt =====
-- A coroutine from its first resume to its end, with all the tasks that it awaits.
use luce.Prelude.{
  ℕ, zero, suc, ◌+◌, ◌≡◌, refl, sym, ap, ◌∙◌, Bool, true, false, Option, none, some, List, [], ◌∷◌,
  ◌++◌, length, if◌then◌else◌, ok, append_assoc, append-nil, length-append, arith, suc-add,
}
use luce.Task.{
  Body, returns, awaits, suspends, before, awaiting, done, Frame, new_frame, final_suspend, resume,
  detach, co_spawn, Gives, gives_value, gives_event, gives_task, gives_loop, loops, unroll,
}
use luce.Task.Frames.{
  frame, gone, set-here, frame_at-here, destroy-here, resume-awaits, resume-returns,
  resume-awaiting, resume-event, resume-loops,
}

sum_zero : (m : ℕ) → m ≡ 0 + m
sum_zero m = omega arith

module _ {T : Type 0} where
  gone-add : (n m : ℕ) → gone {T = T} n ++ gone m ≡ gone (n + m)
  gone-add zero m = ap gone (sum_zero m)
  gone-add (suc n) m = ap (none ∷◌) (gone-add n m) ∙ ap gone (sym (suc-add n m))

  pub same_length :
      (xs ys : List (Option (Frame T))) (a b : Option (Frame T))
      → length (xs ++ (a ∷ ys)) ≡ length (xs ++ (b ∷ ys))
  same_length xs ys a b = omega (arith, length-append xs (a ∷ ys), length-append xs (b ∷ ys))

  -- A co_await of a task, from what the task does.
  pub await_step :
      (task : Body T) (k : T → Body T) (es : List T) (x : T) (s t : ℕ) (es1 : List T) (m : ℕ)
      (xs ys : List (Option (Frame T))) (o : Option T) (c : Option ℕ) (d : Bool)
      → ((front : List (Option (Frame T)))
          → resume
              (s + suc (suc m))
              (length front)
              (front ++ some (frame (before task) none (some (length xs)) false) ∷ [])
              es
            ≡ resume
                (suc (suc m))
                (length front)
                (front
                  ++ (some (frame (before (returns x)) none (some (length xs)) false) ∷ gone t))
                es1)
      → resume
          (3 + (s + m))
          (length xs)
          (xs ++ (some (frame (before (awaits task k)) o c d) ∷ ys))
          es
        ≡ resume m
            (length xs)
            (xs ++ (some (frame (before (k x)) o c d) ∷ (ys ++ (none ∷ gone t))))
            es1
  await_step task k es x s t es1 m xs ys o c d runs =
      let f = frame (before (awaits task k)) o c d in
      let n : ℕ = length (xs ++ (some f ∷ ys)) in
      let a = frame (awaiting n k) o c d in
      let front : List (Option (Frame T)) = xs ++ (some a ∷ ys) in
      let place : n ≡ length front = same_length xs ys (some f) (some a) in
      let count : 3 + (s + m) ≡ suc (s + suc (suc m)) = omega arith in
      let child = frame (before task) none (some (length xs)) false in
      ap (λ i. resume i (length xs) (xs ++ (some f ∷ ys)) es) count
      ∙ resume-awaits (s + suc (suc m)) xs ys task k o c d n es refl
      ∙ ap (λ i. resume (s + suc (suc m)) i (front ++ some child ∷ []) es) place
      ∙ runs front
      ∙ resume-returns (suc m) front (gone t) x none (length xs) es1
      ∙ resume-awaiting m xs ys (gone t) k x o c (some (length xs)) d n es1 place

  -- A coroutine comes to its co_return, with the frames of the tasks that it awaited destroyed.
  pub reaches :
      (b : Body T) (es : List T) (v : T) (s t : ℕ) (es' : List T) (fuel : ℕ)
      (xs ys : List (Option (Frame T))) (o : Option T) (c : Option ℕ) (d : Bool)
      → Gives b es v s t es'
      → resume (s + fuel) (length xs) (xs ++ (some (frame (before b) o c d) ∷ ys)) es
        ≡ resume fuel
            (length xs)
            (xs ++ (some (frame (before (returns v)) o c d) ∷ (ys ++ gone t)))
            es'
  reaches _ _ _ _ _ _ fuel xs ys o c d (gives_value v es) = rw (append-nil ys) (
      ap (λ i. resume i (length xs) (xs ++ (some (frame (before (returns v)) o c d) ∷ ys)) es)
        (sym (sum_zero fuel)))
  reaches _ _ _ _ _ _ fuel xs ys o c d (gives_event k x es v s t es' h) =
      let count : suc s + fuel ≡ suc (s + fuel) = omega arith in
      ap
        (λ i. resume i (length xs) (xs ++ (some (frame (before (suspends k)) o c d) ∷ ys)) (x ∷ es))
        count
      ∙ resume-event (s + fuel) xs ys k x o c d es
      ∙ reaches (k x) es v s t es' fuel xs ys o c d h
  reaches _ _ _ _ _ _ fuel xs ys o c d (gives_loop state body more k es v s t es' h) =
      let count : suc s + fuel ≡ suc (s + fuel) = omega arith in
      let f = frame (before (loops state body more k)) o c d in
      ap (λ i. resume i (length xs) (xs ++ (some f ∷ ys)) es) count
      ∙ resume-loops (s + fuel) xs ys state body more k o c d es
      ∙ reaches (unroll state body more k) es v s t es' fuel xs ys o c d h
  reaches _ _ _ _ _ _ fuel xs ys o c d (gives_task task k es x s t es1 v s' t' es2 h h') =
      let m : ℕ = s' + fuel in
      let count : 3 + (s + s') + fuel ≡ 3 + (s + m) = omega arith in
      let all : (ys ++ (none ∷ gone t)) ++ gone t' ≡ ys ++ gone (suc (t + t')) =
        append_assoc ys (none ∷ gone t) (gone t') ∙ ap (λ g. ys ++ (none ∷ g)) (gone-add t t') in
      ap (λ i. resume i (length xs) (xs ++ (some (frame (before (awaits task k)) o c d) ∷ ys)) es)
        count
      ∙ await_step task k es x s t es1 m xs ys o c d (λ front.
        reaches task es x s t es1 (suc (suc m)) front [] none (some (length xs)) false h)
      ∙ reaches (k x) es1 v s' t' es2 fuel xs (ys ++ (none ∷ gone t)) o c d h'
      ∙ ap (λ g. resume fuel (length xs) (xs ++ (some (frame (before (returns v)) o c d) ∷ g)) es2)
          all

  -- what the last resume does
  ends :
      (xs ys : List (Option (Frame T))) (v : T) (d : Bool) (es : List T)
      → resume 1 (length xs) (xs ++ (some (frame (before (returns v)) none none d) ∷ ys)) es
        ≡ ok (xs ++ ((if d then none else some (frame done (some v) none false)) ∷ ys))
  unfolding resume final_suspend
  ends xs ys v true es =
      let f = frame (before (returns v)) none none true in
      let g = frame done (some v) none true in
      rw (frame_at-here xs ys f, set-here xs ys (some f) (some g), destroy-here xs ys g) refl
  ends xs ys v false es =
      let f = frame (before (returns v)) none none false in
      let g = frame done (some v) none false in
      rw (frame_at-here xs ys f, set-here xs ys (some f) (some g)) refl

  pub finishes :
      (b : Body T) (es : List T) (v : T) (s t : ℕ) (es' : List T) (xs : List (Option (Frame T)))
      (d : Bool)
      → Gives b es v s t es'
      → resume (suc s) (length xs) (xs ++ some (frame (before b) none none d) ∷ []) es
        ≡ ok (xs ++ ((if d then none else some (frame done (some v) none false)) ∷ gone t))
  finishes b es v s t es' xs d h =
      let count : suc s ≡ s + 1 = omega arith in
      ap (λ i. resume i (length xs) (xs ++ some (frame (before b) none none d) ∷ []) es) count
      ∙ reaches b es v s t es' 1 xs [] none none d h
      ∙ ends xs (gone t) v d es'

  pub detaches :
      (b : Body T) (xs : List (Option (Frame T)))
      → detach (length xs) (xs ++ some (new_frame b) ∷ [])
        ≡ ok (xs ++ some (frame (before b) none none true) ∷ [])
  unfolding detach new_frame
  detaches b xs =
      let f = frame (before b) none none false in
      rw (frame_at-here xs [] f, set-here xs [] (some f) (some (frame (before b) none none true)))
        refl

  -- If a body gives a value on a list of events, a coroutine with this body that is resumed ends on
  -- these events with that value, where the tasks that it awaits, these in turn, and the events suspend
  -- it and them. The frames of all the tasks that were awaited are then destroyed, and the others are
  -- as they were.
  pub resume-result :
      (b : Body T) (es : List T) (v : T) (s t : ℕ) (es' : List T) (xs : List (Option (Frame T)))
      → Gives b es v s t es'
      → resume (suc s) (length xs) (xs ++ some (new_frame b) ∷ []) es
        ≡ ok (xs ++ (some (frame done (some v) none false) ∷ gone t))
  unfolding new_frame
  resume-result b es v s t es' xs h = finishes b es v s t es' xs false h

  -- A task given to co_spawn runs to its end on the events that its body needs, and then its frame and
  -- those of all tasks that it awaited are destroyed, and no other.
  co_spawn-gone :
      (b : Body T) (es : List T) (v : T) (s t : ℕ) (es' : List T) (xs : List (Option (Frame T)))
      → Gives b es v s t es'
      → co_spawn (suc s) (length xs) (xs ++ some (new_frame b) ∷ []) es ≡ ok (xs ++ gone (suc t))
  unfolding co_spawn
  co_spawn-gone b es v s t es' xs h = rw (detaches b xs) (finishes b es v s t es' xs true h)
