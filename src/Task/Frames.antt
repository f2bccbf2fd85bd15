-- ===== src/Task/Frames.antt =====
-- Single steps of coroutines: what each resume does to the frames.
use luce.Prelude.{
  ℕ, suc, ◌≡◌, refl, ap, ◌∙◌, Bool, false, Option, none, some, List, [], ◌∷◌, ◌++◌, length,
  get_elem?, set, ok, append_assoc, replicate,
}
use luce.Task.{
  Body, returns, awaits, suspends, loops, unroll, Stage, before, awaiting, waiting, done, suspend,
  wake, Frame, new_frame, frame_at, destroy, final_suspend, await_suspend, await_resume, resume,
}

module _ {T : Type 0} where
  abbrev pub frame : Stage T → Option T → Option ℕ → Bool → Frame T
  frame stage value continuation detached = record {
    stage = stage;
    value_ = value;
    continuation_ = continuation;
    is_detached_ = detached;
  }

  abbrev pub gone : ℕ → List (Option (Frame T))
  gone n = replicate n none

  pub get_elem?-here :
      (xs ys : List (Option (Frame T))) (a : Option (Frame T))
      → get_elem? (xs ++ (a ∷ ys)) (length xs) ≡ some a
  get_elem?-here [] ys a = refl
  get_elem?-here (x ∷ xs) ys a = get_elem?-here xs ys a

  pub set-here :
      (xs ys : List (Option (Frame T))) (a b : Option (Frame T))
      → set (xs ++ (a ∷ ys)) (length xs) b ≡ xs ++ (b ∷ ys)
  set-here [] ys a b = refl
  set-here (x ∷ xs) ys a b = ap (◌∷◌ x) (set-here xs ys a b)

  pub frame_at-here :
      (xs ys : List (Option (Frame T))) (f : Frame T)
      → frame_at (xs ++ (some f ∷ ys)) (length xs) ≡ ok f
  unfolding frame_at
  frame_at-here xs ys f = rw (get_elem?-here xs ys (some f)) refl

  pub destroy-here :
      (xs ys : List (Option (Frame T))) (f : Frame T)
      → destroy (length xs) (xs ++ (some f ∷ ys)) ≡ ok (xs ++ (none ∷ ys))
  unfolding destroy
  destroy-here xs ys f = rw (frame_at-here xs ys f, set-here xs ys (some f) none) refl

  pub resume-awaits :
      (fuel : ℕ) (xs ys : List (Option (Frame T))) (task : Body T) (k : T → Body T) (o : Option T)
      (c : Option ℕ) (d : Bool) (n : ℕ) (es : List T)
      → n ≡ length (xs ++ (some (frame (before (awaits task k)) o c d) ∷ ys))
      → resume (suc fuel) (length xs) (xs ++ (some (frame (before (awaits task k)) o c d) ∷ ys)) es
        ≡ resume fuel n
            ((xs ++ (some (frame (awaiting n k) o c d) ∷ ys))
              ++ some (frame (before task) none (some (length xs)) false) ∷ [])
            es
  unfolding resume await_suspend new_frame
  resume-awaits fuel xs ys task k o c d n es e =
      let f = frame (before (awaits task k)) o c d in
      rw (frame_at-here xs ys f, ← e, set-here xs ys (some f) (some (frame (awaiting n k) o c d)))
        refl

  pub resume-returns :
      (fuel : ℕ) (xs ys : List (Option (Frame T))) (v : T) (o : Option T) (p : ℕ) (es : List T)
      → resume
          (suc fuel)
          (length xs)
          (xs ++ (some (frame (before (returns v)) o (some p) false) ∷ ys))
          es
        ≡ resume fuel p (xs ++ (some (frame done (some v) (some p) false) ∷ ys)) es
  unfolding resume final_suspend
  resume-returns fuel xs ys v o p es =
      let f = frame (before (returns v)) o (some p) false in
      rw
        (frame_at-here xs ys f, set-here xs ys (some f) (some (frame done (some v) (some p) false)))
        refl

  pub resume-awaiting :
      (fuel : ℕ) (xs ys zs : List (Option (Frame T))) (k : T → Body T) (v : T) (o : Option T)
      (c q : Option ℕ) (d : Bool) (n : ℕ) (es : List T)
      → n ≡ length (xs ++ (some (frame (awaiting n k) o c d) ∷ ys))
      → resume
          (suc fuel)
          (length xs)
          ((xs ++ (some (frame (awaiting n k) o c d) ∷ ys))
            ++ (some (frame done (some v) q false) ∷ zs))
          es
        ≡ resume fuel
            (length xs)
            (xs ++ (some (frame (before (k v)) o c d) ∷ (ys ++ (none ∷ zs))))
            es
  unfolding resume await_resume
  resume-awaiting fuel xs ys zs k v o c q d n es e =
      let f = frame (awaiting n k) o c d in
      let g = frame done (some v) q false in
      let whole = xs ++ (some f ∷ ys) in
      let here : frame_at (whole ++ (some g ∷ zs)) (length xs) ≡ ok f =
        rw (append_assoc xs (some f ∷ ys) (some g ∷ zs))
          (frame_at-here xs (ys ++ (some g ∷ zs)) f) in
      let there : frame_at (whole ++ (some g ∷ zs)) n ≡ ok g =
        ap (frame_at (whole ++ (some g ∷ zs))) e ∙ frame_at-here whole zs g in
      let destroyed : destroy n (whole ++ (some g ∷ zs)) ≡ ok (whole ++ (none ∷ zs)) =
        ap (λ i. destroy i (whole ++ (some g ∷ zs))) e ∙ destroy-here whole zs g in
      let put : set (whole ++ (none ∷ zs)) (length xs) (some (frame (before (k v)) o c d))
          ≡ xs ++ (some (frame (before (k v)) o c d) ∷ (ys ++ (none ∷ zs))) =
        rw (append_assoc xs (some f ∷ ys) (none ∷ zs))
          (set-here xs (ys ++ (none ∷ zs)) (some f) (some (frame (before (k v)) o c d))) in
      rw (here, there, destroyed, put) refl

  pub resume-event :
      (fuel : ℕ) (xs ys : List (Option (Frame T))) (k : T → Body T) (v : T) (o : Option T)
      (c : Option ℕ) (d : Bool) (es : List T)
      → resume
          (suc fuel)
          (length xs)
          (xs ++ (some (frame (before (suspends k)) o c d) ∷ ys))
          (v ∷ es)
        ≡ resume fuel (length xs) (xs ++ (some (frame (before (k v)) o c d) ∷ ys)) es
  unfolding resume suspend wake
  resume-event fuel xs ys k v o c d es =
      let f = frame (before (suspends k)) o c d in
      let g = frame (waiting k) o c d in
      rw
        (
          frame_at-here xs ys f,
          set-here xs ys (some f) (some g),
          set-here xs ys (some g) (some (frame (before (k v)) o c d)),
        )
        refl

  pub resume-loops :
      (fuel : ℕ) (xs ys : List (Option (Frame T))) (state : T) (body : T → Body T) (more : T → Bool)
      (k : T → Body T) (o : Option T) (c : Option ℕ) (d : Bool) (es : List T)
      → resume
          (suc fuel)
          (length xs)
          (xs ++ (some (frame (before (loops state body more k)) o c d) ∷ ys))
          es
        ≡ resume fuel
            (length xs)
            (xs ++ (some (frame (before (unroll state body more k)) o c d) ∷ ys))
            es
  unfolding resume
  resume-loops fuel xs ys state body more k o c d es =
      let f = frame (before (loops state body more k)) o c d in
      rw
        (
          frame_at-here xs ys f,
          set-here xs ys (some f) (some (frame (before (unroll state body more k)) o c d)),
        )
        refl

  -- with no event to come the coroutine stays in its co_await, and control is back
  pub resume-suspends :
      (fuel : ℕ) (xs ys : List (Option (Frame T))) (k : T → Body T) (o : Option T) (c : Option ℕ)
      (d : Bool)
      → resume (suc fuel) (length xs) (xs ++ (some (frame (before (suspends k)) o c d) ∷ ys)) []
        ≡ ok (xs ++ (some (frame (waiting k) o c d) ∷ ys))
  unfolding resume suspend
  resume-suspends fuel xs ys k o c d =
      let f = frame (before (suspends k)) o c d in
      rw (frame_at-here xs ys f, set-here xs ys (some f) (some (frame (waiting k) o c d))) refl
