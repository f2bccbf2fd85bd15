-- ===== src/Task/Owning.antt =====
-- Each coroutine that lives has one Task that owns it, or is detached.
use luce.Prelude.{
  ℕ, zero, suc, ◌+◌, ◌<◌, ◌≡◌, refl, ◌∙◌, sym, subst, true, Bool-cases, inl, inr, Option, none,
  some, List, [], ◌∷◌, ◌++◌, if◌then◌else◌, ◌==◌, length, get_elem?, set, ok, arith,
}
use luce.Timers.Swaps.{get_elem?-set, get_elem?-below}
use luce.Task.{Body, Frame, new_frame, frame_at, detach, destroy, destroy_task}
use luce.Task.Owners.{
  Program, Use, makes, moves, swaps, ends, detaches, use_task, MayUse, Reached, starts, uses,
}

abbrev pub one : ℕ → Option ℕ → ℕ
one h none = 0
one h (some k) = if h == k then 1 else 0

-- how many Tasks hold a handle
abbrev pub held : ℕ → List (Option ℕ) → ℕ
held h [] = 0
held h (o ∷ os) = one h o + held h os

held-append :
    (h : ℕ) (os : List (Option ℕ)) (o : Option ℕ) → held h (os ++ o ∷ []) ≡ held h os + one h o
held-append h [] o = omega arith
held-append h (x ∷ os) o = omega (arith, held-append h os o)

held-set :
    (h : ℕ) (os : List (Option ℕ)) (i : ℕ) (o o' : Option ℕ)
    → get_elem? os i ≡ some o
    → held h (set os i o') + one h o ≡ held h os + one h o'
held-set h [] i o o' e = absurd (cc)
held-set h (x ∷ os) zero o o' e = let same : x ≡ o = cc in rw same (omega arith)
held-set h (x ∷ os) (suc i) o o' e = omega (arith, held-set h os i o o' e)

get_elem?-some :
    {A : Type 0} (xs : List A) (i : ℕ) (a : A) → get_elem? xs i ≡ some a → i < length xs
get_elem?-some [] i a e = absurd (cc)
get_elem?-some (x ∷ xs) zero a e = omega arith
get_elem?-some (x ∷ xs) (suc i) a e = omega (arith, get_elem?-some xs i a e)

get_elem?-last :
    {A : Type 0} (xs : List A) (a : A) (k : ℕ)
    → get_elem? (xs ++ a ∷ []) k ≡ (if k == length xs then some a else get_elem? xs k)
get_elem?-last [] a zero = refl
get_elem?-last [] a (suc k) = ground arith
get_elem?-last (x ∷ xs) a zero = ground arith
get_elem?-last (x ∷ xs) a (suc k) = get_elem?-last xs a k ∙ ground arith

get_elem?-past : {A : Type 0} (xs : List A) → get_elem? xs (length xs) ≡ none
get_elem?-past [] = refl
get_elem?-past (x ∷ xs) = get_elem?-past xs

module _ {T : Type 0} where
  -- 1 for a frame that lives, and 1 for one that is detached
  abbrev pub there : Option (Option (Frame T)) → ℕ
  there none = 0
  there (some none) = 0
  there (some (some f)) = 1

  abbrev pub let_go : Option (Option (Frame T)) → ℕ
  let_go none = 0
  let_go (some none) = 0
  let_go (some (some f)) = if f.is_detached_ then 1 else 0

  abbrev pub IsOwned : Program T → Type 0
  IsOwned p =
      (h : ℕ) → held h p.tasks + let_go (get_elem? p.frames h) ≡ there (get_elem? p.frames h)

  living :
      (o : Option (Option (Frame T))) (n : ℕ)
      → suc n + let_go o ≡ there o
      → (f : Frame T) × (o ≡ some (some f))
  living none n e = absurd (omega (arith, e))
  living (some none) n e = absurd (omega (arith, e))
  living (some (some f)) n e = (f, refl)

  -- a frame with an owner lives, and has no other
  owned-frame :
      (p : Program T) (i k : ℕ)
      → IsOwned p
      → get_elem? p.tasks i ≡ some (some k)
      → (f : Frame T) × (get_elem? p.frames k ≡ some (some f)) × (held k (set p.tasks i none) ≡ 0)
  owned-frame p i k owned e =
      let moved = held-set k p.tasks i (some k) none e in
      let here : held k (set p.tasks i none) + 1 ≡ held k p.tasks = ground arith in
      let all : suc (held k (set p.tasks i none)) + let_go (get_elem? p.frames k)
          ≡ there (get_elem? p.frames k) =
        omega (arith, here, owned k) in
      let (f, g) = living (get_elem? p.frames k) (held k (set p.tasks i none)) all in
      (
        f,
        g,
        (let all' : suc (held k (set p.tasks i none)) + let_go (some (some f)) ≡ 1 =
              subst (λ o. suc (held k (set p.tasks i none)) + let_go o ≡ there o) g all in
            omega (arith, all')),
      )

  -- a Task lets go of the handle `k`, and the frame becomes one that needs no owner
  released :
      (p : Program T) (i k : ℕ) (x : Option (Frame T))
      → IsOwned p
      → get_elem? p.tasks i ≡ some (some k)
      → let_go (some x) ≡ there (some x)
      → IsOwned (record { tasks = set p.tasks i none; frames = set p.frames k x })
  released p i k x owned e free h =
      let (f, g, unheld) = owned-frame p i k owned e in
      let inside = get_elem?-some p.frames k (some f) g in
      let moved = held-set h p.tasks i (some k) none e in
      elim (Bool-cases (h == k)) [
        | inl same ↦
            rw (get_elem?-set p.frames k h x inside, same)
              (let eq : h ≡ k = ground arith in rw (eq, unheld) (omega (arith, free)))
        | inr other ↦
            rw (get_elem?-set p.frames k h x inside, other)
              (let kept = rw other at moved in omega (arith, owned h, kept))
      ]

  made :
      (b : Body T) (p : Program T)
      → IsOwned p
      → IsOwned (record {
        tasks = p.tasks ++ some (length p.frames) ∷ [];
        frames = p.frames ++ some (new_frame b) ∷ [];
      })
  unfolding new_frame
  made b p owned h =
      let more = held-append h p.tasks (some (length p.frames)) in
      elim (Bool-cases (h == length p.frames)) [
        | inl same ↦
            let eq : h ≡ length p.frames = ground arith in
            let past : get_elem? p.frames h ≡ none = rw eq (get_elem?-past p.frames) in
            let unheld : held h p.tasks + 0 ≡ 0 =
              subst (λ o. held h p.tasks + let_go o ≡ there o) past (owned h) in
            let once = rw same at more in
            rw (get_elem?-last p.frames (some (new_frame b)) h, same) (omega (arith, once, unheld))
        | inr other ↦
            let once = rw other at more in
            rw (get_elem?-last p.frames (some (new_frame b)) h, other)
              (omega (arith, once, owned h))
      ]

  moved_on :
      (p : Program T) (i : ℕ) (o : Option ℕ)
      → IsOwned p
      → get_elem? p.tasks i ≡ some o
      → IsOwned (record p { tasks = set p.tasks i none ++ o ∷ [] })
  moved_on p i o owned e h =
      omega (arith, owned h, held-set h p.tasks i o none e, held-append h (set p.tasks i none) o)

  swapped :
      (p : Program T) (i j : ℕ) (a b : Option ℕ)
      → IsOwned p
      → get_elem? p.tasks i ≡ some a
      → get_elem? p.tasks j ≡ some b
      → IsOwned (record p { tasks = set (set p.tasks i b) j a })
  swapped p i j a b owned e f h =
      let inside = get_elem?-some p.tasks i a e in
      let there_ : get_elem? (set p.tasks i b) j ≡ some b = elim (Bool-cases (j == i)) [
        | inl same ↦ rw (get_elem?-set p.tasks i j b inside, same) refl
        | inr other ↦ rw (get_elem?-set p.tasks i j b inside, other) f
      ] in
      omega (arith, owned h, held-set h p.tasks i a b e, held-set h (set p.tasks i b) j b a there_)

  ended :
      (p : Program T) (i : ℕ) (o : Option ℕ)
      → IsOwned p
      → get_elem? p.tasks i ≡ some o
      → (frames' : List (Option (Frame T))) × (destroy_task o p.frames ≡ ok frames')
        × IsOwned (record { tasks = set p.tasks i none; frames = frames' })
  unfolding destroy_task destroy frame_at
  ended p i none owned e =
      (p.frames, refl, λ h. omega (arith, owned h, held-set h p.tasks i none none e))
  ended p i (some k) owned e =
      let (f, g, _) = owned-frame p i k owned e in
      (set p.frames k none, rw g refl, released p i k none owned e refl)

  detached :
      (p : Program T) (i k : ℕ)
      → IsOwned p
      → get_elem? p.tasks i ≡ some (some k)
      → (frames' : List (Option (Frame T))) × (detach k p.frames ≡ ok frames')
        × IsOwned (record { tasks = set p.tasks i none; frames = frames' })
  unfolding detach frame_at
  detached p i k owned e =
      let (f, g, _) = owned-frame p i k owned e in
      let f' : Frame T = record f { is_detached_ = true } in
      (set p.frames k (some f'), rw g refl, released p i k (some f') owned e refl)

  use_task-IsOwned :
      (u : Use T) (p : Program T)
      → IsOwned p
      → MayUse u p.tasks
      → (p' : Program T) × (use_task u p ≡ ok p') × IsOwned p'
  unfolding use_task
  use_task-IsOwned (makes b) p owned may = (_, refl, made b p owned)
  use_task-IsOwned (moves i) p owned may =
      let (o, e) = get_elem?-below p.tasks i may in (_, rw e refl, moved_on p i o owned e)
  use_task-IsOwned (swaps i j) p owned may =
      let (a, e) = get_elem?-below p.tasks i may.0 in
      let (b, f) = get_elem?-below p.tasks j may.1 in
      (_, rw (e, f) refl, swapped p i j a b owned e f)
  use_task-IsOwned (ends i) p owned may =
      let (o, e) = get_elem?-below p.tasks i may in
      let (frames', g, owned') = ended p i o owned e in (_, rw (e, g) refl, owned')
  use_task-IsOwned (detaches i) p owned (k, e) =
      let (frames', g, owned') = detached p i k owned e in (_, rw (e, g) refl, owned')

  Reached-IsOwned : (p : Program T) → Reached p → IsOwned p
  Reached-IsOwned _ starts = λ h. refl
  Reached-IsOwned _ (uses u p p' r may e) =
      let (q, f, owned) = use_task-IsOwned u p (Reached-IsOwned p r) may in
      let same : p' ≡ q = cc in subst IsOwned (sym same) owned

  -- However a program makes, moves, swaps, ends and detaches its Tasks, with no coroutine run in
  -- between, the next such use of a Task that it made succeeds: it touches no destroyed frame, so that
  -- none is destroyed twice. Behind it every frame that lives has one Task that holds it, or is
  -- detached and has none, and no Task holds a destroyed one.
  pub use_task-safe :
      (u : Use T) (p : Program T)
      → Reached p
      → MayUse u p.tasks
      → (p' : Program T) × (use_task u p ≡ ok p') × IsOwned p'
  use_task-safe u p r may = use_task-IsOwned u p (Reached-IsOwned p r) may
