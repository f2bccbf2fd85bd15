-- ===== src/Queue/Fifo.antt =====
-- The queue is first in, first out, on every interleaving of its callers.
use luce.Prelude.{
  ◌≡◌, inl, inr, refl, sym, ap, ◌∙◌, Bool, true, false, Option, none, some, List, [], ◌∷◌, ◌++◌,
  append-nil, append_assoc, if◌then◌else◌, Bool-cases,
}
use luce.Queue.{BlockingQueue, push, try_push, pop, try_pop_if, stop}

some-inj : {A : Type 0} {a b : A} → some a ≡ some b → a ≡ b
some-inj h = cc

module _ {T : Type 0} where
  abbrev pub given : Option T → List T
  given none = []
  given (some x) = x ∷ []

  -- one whole operation of some thread: the queue before, what went in, what came out, the queue after
  pub data Step : BlockingQueue T → List T → List T → BlockingQueue T → Type 0 where
    pushed : (x : T) (q : BlockingQueue T) → Step q (x ∷ []) [] (push x q)
    tried_push :
        (b : Bool) (x : T) (q : BlockingQueue T)
        → Step q (if (try_push b x q).0 then x ∷ [] else []) [] (try_push b x q).1
    popped : (o : Option T) (q q' : BlockingQueue T) → pop q ≡ some (o, q') → Step q [] (given o) q'
    tried_pop :
        (b : Bool) (predict : Option (T → Bool)) (q : BlockingQueue T)
        → Step q [] (given (try_pop_if b predict q).0) (try_pop_if b predict q).1
    stopped : (q : BlockingQueue T) → Step q [] [] (stop q)

  -- a run of such operations, with all that went in and came out, in order
  pub data Run : BlockingQueue T → List T → List T → BlockingQueue T → Type 0 where
    done : (q : BlockingQueue T) → Run q [] [] q
    next :
        (q q' q'' : BlockingQueue T) (ins ins' outs outs' : List T)
        → Step q ins outs q'
        → Run q' ins' outs' q''
        → Run q (ins ++ ins') (outs ++ outs') q''

  try_push-order :
      (b : Bool) (x : T) (q : BlockingQueue T)
      → (try_push b x q).1.queue_ ≡ q.queue_ ++ (if (try_push b x q).0 then x ∷ [] else [])
  unfolding try_push
  try_push-order true x q = refl
  try_push-order false x q = sym (append-nil q.queue_)

  pop-order :
      (xs : List T) (s : Bool) (o : Option T) (q' : BlockingQueue T)
      → pop record { queue_ = xs; stop_ = s } ≡ some (o, q')
      → given o ++ q'.queue_ ≡ xs ++ []
  unfolding pop
  pop-order [] true o q' h = left_by (some-inj h)
    where
      left_by :
          ◌≡◌ {A = Option T × BlockingQueue T} (none, record { queue_ = []; stop_ = true }) (o, q')
          → given o ++ q'.queue_ ≡ []
      left_by e = ap (λ (o, q). given o ++ q.queue_) (sym e)
  pop-order [] false o q' h = cc
  pop-order (x ∷ xs) s o q' h = left_by (some-inj h)
    where
      left_by :
          ◌≡◌ {A = Option T × BlockingQueue T} (some x, record { queue_ = xs; stop_ = s }) (o, q')
          → given o ++ q'.queue_ ≡ x ∷ (xs ++ [])
      left_by e = ap (λ (o, q). given o ++ q.queue_) (sym e) ∙ sym (append-nil (x ∷ xs))

  try_pop_if-order :
      (b : Bool) (predict : Option (T → Bool)) (xs : List T) (s : Bool)
      → given (try_pop_if b predict record { queue_ = xs; stop_ = s }).0
          ++ (try_pop_if b predict record { queue_ = xs; stop_ = s }).1.queue_
        ≡ xs ++ []
  unfolding try_pop_if
  try_pop_if-order false predict xs s = sym (append-nil xs)
  try_pop_if-order true predict [] s = refl
  try_pop_if-order true none (x ∷ xs) s = sym (append-nil (x ∷ xs))
  try_pop_if-order true (some test) (x ∷ xs) s = elim (Bool-cases (test x)) [
    | inl e ↦ rw e (sym (append-nil (x ∷ xs)))
    | inr e ↦ rw e (sym (append-nil (x ∷ xs)))
  ]

  fifo_order_of_one :
      {q q' : BlockingQueue T} {ins outs : List T}
      → Step q ins outs q'
      → outs ++ q'.queue_ ≡ q.queue_ ++ ins
  unfolding push try_push pop try_pop_if stop
  fifo_order_of_one (pushed x q) = refl
  fifo_order_of_one (tried_push b x q) = try_push-order b x q
  fifo_order_of_one (popped o q q' h) = pop-order q.queue_ q.stop_ o q' h
  fifo_order_of_one (tried_pop b predict q) = try_pop_if-order b predict q.queue_ q.stop_
  fifo_order_of_one (stopped q) = sym (append-nil q.queue_)

  -- On every run, however the threads' operations are interleaved, what came out, followed by what is
  -- still in the queue, is what was in it at first followed by all that went in, in the same order:
  -- nothing is lost, doubled or overtaken.
  pub fifo_order :
      (q q' : BlockingQueue T) (ins outs : List T)
      → Run q ins outs q'
      → outs ++ q'.queue_ ≡ q.queue_ ++ ins
  fifo_order _ _ _ _ (done q) = sym (append-nil q.queue_)
  fifo_order _ _ _ _ (next q q' q'' ins ins' outs outs' s r) =
      append_assoc outs outs' q''.queue_
      ∙ ap (λ l. outs ++ l) (fifo_order q' q'' ins' outs' r)
      ∙ sym (append_assoc outs q'.queue_ ins')
      ∙ ap (λ l. l ++ ins') (fifo_order_of_one s)
      ∙ append_assoc q.queue_ ins ins'
