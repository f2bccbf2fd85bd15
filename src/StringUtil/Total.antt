-- ===== src/StringUtil/Total.antt =====
-- `Split` ends, whichever parts it keeps.
use luce.Prelude.{
  ℕ, zero, suc, ◌+◌, ◌<◌, ◌≡◌, ◌≢◌, refl, Bool, not, ◌||◌, some, List, [], ◌∷◌, ◌++◌, arith,
  if◌then◌else◌, length, take, drop, Bytes, find, Outcome, ok, Option-cases, inl, inr,
}
use luce.StringUtil.{split, split_loop, split_after, split_rest, at_front}
use luce.StringUtil.Split.{split_loop-falls, split-split_loop}

abbrev pub Ends {ℓ} : {A : Type ℓ} → Outcome A → Type ℓ
Ends r = (a : _) × (r ≡ ok a)

split_rest-Ends :
    (again : Bytes → List Bytes → Outcome (List Bytes)) (keep : Bool) (current : Bytes)
    (result : List Bytes)
    → Ends (again current result)
    → Ends (split_rest again keep current result)
unfolding split_rest
split_rest-Ends again keep [] result k = (_, refl)
split_rest-Ends again keep (c ∷ current) result k = k

split_loop-Ends :
    (d : Bytes) (keep : Bool) (fuel : ℕ) (current : Bytes) (result : List Bytes)
    → d ≢ []
    → length current < fuel
    → Ends (split_loop d keep fuel current result)
unfolding split_loop split_after
split_loop-Ends d keep zero current result ne h = absurd (omega arith)
split_loop-Ends d keep (suc fuel) current result ne h = elim (Option-cases (find d current)) [
  | inl lost ↦ (result ++ current ∷ [], rw (lost, split_after))
  | inr (n, found) ↦
      let rest = drop (n + length d) current in
      let kept =
        if not (at_front (some n)) || keep then result ++ take n current ∷ [] else result in
      rw (found, split_after)
        (split_rest-Ends (split_loop d keep fuel) keep rest kept (
          split_loop-Ends d keep fuel rest kept ne
            (omega (arith, split_loop-falls d current n ne found))))
]

-- `Split` ends on every text if the separator is not empty.
pub split-Ends : (str d : Bytes) (keep : Bool) → d ≢ [] → Ends (split str d keep)
split-Ends [] d keep ne = ([], unfold split in refl)
split-Ends (c ∷ str) d keep ne =
    rw (split-split_loop (c ∷ str) d keep (λ e. cc))
      (split_loop-Ends d keep (suc (length (c ∷ str))) (c ∷ str) [] ne (omega arith))
