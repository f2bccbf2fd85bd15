-- ===== src/StringUtil/Lossless.antt =====
-- `Split` takes a text apart without loss.
use luce.Prelude.{
  ℕ, zero, suc, ◌+◌, ◌<◌, ◌≡◌, ◌≢◌, refl, sym, ap, ◌∙◌, Bool, true, false, ◌||◌, some, List, [],
  ◌∷◌, ◌++◌, arith, if◌then◌else◌, length, take, drop, Bytes, find, Outcome, ok, append_assoc,
  append-nil, Option-cases, inl, inr, drop_add,
}
use luce.StringUtil.{split_rest, split_after, split_loop, split, join}
use luce.StringUtil.Find.{find_splits}
use luce.StringUtil.Split.{split_loop-falls, split-split_loop}
use luce.StringUtil.Join.{joined, join-joined}

-- the parts that are not empty
abbrev pub filled : List Bytes → List Bytes
filled [] = []
filled ([] ∷ ps) = filled ps
filled ((c ∷ p) ∷ ps) = (c ∷ p) ∷ filled ps

filled-append : (p : Bytes) (ps : List Bytes) → filled (p ∷ []) ++ filled ps ≡ filled (p ∷ ps)
filled-append [] ps = refl
filled-append (c ∷ p) ps = refl

-- Splitting with empty parts kept, which gives `r`, loses nothing: the rounds end, and what they give
-- joins back. Without, which gives `r'`, just the empty parts are missing.
abbrev Lossless :
    Bytes → Bytes → List Bytes → Outcome (List Bytes) → List Bytes → Outcome (List Bytes) → Type 0
Lossless d current result r result' r' =
    (p : Bytes) × (ps : List Bytes) × (r ≡ ok (result ++ p ∷ ps))
    × (joined d (p ∷ ps) ≡ current)
    × (r' ≡ ok (result' ++ filled (p ∷ ps)))

split_rest-Lossless :
    (again again' : Bytes → List Bytes → Outcome (List Bytes)) (d current : Bytes)
    (result result' : List Bytes)
    → (current ≢ []
        → Lossless d current result (again current result) result' (again' current result'))
    → Lossless d current result
        (split_rest again true current result)
        result'
        (split_rest again' false current result')
unfolding split_rest
split_rest-Lossless again again' d [] result result' k =
    ([], [], refl, refl, ap ok (sym (append-nil result')))
split_rest-Lossless again again' d (c ∷ current) result result' k = k (λ e. cc)

if_or_true {ℓ} : {A : Type ℓ} (b : Bool) (x y : A) → (if b || true then x else y) ≡ x
if_or_true true x y = refl
if_or_true false x y = refl

split_loop-step :
    (d : Bytes) (fuel : ℕ) (current : Bytes) (result : List Bytes) (n : ℕ)
    → find d current ≡ some n
    → split_loop d true (suc fuel) current result
      ≡ split_rest
          (split_loop d true fuel)
          true
          (drop (n + length d) current)
          (result ++ take n current ∷ [])
unfolding split_loop split_after
split_loop-step d fuel current result n found = rw (found, if_or_true, split_after)

-- a round that does not keep empty parts keeps what stands in front of the separator if there is any
split_loop-skips :
    (d : Bytes) (fuel : ℕ) (c : ℕ) (current : Bytes) (result : List Bytes) (n : ℕ)
    → find d (c ∷ current) ≡ some n
    → split_loop d false (suc fuel) (c ∷ current) result
      ≡ split_rest
          (split_loop d false fuel)
          false
          (drop (n + length d) (c ∷ current))
          (result ++ filled (take n (c ∷ current) ∷ []))
unfolding split_loop split_after
split_loop-skips d fuel c current result zero found =
    rw (found, split_after, append-nil result) refl
split_loop-skips d fuel c current result (suc n) found = rw (found, split_after) refl

split_loop-Lossless :
    (d : Bytes) (fuel : ℕ) (current : Bytes) (result result' : List Bytes)
    → d ≢ []
    → current ≢ []
    → length current < fuel
    → Lossless d current result
        (split_loop d true fuel current result)
        result'
        (split_loop d false fuel current result')
unfolding split_loop split_after
split_loop-Lossless d fuel [] result result' ne some_text h = absurd (some_text refl)
split_loop-Lossless d zero (c ∷ current) result result' ne some_text h = absurd (omega arith)
split_loop-Lossless d (suc fuel) (c ∷ current) result result' ne some_text h =
    elim (Option-cases (find d (c ∷ current))) [
      | inl lost ↦ (
        c ∷ current,
        [],
        rw (lost, split_loop, split_after),
        refl,
        rw (lost, split_loop, split_after),
      )
      | inr (n, found) ↦
          let piece = take n (c ∷ current) in
          let rest = drop (n + length d) (c ∷ current) in
          let kept = result' ++ filled (piece ∷ []) in
          let (q, ps, e, j, f) =
            split_rest-Lossless (split_loop d true fuel) (split_loop d false fuel) d rest
              (result ++ piece ∷ []) kept
              (λ more.
                split_loop-Lossless d fuel rest (result ++ piece ∷ []) kept ne more
                  (omega (arith, h, split_loop-falls d (c ∷ current) n ne found))) in
          (
            piece,
            q ∷ ps,
            split_loop-step d fuel (c ∷ current) result n found
                ∙ e
                ∙ ap ok (append_assoc result (piece ∷ []) (q ∷ ps)),
            ap (λ t. piece ++ (d ++ t)) (j ∙ drop_add n (length d) (c ∷ current))
                ∙ sym (find_splits d (c ∷ current) n found),
            split_loop-skips d fuel c current result' n found
                ∙ f
                ∙ ap ok (
                    append_assoc result' (filled (piece ∷ [])) (filled (q ∷ ps))
                    ∙ ap (λ l. result' ++ l) (filled-append piece (q ∷ ps))),
          )
    ]

-- With a separator that is not empty, `Split` of any text ends: with empty parts kept, `Join` of the
-- parts with the same separator gives the text back; without, it gives the same parts but the empty
-- ones.
pub join-split :
    (str d : Bytes)
    → d ≢ []
    → (parts : List Bytes) × (split str d true ≡ ok parts)
      × (join parts d ≡ str)
      × (split str d false ≡ ok (filled parts))
join-split [] d ne = ([], (unfold split in refl), (unfold join in refl), (unfold split in refl))
join-split (c ∷ str) d ne =
    let (q, ps, e, j, f) =
      split_loop-Lossless d (suc (length (c ∷ str))) (c ∷ str) [] [] ne (λ e. cc) (omega arith) in
    (
      q ∷ ps,
      split-split_loop (c ∷ str) d true (λ e. cc) ∙ e,
      join-joined (q ∷ ps) d ∙ j,
      split-split_loop (c ∷ str) d false (λ e. cc) ∙ f,
    )
