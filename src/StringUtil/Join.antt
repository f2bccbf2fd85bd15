-- ===== src/StringUtil/Join.antt =====
-- `JoinImpl` without its accumulator: the separator stands between the parts and nowhere else.
use luce.Prelude.{
  ◌≡◌, ◌≢◌, refl, sym, ◌∙◌, false, List, [], ◌∷◌, ◌++◌, arith, ◌==◌, Bytes, append-nil,
  append_assoc, Bool-cases, inl, inr,
}
use luce.StringUtil.{total_size, join_loop, join}

abbrev pub joined : Bytes → List Bytes → Bytes
joined d [] = []
joined d (p ∷ []) = p
joined d (p ∷ q ∷ ps) = p ++ (d ++ joined d (q ∷ ps))

-- what the loop appends behind the first part
abbrev tail_of : Bytes → List Bytes → Bytes
tail_of d [] = []
tail_of d (p ∷ ps) = d ++ (p ++ tail_of d ps)

joined-cons : (d p : Bytes) (ps : List Bytes) → joined d (p ∷ ps) ≡ p ++ tail_of d ps
joined-cons d p [] = sym (append-nil p)
joined-cons d p (q ∷ ps) = rw (joined-cons d q ps)

join_loop-tail :
    (d result : Bytes) (ps : List Bytes) → join_loop false result ps d ≡ result ++ tail_of d ps
unfolding join_loop
join_loop-tail d result [] = sym (append-nil result)
join_loop-tail d result (p ∷ ps) = join_loop-tail d ((result ++ d) ++ p) ps ∙ simp append_assoc

-- with no byte to write, the text between is empty too
joined-total_size : (d : Bytes) (ps : List Bytes) → total_size ps d ≡ 0 → joined d ps ≡ []
unfolding total_size
joined-total_size d [] h = refl
joined-total_size [] ([] ∷ []) h = refl
joined-total_size [] ([] ∷ q ∷ ps) h = joined-total_size [] (q ∷ ps) (omega arith)
joined-total_size d ((x ∷ p) ∷ ps) h = absurd (omega arith)
joined-total_size (x ∷ d) ([] ∷ ps) h = absurd (omega arith)

-- `Join` puts the separator between each two parts, and nothing else.
pub join-joined : (parts : List Bytes) (d : Bytes) → join parts d ≡ joined d parts
unfolding join
join-joined [] d = refl
join-joined (p ∷ ps) d = elim (Bool-cases (total_size (p ∷ ps) d == 0)) [
  | inl none_ ↦ rw none_ (sym (joined-total_size d (p ∷ ps) (ground arith)))
  | inr some_ ↦ rw some_ (join_loop-tail d p ps ∙ sym (joined-cons d p ps))
]

pub joined-ne : (d p : Bytes) (ps : List Bytes) → p ≢ [] → joined d (p ∷ ps) ≢ []
joined-ne d [] ps ne = absurd (ne refl)
joined-ne d (x ∷ p) [] ne = λ e. cc
joined-ne d (x ∷ p) (q ∷ ps) ne = λ e. cc

pub joined_pair-ne : (d p q : Bytes) → d ≢ [] → joined d (p ∷ q ∷ []) ≢ []
joined_pair-ne [] p q ne = absurd (ne refl)
joined_pair-ne (c ∷ d) [] q ne = λ e. cc
joined_pair-ne (c ∷ d) (x ∷ p) q ne = λ e. cc
