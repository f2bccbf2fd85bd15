-- ===== src/Json/Parser/Cursor.antt =====
-- The parser's steps where its index stands between a text that is read and one that follows.
use luce.Prelude.{
  ℕ, ◌+◌, ◌≡◌, refl, sym, ap, Bool, false, [], ◌∷◌, ◌++◌, ltb, leb, ◌==◌, length, take, Bytes,
  codes, same, ok, arith, drop-append, length-append, append_assoc, append-nil,
}
use luce.Json.Parser.{
  Parser, is_space, ahead, move, first_char, char_at, compare_at, leading, skip, skip_comment,
  get_next_token,
}

abbrev pub at : Bytes → Bytes → Parser
at front s = record { str_ = front ++ s; idx_ = length front }

inside : (front s : Bytes) → ltb (length (front ++ s)) (length front) ≡ false
inside front s = ground (arith, length-append front s)

pub ahead-at : (front s : Bytes) → ahead (at front s) ≡ s
unfolding ahead
ahead-at front s = drop-append front s (length front) refl

pub move-at :
    (front a s : Bytes) (n : ℕ) → n ≡ length a → move n (at front (a ++ s)) ≡ at (front ++ a) s
unfolding move
move-at front a s n e =
    let count : length front + n ≡ length (front ++ a) = omega (arith, e, length-append front a) in
    λ i. record { str_ = sym (append_assoc front a s) i; idx_ = count i }

pub char_at-at : (front s : Bytes) → char_at (at front s) ≡ ok (first_char s)
unfolding char_at
char_at-at front s = rw (inside front s, ahead-at front s) refl

pub compare_at-at :
    (literal front s : Bytes)
    → compare_at literal (at front s) ≡ ok (same (take (length literal) s) literal)
unfolding compare_at
compare_at-at literal front s = rw (inside front s, ahead-at front s) refl

pub skip-at :
    (test : ℕ → Bool) (front a s : Bytes)
    → leading test (a ++ s) ≡ length a
    → skip test (at front (a ++ s)) ≡ ok (at (front ++ a) s)
unfolding skip
skip-at test front a s e =
    rw (inside front (a ++ s), ahead-at front (a ++ s), e)
      (ap ok (move-at front a s (length a) refl))

-- a byte that starts a token: neither a space nor the start of a comment
abbrev pub IsToken : ℕ → Type 0
IsToken c = (is_space c ≡ false) × ((c == b'/') ≡ false)

pub no_comment :
    (c : ℕ) (s : Bytes) → (c == b'/') ≡ false → same (take 2 (c ∷ s)) (codes "//") ≡ false
unfolding same
no_comment c s h = rw h refl

pub get_next_token-at :
    (front : Bytes) (c : ℕ) (s : Bytes)
    → IsToken c
    → get_next_token (at front (c ∷ s)) ≡ ok (c, at front (c ∷ s))
unfolding get_next_token skip_comment leading
get_next_token-at front c s (word, plain) =
    rw
      (
        skip-at is_space front [] (c ∷ s) (rw word refl),
        append-nil front,
        compare_at-at (codes "//") front (c ∷ s),
        no_comment c s plain,
        char_at-at front (c ∷ s),
        more,
      )
      refl
  where
    more : leb (length (front ++ (c ∷ s))) (length front) ≡ false
    more = ground (arith, length-append front (c ∷ s))
