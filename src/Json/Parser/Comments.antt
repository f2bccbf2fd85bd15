-- ===== src/Json/Parser/Comments.antt =====
-- Comments in front of a value.
use luce.Prelude.{
  ℕ, zero, suc, ◌+◌, ◌*◌, ◌≤◌, ◌≡◌, refl, sym, ap, ◌∙◌, true, false, [], ◌∷◌, ◌++◌, leb, length,
  find, Bytes, codes, same, some, arith, length-append, append_assoc, append-nil, ok, out_of_fuel,
  subst,
}
use luce.StringUtil.Find.{lacks, find-lacks, find_append-lacks, find_append}
use luce.Json.{JObject, object_to_string}
use luce.Json.Parser.{
  Parser, leading, comment_loop, skip_comment, is_space, get_next_token, parse, from_string,
}
use luce.Json.Parser.Cursor.{
  IsToken, no_comment, at, ahead-at, get_next_token-at, compare_at-at, char_at-at, skip-at,
}
use luce.Json.Parser.Shape.{IsWritable, cost, EndsPlain, text-Starts, text-EndsPlain, cost-le}
use luce.Json.Parser.RoundTrip.{parse-at}
use luce.Json.Parser.Document.{trim_right-EndsPlain}

-- a comment and the end of its line
abbrev pub comment : Bytes → Bytes
comment line = codes "//" ++ (line ++ b'\n' ∷ [])

-- A comment with no line behind it: SkipComment goes back to the text's front and finds it again, and
-- so its loop never ends.
comment_loop-unended :
    (fuel : ℕ) (s : Bytes)
    → lacks b'\n' s ≡ true
    → comment_loop fuel record { str_ = codes "//" ++ s; idx_ = 0 } ≡ out_of_fuel
unfolding comment_loop leading is_space same
comment_loop-unended zero s h = refl
comment_loop-unended (suc fuel) s h =
    rw
      (
        ahead-at [] (codes "//" ++ s),
        find-lacks b'\n' [] (codes "//" ++ s) h,
        skip-at is_space [] [] (codes "//" ++ s) refl,
        compare_at-at (codes "//") [] (codes "//" ++ s),
      )
      (comment_loop-unended fuel s h)

behind_comment :
    (line s : Bytes)
    → lacks b'\n' line ≡ true
    → find (b'\n' ∷ []) (comment line ++ s) ≡ some (suc (suc (length line)))
behind_comment line s h = rw (append_assoc line (b'\n' ∷ []) s) (
    find_append (b'\n' ∷ []) (codes "//" ++ line) s
      (find_append-lacks b'\n' [] (codes "//" ++ line) h))

inside :
    (front : Bytes) (c : ℕ) (s : Bytes) → leb (length (front ++ (c ∷ s))) (length front) ≡ false
inside front c s = ground (arith, length-append front (c ∷ s))

move_comment :
    (front line s : Bytes)
    → ◌≡◌ {A = Parser}
        record {
          str_ = front ++ (comment line ++ s);
          idx_ = length front + suc (suc (length line)) + 1;
        }
        (at (front ++ comment line) s)
move_comment front line s =
    let count : length front + suc (suc (length line)) + 1 ≡ length (front ++ comment line) =
      omega (arith, length-append front (comment line), length-append line (b'\n' ∷ [])) in
    λ i. record { str_ = sym (append_assoc front (comment line) s) i; idx_ = count i }

comment_loop-at :
    (fuel : ℕ) (front line : Bytes) (c : ℕ) (s : Bytes)
    → lacks b'\n' line ≡ true
    → IsToken c
    → comment_loop (suc fuel) (at front (comment line ++ (c ∷ s)))
      ≡ ok (at (front ++ comment line) (c ∷ s))
unfolding comment_loop leading
comment_loop-at fuel front line c s h (word, plain) =
    rw
      (
        ahead-at front (comment line ++ (c ∷ s)),
        behind_comment line (c ∷ s) h,
        move_comment front line (c ∷ s),
        skip-at is_space (front ++ comment line) [] (c ∷ s) (rw word refl),
        append-nil (front ++ comment line),
        compare_at-at (codes "//") (front ++ comment line) (c ∷ s),
        no_comment c s plain,
      )
      refl

-- a comment before a token is skipped
get_next_token-comment :
    (front line : Bytes) (c : ℕ) (s : Bytes)
    → lacks b'\n' line ≡ true
    → IsToken c
    → get_next_token (at front (comment line ++ (c ∷ s)))
      ≡ ok (c, at (front ++ comment line) (c ∷ s))
unfolding get_next_token skip_comment leading is_space same
get_next_token-comment front line c s h t =
    rw
      (
        skip-at is_space front [] (comment line ++ (c ∷ s)) refl,
        append-nil front,
        compare_at-at (codes "//") front (comment line ++ (c ∷ s)),
        comment_loop-at (length (front ++ (comment line ++ (c ∷ s)))) front line c s h t,
        inside front b'/' (b'/' ∷ ((line ++ b'\n' ∷ []) ++ (c ∷ s))),
        char_at-at (front ++ comment line) (c ∷ s),
      )
      refl

module _ (read_double : Bytes → ℕ) (print_double : ℕ → Bytes) where
  -- Parse in front of a comment does what it does behind it.
  parse-comment :
      (fuel : ℕ) (line t : Bytes) (c : ℕ) (s : Bytes)
      → lacks b'\n' line ≡ true
      → t ≡ c ∷ s
      → IsToken c
      → parse read_double fuel (at [] (comment line ++ t))
        ≡ parse read_double fuel (at (comment line) t)
  unfolding parse
  parse-comment zero line t c s h e k = refl
  parse-comment (suc fuel) line t c s h e k =
      rw (e, get_next_token-comment [] line c s h k, get_next_token-at (comment line) c s k) refl

  -- A comment line in front of the text that ToString writes of a value is skipped, and the value is
  -- read back.
  from_string-comment :
      (line : Bytes) (v : JObject)
      → lacks b'\n' line ≡ true
      → IsWritable v
      → from_string read_double (comment line ++ object_to_string print_double v) ≡ ok v
  unfolding from_string
  from_string-comment line v h w =
      let text = object_to_string print_double v in
      let (a, x, e, space) = text-EndsPlain print_double v w in
      let (c, s, start, token, _, _) = text-Starts print_double v w in
      let plain : EndsPlain (comment line ++ text) = (
        comment line ++ a,
        x,
        ap (comment line ++◌) e ∙ sym (append_assoc (comment line) a (x ∷ [])),
        space,
      ) in
      let fuel : ℕ = 2 * length (comment line ++ text) + 2 in
      let enough : cost v ≤ fuel =
        omega (arith, cost-le print_double v w, length-append (comment line) text) in
      let skipped = parse-comment fuel line text c s h start token in
      let read : parse read_double fuel (at (comment line) text)
          ≡ ok (v, at (comment line ++ text) []) =
        subst
          (λ t. parse read_double fuel (at (comment line) t) ≡ ok (v, at (comment line ++ text) []))
          (append-nil text)
          (parse-at read_double print_double fuel v (comment line) [] enough w (refl, refl)) in
      rw (trim_right-EndsPlain (comment line ++ text) plain, skipped, read) refl
