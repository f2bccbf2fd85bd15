-- ===== src/Http/Response/Written.antt =====
-- The text that `SetBody` writes, read back the way that a client reads a message.
use luce.Prelude.{
  ℕ, zero, suc, ◌+◌, ◌/◌, ◌%◌, ◌≡◌, ◌≢◌, refl, sym, ap, ◌∙◌, true, false, some, List, [], ◌∷◌, ◌++◌,
  ltb, Bytes, find, length, ok, arith, append_assoc, append-nil, Bool-cases, inl, inr,
}
use luce.StringUtil.{split}
use luce.StringUtil.Find.{lacks, find_append}
use luce.StringUtil.Join.{joined, joined-ne}
use luce.StringUtil.Split.{split-joined}
use luce.Http.Request.{crlf, blank_line}
use luce.Http.Request.Text.{
  header_line, header_lines, AreLines, find_head, lacks-append, lines-Separable,
}
use luce.Table.{Table}
use luce.Decimal.{digits_loop, to_string}
use luce.Http.Response.{HttpResponse, get_code_descript, write_headers, set_body}

-- what the loop appends
abbrev lines_text : List (Bytes × Bytes) → Bytes
lines_text [] = []
lines_text (h ∷ hs) = header_line h ++ (crlf ++ lines_text hs)

write_headers-lines_text :
    (hs : List (Bytes × Bytes)) (b : Bytes) → write_headers hs b ≡ b ++ lines_text hs
unfolding write_headers
write_headers-lines_text [] b = sym (append-nil b)
write_headers-lines_text ((k, v) ∷ hs) b =
    write_headers-lines_text hs (b ++ (k ++ (b':' ∷ (v ++ crlf)))) ∙ simp append_assoc

joined-lines_text :
    (hs : List (Bytes × Bytes)) (start : Bytes)
    → joined crlf (start ∷ header_lines hs) ++ crlf ≡ start ++ (crlf ++ lines_text hs)
joined-lines_text [] start = refl
joined-lines_text (h ∷ hs) start =
    append_assoc start (crlf ++ joined crlf (header_line h ∷ header_lines hs)) crlf
    ∙ ap (λ t. start ++ (crlf ++ t)) (joined-lines_text hs (header_line h))

digits_loop-lacks :
    (fuel n : ℕ) (out : Bytes)
    → lacks b'\r' out ≡ true
    → lacks b'\r' (digits_loop fuel n out) ≡ true
unfolding digits_loop
digits_loop-lacks zero n out h = h
digits_loop-lacks (suc fuel) n out h = elim (Bool-cases (ltb n 10)) [
  | inl last ↦ rw last (ground arith)
  | inr more ↦ rw more (digits_loop-lacks fuel (n / 10) ((b'0' + n % 10) ∷ out) (ground arith))
]

get_code_descript-lacks : (code : ℕ) → lacks b'\r' (get_code_descript code) ≡ true
unfolding get_code_descript
get_code_descript-lacks code = ground arith

abbrev pub status_line : HttpResponse → Bytes
status_line r =
    r.http_version ++ (b' ' ∷ (to_string r.status_code ++ (b' ' ∷ get_code_descript r.status_code)))

status_line-lacks :
    (r : HttpResponse) → lacks b'\r' r.http_version ≡ true → lacks b'\r' (status_line r) ≡ true
unfolding to_string
status_line-lacks r h =
    let code = digits_loop-lacks (suc r.status_code) r.status_code [] refl in
    lacks-append b'\r' r.http_version _ h
      (lacks-append b'\r' (to_string r.status_code) _ code (get_code_descript-lacks r.status_code))

status_line-ne : (v a b : Bytes) → v ++ (b' ' ∷ (a ++ (b' ' ∷ b))) ≢ []
status_line-ne [] a b e = cc
status_line-ne (x ∷ v) a b e = cc

module _ (walk : Table Bytes → List (Bytes × Bytes)) (r : HttpResponse) where
  abbrev pub response_head : Bytes
  response_head = joined crlf (status_line r ∷ header_lines (walk r.headers))

  start_shape :
      r.http_version
        ++ (b' ' ∷ (to_string r.status_code ++ (b' ' ∷ (get_code_descript r.status_code ++ crlf))))
      ≡ status_line r ++ crlf
  start_shape = simp append_assoc

  headed_shape : write_headers (walk r.headers) (status_line r ++ crlf) ≡ response_head ++ crlf
  headed_shape =
      write_headers-lines_text (walk r.headers) (status_line r ++ crlf)
      ∙ append_assoc (status_line r) crlf (lines_text (walk r.headers))
      ∙ sym (joined-lines_text (walk r.headers) (status_line r))

  -- the buffer is the head, a blank line, the body and one more line break
  set_body-shape :
      (body : Bytes)
      → (set_body walk r body).buffer ≡ response_head ++ (blank_line ++ (body ++ crlf))
  unfolding set_body
  set_body-shape body = rw (start_shape, headed_shape) (simp append_assoc)

  -- `SetBody` writes a message that a client takes apart at its first blank line: in front of it
  -- stand the status line and the headers in the map's order, one to a line, and behind it the body
  -- and one line break that is not part of the body. The version and the headers hold no carriage
  -- return.
  pub set_body_message :
      (body : Bytes)
      → lacks b'\r' r.http_version ≡ true
      → AreLines (header_lines (walk r.headers))
      → (head : Bytes) × ((set_body walk r body).buffer ≡ head ++ (blank_line ++ (body ++ crlf)))
        × (find blank_line (set_body walk r body).buffer ≡ some (length head))
        × (split head crlf false ≡ ok (status_line r ∷ header_lines (walk r.headers)))
  set_body_message body v hs =
      let ne =
        status_line-ne r.http_version (to_string r.status_code) (get_code_descript r.status_code) in
      let lines : AreLines (status_line r ∷ header_lines (walk r.headers)) =
        (status_line-lacks r v, ne, hs) in
      (
        response_head,
        set_body-shape body,
        rw (set_body-shape body) (
            find_append blank_line response_head (body ++ crlf)
              (find_head (status_line r) (header_lines (walk r.headers)) lines)),
        split-joined crlf false (status_line r ∷ header_lines (walk r.headers)) (λ e. cc)
            (lines-Separable (header_lines (walk r.headers)) (status_line r) lines)
            (joined-ne crlf (status_line r) (header_lines (walk r.headers)) ne),
      )
