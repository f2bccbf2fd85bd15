-- ===== src/Http/Server/Bodies.antt =====
-- A body that arrives in several reads.
use luce.Prelude.{
  ℕ, suc, ◌+◌, ◌<◌, ◌≡◌, refl, sym, ap, ◌∙◌, true, false, List, [], ◌∷◌, ◌++◌, ◌==◌, length, Bytes,
  ok, arith, length-append, append_assoc, append-nil, ==_refl, some, codes, c_string,
}
use luce.Table.{lookup}
use luce.StringUtil.Find.{lacks}
use luce.Io.{ReadResult, got}
use luce.Http.Request.{HttpRequest}
use luce.Http.Server.{max_request_size, receive, stoi, body_loop, read_rest}
use luce.Http.Server.Serving.{receive-got, c_string-lacks}

-- the calls of AsyncRead give these bytes first: in parts that are not empty, of less than
-- MAX_REQUEST_SIZE bytes, and without a zero
pub data Arrives : List (List ReadResult) → Bytes → Type 0 where
  all_there : (rs : List (List ReadResult)) → Arrives rs []
  part :
      (c : ℕ) (d : Bytes) (r : List ReadResult) (rs : List (List ReadResult)) (s : Bytes)
      → suc (length d) < max_request_size
      → lacks 0 (c ∷ d) ≡ true
      → Arrives rs s
      → Arrives ((got (c ∷ d) ∷ r) ∷ rs) ((c ∷ d) ++ s)

body_loop-whole :
    (rs : List (List ReadResult)) (n : ℕ) (body : Bytes)
    → n ≡ length body
    → body_loop rs n body ≡ ok (body, rs)
unfolding body_loop
body_loop-whole [] n body e = rw (e, ==_refl (length body)) refl
body_loop-whole (r ∷ rs) n body e = rw (e, ==_refl (length body)) refl

body_loop-step :
    (n : ℕ) (body chunk : Bytes) (r : List ReadResult) (rs : List (List ReadResult))
    → (length body == n) ≡ false
    → receive r ≡ ok chunk
    → c_string chunk ≡ chunk
    → body_loop (r ∷ rs) n body ≡ body_loop rs n (body ++ chunk)
unfolding body_loop
body_loop-step n body chunk r rs more e plain = rw (more, e, plain) refl

body_loop-Arrives :
    (rs : List (List ReadResult)) (s body : Bytes)
    → Arrives rs s
    → (rs' : List (List ReadResult)) × (body_loop rs (length body + length s) body
        ≡ ok (body ++ s, rs'))
unfolding body_loop
body_loop-Arrives rs _ body (all_there _) = (
  rs,
  body_loop-whole rs (length body + 0) body (omega arith)
      ∙ ap (λ b. ok (b, rs)) (sym (append-nil body)),
)
body_loop-Arrives _ _ body (part c d r rs s short plain a) =
    let n : ℕ = length body + length ((c ∷ d) ++ s) in
    let (rs', e) = body_loop-Arrives rs s (body ++ (c ∷ d)) a in
    let more : (length body == n) ≡ false = ground (arith, length-append (c ∷ d) s) in
    let count : n ≡ length (body ++ (c ∷ d)) + length s =
      omega (arith, length-append (c ∷ d) s, length-append body (c ∷ d)) in
    (
      rs',
      body_loop-step n body (c ∷ d) (got (c ∷ d) ∷ r) rs more (receive-got (c ∷ d) r short)
            (c_string-lacks (c ∷ d) plain)
          ∙ ap (λ i. body_loop rs i (body ++ (c ∷ d))) count
          ∙ e
          ∙ ap (λ b. ok (b, rs')) (append_assoc body (c ∷ d) s),
    )

-- Of a request whose Content-Length is that of the part of the body that came with its head and of a
-- rest that arrives in further reads, the whole body is read.
pub read_rest-Arrives :
    (req : HttpRequest) (value s : Bytes) (rs : List (List ReadResult))
    → lookup (codes "Content-Length") req.headers ≡ some value
    → stoi value ≡ ok (length req.body + length s)
    → Arrives rs s
    → (rs' : List (List ReadResult)) × (read_rest req rs
        ≡ ok (record req { body = req.body ++ s }, rs'))
unfolding read_rest
read_rest-Arrives req value s rs header size a =
    let (rs', e) = body_loop-Arrives rs s req.body a in (rs', rw (read_rest, header, size, e) refl)
