-- ===== src/Http/Server/Serving.antt =====
-- A request on a connection, from the bytes that arrive to the text that goes out.
use luce.Prelude.{
  ℕ, zero, suc, ◌+◌, ◌≤◌, ◌<◌, ◌≡◌, ◌≢◌, refl, ap, ◌∙◌, true, false, none, some, List, [], ◌∷◌,
  ◌++◌, ltb, leb, if◌then◌else◌, length, take, drop, replicate, Bytes, codes, same, Outcome, ok,
  out_of_fuel, ◌>>=◌, arith, length-append, append_assoc, take-append, length-replicate, c_string,
}
use luce.Table.{Table, lookup}
use luce.StringUtil.{ends_with}
use luce.StringUtil.Find.{lacks}
use luce.Io.{ReadResult, got, async_read, put_at, resize}
use luce.Http.Request.{HttpRequest, parse, no_request, blank_line}
use luce.Http.Request.Text.{RequestText, IsRequest, render, head_text, inserted}
use luce.Http.Request.RoundTrip.{parse-render}
use luce.Http.Response.{set_http_version}
use luce.Http.Context.{HttpContext, new_context}
use luce.Http.Router.{HandleFunc, add_router}
use luce.Http.Router.Dispatch.{handle-add_router_self}
use luce.Http.Server.{
  HttpServer, Served, max_request_size, receive_into, receive, read_rest, closes, new_response,
  server_http, on_request,
}

pub c_string-lacks : (s : Bytes) → lacks 0 s ≡ true → c_string s ≡ s
unfolding c_string
c_string-lacks [] h = refl
c_string-lacks (c ∷ s) h = ground (arith, c_string-lacks s)

async_read-got :
    (d buffer : Bytes) (rs : List ReadResult)
    → length d ≤ length buffer
    → async_read (got d ∷ rs) buffer ≡ ok (length d, d)
unfolding async_read put_at resize
async_read-got d buffer rs h =
    let fits : ltb (length buffer) (length d) ≡ false = ground arith in
    let kept : take (length d) ((d ++ drop (0 + length d) buffer) ++ replicate (length d) 0) ≡ d =
      rw (append_assoc d (drop (0 + length d) buffer) (replicate (length d) 0))
        (take-append d (drop (0 + length d) buffer ++ replicate (length d) 0) (length d) refl) in
    rw (fits, kept) refl

room : (size : ℕ) (d : Bytes) → length d < size → length d ≤ length (replicate {A = ℕ} size 0)
room size d h = omega (arith, length-replicate {A = ℕ} size 0)

short_of : (size n : ℕ) → n < size → leb size n ≡ false
short_of size n h = ground arith

receive_into-got :
    (size : ℕ) (d : Bytes) (rs : List ReadResult)
    → length d < size
    → receive_into size (got d ∷ rs) ≡ ok d
unfolding receive_into
receive_into-got size d rs h =
    rw (async_read-got d (replicate size 0) rs (room size d h), short_of size (length d) h) refl

pub receive-got :
    (d : Bytes) (rs : List ReadResult) → length d < max_request_size → receive (got d ∷ rs) ≡ ok d
unfolding receive
receive-got d rs h = receive_into-got max_request_size d rs h

read_rest-none :
    (req : HttpRequest) (rs : List (List ReadResult))
    → lookup (codes "Content-Length") req.headers ≡ none
    → read_rest req rs ≡ ok (req, rs)
unfolding read_rest
read_rest-none req rs h = rw (read_rest, h) refl

closes-close :
    (req : HttpRequest)
    → lookup (codes "Connection") req.headers ≡ some (codes "close")
    → closes req ≡ true
unfolding closes same
closes-close req h = rw (closes, h) refl

same-longer : (s : Bytes) → 1 ≤ length s → same s [] ≡ false
unfolding same
same-longer [] h = absurd (omega arith)
same-longer (c ∷ s) h = refl

length-render : (q : RequestText) → 1 ≤ length (render q)
length-render q = omega (arith, length-append (head_text q) (blank_line ++ q.body))

-- each call of AsyncRead gives nothing, as on a connection that the client has closed
abbrev pub AreEmpty : List (List ReadResult) → Type 0
AreEmpty [] = Unit
AreEmpty (r ∷ rs) = (receive r ≡ ok []) × AreEmpty rs

module _ (walk : Table Bytes → List (Bytes × Bytes)) (not_found : Bytes → Bytes → Bytes)
    (new_status : ℕ) where
  -- OnRequest behind Parse
  abbrev behind_parse : ℕ → HttpServer → HttpRequest → List (List ReadResult) → Outcome Served
  behind_parse fuel s req rs = do
    (req', rs') ← read_rest req rs
    let out = server_http walk not_found new_status s req'
    let go_on = on_request walk not_found new_status fuel s rs'
    if closes req'
        then ok record { sent = out ∷ []; timers = 0 }
        else (do later ← go_on; ok record later { sent = out ∷ later.sent })

  parsed :
      (fuel : ℕ) (s : HttpServer) (d : Bytes) (req : HttpRequest) (rs : List ReadResult)
      (later : List (List ReadResult))
      → length d < max_request_size
      → 1 ≤ length d
      → lacks 0 d ≡ true
      → parse no_request d ≡ ok req
      → on_request walk not_found new_status (suc fuel) s ((got d ∷ rs) ∷ later)
        ≡ behind_parse fuel s req later
  unfolding on_request
  parsed fuel s d req rs later short some_byte plain e =
      rw (receive-got d rs short, same-longer d some_byte, c_string-lacks d plain, e) refl

  -- A request that arrives in one read of less than MAX_REQUEST_SIZE bytes, none of them zero, with the
  -- header Connection "close" and no Content-Length, is served by the handler that was added last, if
  -- that is its method's and URL's: the handler sees the method, the URL, the headers and the body that
  -- were sent, the text it leaves goes out, and the connection ends with no timer left.
  pub on_request-render :
      (fuel : ℕ) (s : HttpServer) (handler : HandleFunc) (t : Table HandleFunc) (q : RequestText)
      (rs : List ReadResult) (later : List (List ReadResult))
      → s.router_ ≡ add_router q.method q.url handler t
      → q.method ≢ codes "DELETE"
      → ends_with q.url (codes "/") ≡ true
      → IsRequest q
      → lacks 0 (render q) ≡ true
      → length (render q) < max_request_size
      → lookup (codes "Content-Length") (inserted q.headers []) ≡ none
      → lookup (codes "Connection") (inserted q.headers []) ≡ some (codes "close")
      → (ctx : HttpContext) × ((ctx.method ≡ q.method) × (ctx.path ≡ q.url))
        × (ctx.req.headers ≡ inserted q.headers [])
        × (ctx.req.body ≡ q.body)
        × (on_request walk not_found new_status (suc fuel) s ((got (render q) ∷ rs) ∷ later)
            ≡ ok record { sent = (handler ctx).res.buffer ∷ []; timers = 0 })
  unfolding server_http new_context
  on_request-render fuel s handler t q rs later route ne slash w plain short whole close =
      let (u, m, b, e) = parse-render q w in
      let req : HttpRequest = record {
        method = q.method;
        url = q.url;
        uri = u;
        http_version = q.http_version;
        body = q.body;
        headers = inserted q.headers [];
        url_params = m;
        body_params = b;
      } in
      let ctx =
        new_context req
          (set_http_version (new_response walk not_found new_status) q.http_version) in
      let served =
        handle-add_router_self walk not_found q.method q.url handler t ctx ne slash refl refl in
      let out : server_http walk not_found new_status s req ≡ (handler ctx).res.buffer =
        rw route (ap (λ c. c.res.buffer) served) in
      (
        ctx,
        (refl, refl),
        refl,
        refl,
        parsed fuel s (render q) req rs later short (length-render q) plain e
            ∙ rw (read_rest-none req later whole, closes-close req close, out) refl,
      )

  -- While AsyncRead gives nothing, as it does behind the end of the stream or after an error, the loop
  -- over the requests of a connection does not end.
  pub on_request-AreEmpty :
      (fuel : ℕ) (s : HttpServer) (rs : List (List ReadResult))
      → AreEmpty rs
      → on_request walk not_found new_status fuel s rs ≡ out_of_fuel
  unfolding on_request same
  on_request-AreEmpty zero s rs h = refl
  on_request-AreEmpty (suc fuel) s [] h = refl
  on_request-AreEmpty (suc fuel) s (r ∷ rs) (e, h) = rw (e, on_request-AreEmpty fuel s rs h) refl
