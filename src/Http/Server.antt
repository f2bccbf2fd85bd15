-- ===== src/Http/Server.antt =====
-- luce/net/http/http_server.{h,cpp}: the loop over the requests of one connection. Each call of
-- AsyncRead is the list of what the kernel's reads give it. The buffer's memory is MAX_REQUEST_SIZE
-- bytes, also after AsyncRead has resized it, so a zero behind the last byte read stays inside it unless
-- that many were read. What goes out is the buffer that SendResponse gives to AsyncWrite; a short write
-- is only logged. `new_status` is the status of a new HttpResponse, which is not initialised. An exception
-- that leaves OnRequest ends the program in its promise's unhandled_exception.
pub mod Serving
pub mod Bodies
use luce.Prelude.{
  ℕ, zero, suc, ◌+◌, ◌-◌, ◌*◌, ◌%◌, ◌^◌, Bool, true, false, not, ◌&&◌, ◌||◌, Option, none, some,
  List, [], ◌∷◌, ◌++◌, ltb, leb, ◌==◌, if◌then◌else◌, length, replicate, Bytes, codes, same,
  Outcome, ok, throws, undefined, exits, out_of_fuel, ◌>>=◌, c_string,
}
use luce.Decimal.{number_loop, starts_in_digit, to_string}
use luce.Table.{Table, lookup}
use luce.Io.{ReadResult, got, read_failed, async_read, put_at}
use luce.Http.Request.{HttpRequest, parse, no_request}
use luce.Http.Response.{HttpResponse, set_http_version, set_header, set_body, get_file_type, clear}
use luce.Http.Context.{new_context}
use luce.Http.Router.{HandleFunc, add_router, handle}

pub record HttpServer : Type 0 where
  pub router_ : Table HandleFunc
  pub static_path_ : Bytes

-- what a connection was sent, in order, and how many of its timers are left to run: each closes it
pub record Served : Type 0 where
  pub sent : List Bytes
  pub timers : ℕ

unfoldable pub get : Bytes → HandleFunc → HttpServer → HttpServer
get url handler s = record s { router_ = add_router (codes "GET") url handler s.router_ }

unfoldable pub post : Bytes → HandleFunc → HttpServer → HttpServer
post url handler s = record s { router_ = add_router (codes "POST") url handler s.router_ }

unfoldable pub put : Bytes → HandleFunc → HttpServer → HttpServer
put url handler s = record s { router_ = add_router (codes "PUT") url handler s.router_ }

unfoldable pub delete : Bytes → HandleFunc → HttpServer → HttpServer
delete url handler s = record s { router_ = add_router (codes "DELETE") url handler s.router_ }

-- LOG_FATAL ends the program; front() of an empty text is undefined
unfoldable pub set_static_path : Bytes → HttpServer → Outcome HttpServer
set_static_path [] s = undefined
set_static_path (c ∷ path) s =
    if not (c == b'/') then exits else ok record s { static_path_ = c ∷ path }

abbrev pub max_request_size : ℕ
max_request_size = 1024 * 64

-- AsyncRead into a buffer of this size, and buffer[recv_len] = '\0'
unfoldable pub receive_into : ℕ → List ReadResult → Outcome Bytes
receive_into size rs = do
  (recv_len, buffer) ← async_read rs (replicate size 0)
  if leb size recv_len then undefined else ok buffer

unfoldable pub receive : List ReadResult → Outcome Bytes
receive rs = receive_into max_request_size rs

-- std::stoi, as it is compared with a size_t: blanks in front, a sign, and digits up to 2^31
unfoldable pub stoi_digits : Bool → Bytes → Outcome ℕ
stoi_digits negative s =
    let n = number_loop 0 s in
    if not (starts_in_digit s)
    then throws
    else if negative
    then if ltb (2 ^ 31) n then throws else ok ((2 ^ 64 - n) % 2 ^ 64)
    else if leb (2 ^ 31) n
    then throws
    else ok n

unfoldable pub stoi : Bytes → Outcome ℕ
stoi [] = throws
stoi (c ∷ s) =
    let rest = stoi s in
    if c == 32 || (leb 9 c && leb c 13)
    then rest
    else if c == b'-'
    then stoi_digits true s
    else if c == b'+'
    then stoi_digits false s
    else stoi_digits false (c ∷ s)

-- the loop over the rest of a body: the body, and the calls of AsyncRead that are left
unfoldable pub body_loop :
    List (List ReadResult) → ℕ → Bytes → Outcome (Bytes × List (List ReadResult))
body_loop [] content_len body = if length body == content_len then ok (body, []) else out_of_fuel
body_loop (r ∷ rs) content_len body =
    if length body == content_len
    then ok (body, r ∷ rs)
    else (do chunk ← receive r; body_loop rs content_len (body ++ c_string chunk))

unfoldable pub read_rest :
    HttpRequest → List (List ReadResult) → Outcome (HttpRequest × List (List ReadResult))
read_rest req rs = elim (lookup (codes "Content-Length") req.headers) [
  | none ↦ ok (req, rs)
  | some value ↦ do
    content_len ← stoi value
    (body, rs') ← body_loop rs content_len req.body
    ok (record req { body = body }, rs')
]

-- whether the connection is to end behind this request
unfoldable pub closes : HttpRequest → Bool
closes req = elim (lookup (codes "Connection") req.headers) [
  | none ↦ false
  | some value ↦ same value (codes "close")
]

module _ (walk : Table Bytes → List (Bytes × Bytes)) (not_found : Bytes → Bytes → Bytes)
    (new_status : ℕ) where
  unfoldable pub new_response : HttpResponse
  new_response = record { buffer = []; status_code = new_status; http_version = []; headers = [] }

  -- ServerHTTP and SendResponse: the text that goes out
  unfoldable pub server_http : HttpServer → HttpRequest → Bytes
  server_http s req =
      let res = set_http_version new_response req.http_version in
      let ctx = handle walk not_found s.router_ (new_context req res) in ctx.res.buffer

  -- OnRequest. A timer is added in each round, and removed where a request was read; the tests for a
  -- length below 0 are never true of a size_t.
  unfoldable pub on_request : ℕ → HttpServer → List (List ReadResult) → Outcome Served
  on_request zero s rs = out_of_fuel
  on_request (suc fuel) s [] = out_of_fuel
  on_request (suc fuel) s (r ∷ rs) = do
    buffer ← receive r
    if same buffer []
        then (do later ← on_request fuel s rs; ok record later { timers = suc later.timers })
        else (do
          req ← parse no_request (c_string buffer)
          (req', rs') ← read_rest req rs
          let out = server_http s req'
          let go_on = on_request fuel s rs'
          if closes req'
              then ok record { sent = out ∷ []; timers = 0 }
              else (do later ← go_on; ok record later { sent = out ∷ later.sent }))

  -- the loop of SendFile over the reads of the file: each time the whole buffer goes out
  unfoldable pub file_loop : List ReadResult → Bytes → Outcome (List Bytes)
  file_loop [] buffer = out_of_fuel
  file_loop (read_failed e ∷ rs) buffer = ok []
  file_loop (got [] ∷ rs) buffer = ok []
  file_loop (got (c ∷ d) ∷ rs) buffer =
      let later = file_loop rs (put_at 0 (c ∷ d) buffer) in
      if ltb (length buffer) (length (c ∷ d))
      then undefined
      else (do out ← later; ok (put_at 0 (c ∷ d) buffer ∷ out))

  -- SendFile of a file of this size: what goes out. `file` is none where open fails, and else what the
  -- reads give.
  unfoldable pub send_file :
      Bytes → ℕ → Option (List ReadResult) → HttpResponse → Outcome (List Bytes)
  send_file path file_size file response = do
    type_ ← get_file_type path
    let typed = set_header response (codes "Content-Type:") type_
    let sized = set_header typed (codes "Content-Length:") (to_string file_size)
    let head = set_body walk sized (b'\r' ∷ b'\n' ∷ [])
    contents ← elim file [ none ↦ ok [] | some rs ↦ file_loop rs (replicate file_size 0) ]
    ok (head.buffer ∷ contents)
