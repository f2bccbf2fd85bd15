-- ===== src/Http/Request.antt =====
-- luce/net/http/http_request.{h,cpp}: `HttpRequest` and its `Parse`.
-- `LOG_ERROR` only writes to a log and the code goes on; reading a vector past its end is
-- undefined. `String::Trim(key)` returns the trimmed view and leaves its argument alone, so the
-- calls whose result is dropped do nothing.
pub mod Total
pub mod Text
pub mod RoundTrip
pub mod Faults
use luce.Prelude.{
  ℕ, zero, suc, ◌+◌, Bool, true, false, not, ◌&&◌, Option, none, some, List, [], ◌∷◌, ◌++◌, ◌==◌,
  if◌then◌else◌, length, get_elem?, Bytes, codes, same, Outcome, ok, or_undefined, ◌>>=◌,
}
use luce.Table.{Table, insert}
use luce.StringUtil.{split, contains}

pub record HttpRequest : Type 0 where
  pub method : Bytes
  pub url : Bytes
  pub uri : Bytes
  pub http_version : Bytes
  pub body : Bytes
  pub headers : Table Bytes
  pub url_params : Table Bytes
  pub body_params : Table Bytes

abbrev pub crlf : Bytes
crlf = b'\r' ∷ b'\n' ∷ []

abbrev pub blank_line : Bytes
blank_line = b'\r' ∷ b'\n' ∷ b'\r' ∷ b'\n' ∷ []

abbrev pub at : List Bytes → ℕ → Outcome Bytes
at v i = or_undefined (get_elem? v i)

-- the `if` behind each split of a key and a value
unfoldable pub store_pair : List Bytes → Table Bytes → Table Bytes
store_pair (key ∷ value ∷ []) m = insert key value m
store_pair _ m = m

-- the loop of `ParseURLParams` and of `ParseBody`, over the fields split at '&'
unfoldable pub params_loop : List Bytes → Table Bytes → Outcome (Table Bytes)
params_loop [] m = ok m
params_loop (param ∷ params) m = do
  key_value ← split param (b'=' ∷ []) true
  params_loop params (store_pair key_value m)

unfoldable pub parse_url_params : HttpRequest → Bytes → Outcome HttpRequest
parse_url_params r url = do
  params ← split url (b'&' ∷ []) true
  m ← params_loop params r.url_params
  ok (record r { url_params = m })

unfoldable pub parse_body : HttpRequest → Bytes → Outcome HttpRequest
parse_body r body = do
  params ← split body (b'&' ∷ []) true
  m ← params_loop params r.body_params
  ok (record r { body_params = m })

-- the loop of `ParseHeaders`, from its second line on
unfoldable pub headers_loop : List Bytes → Table Bytes → Outcome (Table Bytes)
headers_loop [] m = ok m
headers_loop (header ∷ headers) m =
    let skip = headers_loop headers m in
    let read : Outcome (Table Bytes) = do
      key_value ← split header (b':' ∷ []) false
      headers_loop headers (store_pair key_value m)
    in if not (same header []) && contains header (b':' ∷ []) then read else skip

unfoldable pub parse_headers : HttpRequest → List Bytes → Outcome HttpRequest
parse_headers r [] = ok r
parse_headers r (line ∷ headers) = do
  m ← headers_loop headers r.headers
  ok (record r { headers = m })

-- the part of `ParseLine` behind the three fields
unfoldable pub parse_uri : HttpRequest → List Bytes → Outcome HttpRequest
parse_uri r (path ∷ params ∷ []) = parse_url_params (record r { uri = path }) params
parse_uri r _ = ok (record r { uri = r.url })

unfoldable pub parse_line : HttpRequest → Bytes → Outcome HttpRequest
parse_line r line = do
  line_datas ← split line (b' ' ∷ []) true
  method ← at line_datas 0
  url ← at line_datas 1
  http_version ← at line_datas 2
  url_datas ← split url (b'&' ∷ []) true
  parse_uri (record r { method = method; url = url; http_version = http_version }) url_datas

-- the `if` of `Parse` that stores the body
unfoldable pub store_body : HttpRequest → Bytes → HttpRequest
store_body r body = if not (same body []) then record r { body = body } else r

unfoldable pub parse : HttpRequest → Bytes → Outcome HttpRequest
parse r data_ = do
  head_and_body ← split data_ blank_line true
  body ← at head_and_body 1
  head ← at head_and_body 0
  line_and_head ← split head crlf false
  line ← at line_and_head 0
  r2 ← parse_line (store_body r body) line
  r3 ← parse_headers r2 line_and_head
  parse_body r3 body

-- a request before `Parse`
abbrev pub no_request : HttpRequest
no_request = record {
  method = [];
  url = [];
  uri = [];
  http_version = [];
  body = [];
  headers = [];
  url_params = [];
  body_params = [];
}
