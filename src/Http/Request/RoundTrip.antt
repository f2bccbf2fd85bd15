-- ===== src/Http/Request/RoundTrip.antt =====
-- `Parse` reads back a request that is written in the form of RFC 7230 without white space.
use luce.Prelude.{◌≡◌, refl, true, [], ◌∷◌, Bytes, same, ok}
use luce.Table.{Table}
use luce.StringUtil.Total.{split-Ends}
use luce.Http.Request.{HttpRequest, parse_headers, parse_line, store_body, parse, no_request}
use luce.Http.Request.Total.{parse_body_ends, parse_uri_ends}
use luce.Http.Request.Text.{
  RequestText, render, IsRequest, inserted, request_line, headers_loop-inserted, split-request_line,
  split-head_text, split-render,
}

parse_line-render :
    (r : HttpRequest) (q : RequestText)
    → IsRequest q
    → (u : Bytes) × (m : Table Bytes) × (parse_line r (request_line q)
        ≡ ok (record r {
          method = q.method;
          url = q.url;
          http_version = q.http_version;
          uri = u;
          url_params = m;
        }))
unfolding parse_line
parse_line-render r q w =
    let (url_datas, e) = split-Ends q.url (b'&' ∷ []) true (λ x. cc) in
    let line : HttpRequest = record r {
      method = q.method;
      url = q.url;
      http_version = q.http_version;
    } in
    let (u, m, f) = parse_uri_ends line url_datas in (u, m, rw (split-request_line q w, e) f)

-- the `if` that stores the body stores it also where it is empty
store_body-no_request : (b : Bytes) → store_body no_request b ≡ record no_request { body = b }
unfolding store_body same
store_body-no_request [] = refl
store_body-no_request (x ∷ b) = refl

-- A request written as method, URL and version between single blanks, header lines "key:value" of
-- non-empty parts that hold no ':' and no carriage return, a blank line and a body without one is
-- parsed into exactly these texts, with the headers inserted in order.
pub parse-render :
    (q : RequestText)
    → IsRequest q
    → (u : Bytes) × (url_params : Table Bytes) × (body_params : Table Bytes) × (parse no_request
          (render q)
        ≡ ok (record {
          method = q.method;
          url = q.url;
          uri = u;
          http_version = q.http_version;
          body = q.body;
          headers = inserted q.headers [];
          url_params = url_params;
          body_params = body_params;
        }))
unfolding parse parse_headers
parse-render q w =
    let (u, m, line) = parse_line-render (record no_request { body = q.body }) q w in
    let (b, last) =
      parse_body_ends
        (record no_request {
          method = q.method;
          url = q.url;
          uri = u;
          http_version = q.http_version;
          body = q.body;
          headers = inserted q.headers [];
          url_params = m;
        })
        q.body in
    (
      u,
      m,
      b,
      rw
          (
            split-render q w,
            store_body-no_request q.body,
            split-head_text q w,
            line,
            headers_loop-inserted q.headers [] w.headers,
          )
          last,
    )
