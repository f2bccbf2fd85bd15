-- ===== src/Http/Context.antt =====
-- luce/net/http/http_context.h: `HttpContext`, what a handler sees of a request and its response.
-- A handler shares the context with the router, so a call returns the context it leaves. `String`
-- formats its body with the fmt library, which is a parameter: here it takes the formatted text.
use luce.Prelude.{ℕ, none, some, List, [], Bytes, codes}
use luce.Table.{Table, lookup}
use luce.Http.Request.{HttpRequest}
use luce.Http.Response.{HttpResponse, set_body, set_status_code, set_header}

pub record HttpContext : Type 0 where
  pub req : HttpRequest
  pub res : HttpResponse
  pub path : Bytes
  pub method : Bytes
  pub status_code : ℕ

unfoldable pub new_context : HttpRequest → HttpResponse → HttpContext
new_context req res = record {
  req = req;
  res = res;
  path = req.url;
  method = req.method;
  status_code = 500;
}

unfoldable pub query : Bytes → Table Bytes → Bytes
query key params = elim (lookup key params) [ none ↦ [] | some value ↦ value ]

unfoldable pub query_url : HttpContext → Bytes → Bytes
query_url ctx key = query key ctx.req.url_params

unfoldable pub query_body : HttpContext → Bytes → Bytes
query_body ctx key = query key ctx.req.body_params

unfoldable pub set_context_header : HttpContext → Bytes → Bytes → HttpContext
set_context_header ctx key value = record ctx { res = set_header ctx.res key value }

unfoldable pub status : HttpContext → ℕ → HttpContext
status ctx code = record ctx { res = set_status_code ctx.res code; status_code = code }

unfoldable pub write_body : (Table Bytes → List (Bytes × Bytes)) → HttpContext → Bytes → HttpContext
write_body walk ctx body = record ctx { res = set_body walk ctx.res body }

-- `String`, with the text that the format gives
unfoldable pub text : (Table Bytes → List (Bytes × Bytes)) → HttpContext → ℕ → Bytes → HttpContext
text walk ctx code formatted =
    write_body walk
      (status (set_context_header ctx (codes "Content-Type") (codes "text/plain")) code) formatted

-- `JSON` sets the header and the status, and writes no body: the call of `SetBody` is commented out
unfoldable pub json : HttpContext → ℕ → HttpContext
json ctx code =
    status (set_context_header ctx (codes "Content-Type") (codes "application/json")) code

unfoldable pub html : (Table Bytes → List (Bytes × Bytes)) → HttpContext → ℕ → Bytes → HttpContext
html walk ctx code body =
    write_body walk
      (status (set_context_header ctx (codes "Content-Type") (codes "text/html")) code) body
