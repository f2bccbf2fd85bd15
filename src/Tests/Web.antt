-- ===== src/Tests/Web.antt =====
-- luce/net/http on concrete requests.
use luce.Prelude.{◌≡◌, refl, false, List, [], ◌∷◌, ◌++◌, some, Bytes, codes, find, ok, length}
use luce.Table.{Table}
use luce.StringUtil.{split}
use luce.Http.Request.{crlf, blank_line, parse, no_request}
use luce.Http.Request.Text.{RequestText, render, IsRequest, inserted, header_lines}
use luce.Http.Request.RoundTrip.{parse-render}
use luce.Http.Request.Faults.{EndsOrFaults, parse-EndsOrFaults}
use luce.Http.Response.{HttpResponse, set_body}
use luce.Http.Response.Written.{status_line, set_body_message}

abbrev login : RequestText
login = record {
  method = codes "POST";
  url = codes "/login/";
  http_version = codes "HTTP/1.1";
  headers = (codes "Host", codes "luce") ∷ (codes "Connection", codes "close") ∷ [];
  body = codes "name=pgj";
}

login-IsRequest : IsRequest login
unfolding find
login-IsRequest = record {
  method = (refl, refl);
  url = (refl, refl);
  http_version = (refl, refl);
  headers = (
    (refl, refl, refl, refl, λ e. cc, λ e. cc),
    ((refl, refl, refl, refl, λ e. cc, λ e. cc), tt),
  );
  body = refl;
}

parse-render_example :
    (u : Bytes) × (url_params : Table Bytes) × (body_params : Table Bytes) × (parse no_request
        (render login)
      ≡ ok (record {
        method = login.method;
        url = login.url;
        uri = u;
        http_version = login.http_version;
        body = login.body;
        headers = inserted login.headers [];
        url_params = url_params;
        body_params = body_params;
      }))
parse-render_example = parse-render login login-IsRequest

abbrev cut_short : Bytes
cut_short = codes "GET / HTTP/1.1"

parse-EndsOrFaults_example : EndsOrFaults (parse no_request cut_short)
parse-EndsOrFaults_example = parse-EndsOrFaults no_request cut_short

abbrev in_order : Table Bytes → List (Bytes × Bytes)
in_order m = m

abbrev answer : HttpResponse
answer = record {
  buffer = [];
  status_code = 404;
  http_version = codes "HTTP/1.1";
  headers = (codes "Content-Type", codes "text/html") ∷ [];
}

set_body_message_example :
    (head : Bytes) × ((set_body in_order answer (codes "gone")).buffer
      ≡ head ++ (blank_line ++ (codes "gone" ++ crlf)))
    × (find blank_line (set_body in_order answer (codes "gone")).buffer ≡ some (length head))
    × (split head crlf false ≡ ok (status_line answer ∷ header_lines answer.headers))
set_body_message_example = set_body_message in_order answer (codes "gone") refl (refl, λ e. cc, tt)
