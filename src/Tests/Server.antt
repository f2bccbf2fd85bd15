-- ===== src/Tests/Server.antt =====
-- luce/net/http/http_server.cpp on a concrete connection.
use luce.Prelude.{
  some, ◌≡◌, refl, List, [], ◌∷◌, ◌++◌, Bytes, codes, find, same, ok, out_of_fuel, arith,
}
use luce.Table.{Table, lookup, insert}
use luce.StringUtil.{ends_with}
use luce.Io.{ReadResult, got}
use luce.Http.Request.Text.{RequestText, IsRequest, render, inserted}
use luce.Http.Context.{HttpContext, html}
use luce.Http.Router.{HandleFunc}
use luce.Http.Server.{read_rest, stoi, stoi_digits, HttpServer, on_request, get}
use luce.Http.Request.{HttpRequest, no_request}
use luce.Decimal.{number_loop, is_digit}
use luce.Http.Server.Bodies.{Arrives, all_there, part, read_rest-Arrives}
use luce.Http.Server.Serving.{on_request-render, on_request-AreEmpty, receive-got}

abbrev as_listed : Table Bytes → List (Bytes × Bytes)
as_listed m = m

abbrev lost : Bytes → Bytes → Bytes
lost method path = codes "404 Not Found: " ++ (method ++ (codes " not at " ++ path))

abbrev welcome : HandleFunc
welcome ctx = html as_listed ctx 200 (codes "hello")

abbrev visit : RequestText
visit = record {
  method = codes "GET";
  url = codes "/hello/";
  http_version = codes "HTTP/1.1";
  headers = (codes "Host", codes "luce") ∷ (codes "Connection", codes "close") ∷ [];
  body = [];
}

visit-IsRequest : IsRequest visit
unfolding find
visit-IsRequest = record {
  method = (refl, refl);
  url = (refl, refl);
  http_version = (refl, refl);
  headers = (
    (refl, refl, refl, refl, λ e. cc, λ e. cc),
    ((refl, refl, refl, refl, λ e. cc, λ e. cc), tt),
  );
  body = refl;
}

abbrev empty_server : HttpServer
empty_server = record { router_ = []; static_path_ = codes "/static" }

abbrev server : HttpServer
server = get (codes "/hello/") welcome empty_server

on_request-render_example :
    (ctx : HttpContext) × ((ctx.method ≡ codes "GET") × (ctx.path ≡ codes "/hello/"))
    × (ctx.req.headers ≡ inserted visit.headers [])
    × (ctx.req.body ≡ [])
    × (on_request as_listed lost 200 1 server ((got (render visit) ∷ []) ∷ [])
        ≡ ok record { sent = (welcome ctx).res.buffer ∷ []; timers = 0 })
unfolding get ends_with same lookup insert
on_request-render_example =
    on_request-render as_listed lost 200 0 server welcome [] visit [] [] refl (λ e. cc) refl
      visit-IsRequest refl (omega arith) refl refl

on_request-AreEmpty_example :
    on_request as_listed lost 200 5 server ((got [] ∷ []) ∷ (got [] ∷ []) ∷ []) ≡ out_of_fuel
on_request-AreEmpty_example =
    on_request-AreEmpty as_listed lost 200 5 server ((got [] ∷ []) ∷ (got [] ∷ []) ∷ [])
      (receive-got [] [] (omega arith), (receive-got [] [] (omega arith), tt))

-- "he" came with the head of this request, and "llo" comes in two reads
abbrev greeting : HttpRequest
greeting = record no_request {
  body = codes "he";
  headers = (codes "Content-Length", codes "5") ∷ [];
}

abbrev reads : List (List ReadResult)
reads = (got (codes "l") ∷ []) ∷ (got (codes "lo") ∷ []) ∷ []

reads-Arrives : Arrives reads (codes "llo")
reads-Arrives =
    part b'l' [] [] _ _ (omega arith) refl
      (part b'l' (codes "o") [] [] [] (omega arith) refl (all_there []))

greeting-header : lookup (codes "Content-Length") greeting.headers ≡ some (codes "5")
unfolding lookup same
greeting-header = refl

five : stoi (codes "5") ≡ ok 5
unfolding stoi stoi_digits number_loop is_digit
five = refl

read_rest-Arrives_example :
    (rs' : List (List ReadResult)) × (read_rest greeting reads
      ≡ ok (record greeting { body = codes "hello" }, rs'))
read_rest-Arrives_example =
    read_rest-Arrives greeting (codes "5") (codes "llo") reads greeting-header five reads-Arrives
