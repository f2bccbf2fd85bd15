-- ===== src/Http/Request/Total.antt =====
-- The loops over fields and header lines always end with a table.
use luce.Prelude.{
  ◌≡◌, refl, true, false, not, ◌&&◌, List, [], ◌∷◌, Bytes, same, ok, Bool-cases, inl, inr,
}
use luce.Table.{Table}
use luce.StringUtil.{contains}
use luce.StringUtil.Total.{Ends, split-Ends}
use luce.Http.Request.{
  HttpRequest, store_pair, params_loop, headers_loop, parse_url_params, parse_body, parse_uri,
}

params_loop-Ends : (params : List Bytes) (m : Table Bytes) → Ends (params_loop params m)
unfolding params_loop
params_loop-Ends [] m = (m, refl)
params_loop-Ends (param ∷ params) m =
    let (key_value, e) = split-Ends param (b'=' ∷ []) true (λ x. cc) in
    rw e (params_loop-Ends params (store_pair key_value m))

pub headers_loop-Ends : (headers : List Bytes) (m : Table Bytes) → Ends (headers_loop headers m)
unfolding headers_loop
headers_loop-Ends [] m = (m, refl)
headers_loop-Ends (header ∷ headers) m =
    let (key_value, e) = split-Ends header (b':' ∷ []) false (λ x. cc) in
    elim (Bool-cases (not (same header []) && contains header (b':' ∷ []))) [
      | inl test ↦ rw (test, e) (headers_loop-Ends headers (store_pair key_value m))
      | inr test ↦ rw test (headers_loop-Ends headers m)
    ]

-- what `ParseURLParams` leaves alone
parse_url_params_ends :
    (r : HttpRequest) (url : Bytes)
    → (m : Table Bytes) × (parse_url_params r url ≡ ok (record r { url_params = m }))
unfolding parse_url_params
parse_url_params_ends r url =
    let (params, e) = split-Ends url (b'&' ∷ []) true (λ x. cc) in
    let (m, f) = params_loop-Ends params r.url_params in (m, rw (e, f))

pub parse_body_ends :
    (r : HttpRequest) (body : Bytes)
    → (m : Table Bytes) × (parse_body r body ≡ ok (record r { body_params = m }))
unfolding parse_body
parse_body_ends r body =
    let (params, e) = split-Ends body (b'&' ∷ []) true (λ x. cc) in
    let (m, f) = params_loop-Ends params r.body_params in (m, rw (e, f))

pub parse_uri_ends :
    (r : HttpRequest) (url_datas : List Bytes)
    → (u : Bytes) × (m : Table Bytes) × (parse_uri r url_datas
        ≡ ok (record r { uri = u; url_params = m }))
unfolding parse_uri
parse_uri_ends r (path ∷ params ∷ []) =
    let (m, e) = parse_url_params_ends (record r { uri = path }) params in (path, m, e)
parse_uri_ends r [] = (r.url, r.url_params, refl)
parse_uri_ends r (path ∷ []) = (r.url, r.url_params, refl)
parse_uri_ends r (path ∷ a ∷ b ∷ l) = (r.url, r.url_params, refl)
