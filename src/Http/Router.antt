-- ===== src/Http/Router.antt =====
-- luce/net/http/http_router.h: `Router`, which finds a request's handler by method and URL.
pub mod Dispatch
use luce.Prelude.{
  ℕ, Bool, true, false, not, Option, none, some, List, [], ◌∷◌, if◌then◌else◌, Bytes, codes, same,
}
use luce.Table.{Table, insert, lookup}
use luce.StringUtil.{join, ends_with}
use luce.Http.Context.{HttpContext, html}

abbrev pub HandleFunc : Type 0
HandleFunc = HttpContext → HttpContext

unfoldable pub route_key : Bytes → Bytes → Bytes
route_key method url = join (method ∷ url ∷ []) (codes "-")

unfoldable pub add_router : Bytes → Bytes → HandleFunc → Table HandleFunc → Table HandleFunc
add_router method url handler handlers =
    if same method (codes "DELETE")
    then handlers
    else if not (ends_with url (codes "/"))
    then handlers
    else insert (route_key method url) handler handlers

-- `walk` is the order of an unordered_map's entries, and `not_found` the text of the 404 page, which
-- the fmt library makes of the method and the path
unfoldable pub handle :
    (Table Bytes → List (Bytes × Bytes))
    → (Bytes → Bytes → Bytes)
    → Table HandleFunc
    → HttpContext
    → HttpContext
handle walk not_found handlers ctx = elim (lookup (route_key ctx.method ctx.path) handlers) [
  | some handler ↦ handler ctx
  | none ↦ html walk ctx 404 (not_found ctx.method ctx.path)
]
