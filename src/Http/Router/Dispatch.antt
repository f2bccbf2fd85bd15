-- ===== src/Http/Router/Dispatch.antt =====
-- Which handler a request reaches.
use luce.Prelude.{
  ◌≡◌, ◌≢◌, refl, ◌⊎◌, inl, inr, true, false, some, List, [], ◌∷◌, ◌++◌, Bytes, codes, same,
  same_iff, arith,
}
use luce.Table.{Table, lookup, lookup-insert, lookup-insert_self}
use luce.StringUtil.{ends_with}
use luce.StringUtil.Find.{lacks}
use luce.StringUtil.Join.{join-joined}
use luce.Http.Context.{HttpContext}
use luce.Http.Router.{HandleFunc, route_key, add_router, handle}

route_key-shape : (method url : Bytes) → route_key method url ≡ method ++ (b'-' ∷ url)
unfolding route_key
route_key-shape method url = join-joined (method ∷ url ∷ []) (codes "-")

-- the first '-' of a key ends its method
key-injective :
    (m n u v : Bytes)
    → lacks b'-' m ≡ true
    → lacks b'-' n ≡ true
    → m ++ (b'-' ∷ u) ≡ n ++ (b'-' ∷ v)
    → (m ≡ n) × (u ≡ v)
key-injective [] [] u v h k e = (refl, cc)
key-injective [] (y ∷ n) u v h k e = absurd (ground arith)
key-injective (x ∷ m) [] u v h k e = absurd (ground arith)
key-injective (x ∷ m) (y ∷ n) u v h k e = ground (arith, key-injective m n u v)

module _ (method url : Bytes) (handler : HandleFunc) (t : Table HandleFunc) where
  lookup-add_router_self :
      (m u : Bytes)
      → method ≢ codes "DELETE"
      → ends_with url (codes "/") ≡ true
      → m ≡ method
      → u ≡ url
      → lookup (route_key m u) (add_router method url handler t) ≡ some handler
  unfolding add_router
  lookup-add_router_self m u ne slash e f =
      let kept : same method (codes "DELETE") ≡ false =
        ground (arith, same_iff method (codes "DELETE")) in
      rw (e, f, kept, slash) (lookup-insert_self (route_key method url) handler t)

  lookup-add_router_ne :
      (m u : Bytes)
      → lacks b'-' method ≡ true
      → lacks b'-' m ≡ true
      → (m ≢ method) ⊎ (u ≢ url)
      → lookup (route_key m u) (add_router method url handler t) ≡ lookup (route_key m u) t
  unfolding add_router
  lookup-add_router_ne m u h k other = ground (
    arith,
    lookup-insert (route_key method url) (route_key m u) handler t,
    same_iff (route_key method url) (route_key m u),
    route_key-shape method url,
    route_key-shape m u,
    key-injective method m url u h k,
  )

  lookup-add_router_refused :
      (method ≡ codes "DELETE") ⊎ (ends_with url (codes "/") ≡ false)
      → add_router method url handler t ≡ t
  unfolding add_router
  lookup-add_router_refused (inl e) = ground (arith, same_iff method (codes "DELETE"))
  lookup-add_router_refused (inr e) = ground arith

module _ (walk : Table Bytes → List (Bytes × Bytes)) (not_found : Bytes → Bytes → Bytes) where
  -- A handler that is added for a method other than DELETE and a URL that ends in '/' is the one that
  -- a request with this method and URL reaches.
  pub handle-add_router_self :
      (method url : Bytes) (handler : HandleFunc) (t : Table HandleFunc) (ctx : HttpContext)
      → method ≢ codes "DELETE"
      → ends_with url (codes "/") ≡ true
      → ctx.method ≡ method
      → ctx.path ≡ url
      → handle walk not_found (add_router method url handler t) ctx ≡ handler ctx
  unfolding handle
  handle-add_router_self method url handler t ctx ne slash m p =
      rw (lookup-add_router_self method url handler t ctx.method ctx.path ne slash m p, handle)

  -- Whatever is added, a request with another method or another URL reaches what it reached before,
  -- where neither method holds a '-'.
  handle-add_router_ne :
      (method url : Bytes) (handler : HandleFunc) (t : Table HandleFunc) (ctx : HttpContext)
      → lacks b'-' method ≡ true
      → lacks b'-' ctx.method ≡ true
      → (ctx.method ≢ method) ⊎ (ctx.path ≢ url)
      → handle walk not_found (add_router method url handler t) ctx ≡ handle walk not_found t ctx
  unfolding handle
  handle-add_router_ne method url handler t ctx h k other =
      rw (lookup-add_router_ne method url handler t ctx.method ctx.path h k other, handle)
