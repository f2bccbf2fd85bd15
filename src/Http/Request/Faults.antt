-- ===== src/Http/Request/Faults.antt =====
-- How `Parse` fails: it reads a vector past its end, and in no other way.
use luce.Prelude.{
  ℕ, zero, suc, ◌≡◌, ◌⊎◌, inl, inr, refl, true, false, none, List, [], ◌∷◌, Bytes, find, Outcome,
  ok, undefined, ◌>>=◌,
}
use luce.StringUtil.{split, split_loop, split_after}
use luce.StringUtil.Total.{Ends, split-Ends}
use luce.Http.Request.{
  HttpRequest, blank_line, crlf, at, parse_headers, parse_line, store_body, parse,
}
use luce.Http.Request.Total.{headers_loop-Ends, parse_uri_ends, parse_body_ends}

abbrev pub EndsOrFaults {ℓ} : {A : Type ℓ} → Outcome A → Type ℓ
EndsOrFaults r = Ends r ⊎ (r ≡ undefined)

bind-EndsOrFaults {ℓ} :
    {A B : Type ℓ} (m : Outcome A) (f : A → Outcome B)
    → EndsOrFaults m
    → ((a : A) → EndsOrFaults (f a))
    → EndsOrFaults (m >>= f)
bind-EndsOrFaults m f (inl (a, e)) k = rw e (k a)
bind-EndsOrFaults m f (inr e) k = rw e (inr refl)

at-EndsOrFaults : (v : List Bytes) (i : ℕ) → EndsOrFaults (at v i)
at-EndsOrFaults [] i = inr refl
at-EndsOrFaults (x ∷ v) zero = inl (x, refl)
at-EndsOrFaults (x ∷ v) (suc i) = at-EndsOrFaults v i

parse_line-EndsOrFaults : (r : HttpRequest) (line : Bytes) → EndsOrFaults (parse_line r line)
unfolding parse_line
parse_line-EndsOrFaults r line =
    bind-EndsOrFaults (split line (b' ' ∷ []) true) _
      (inl (split-Ends line (b' ' ∷ []) true (λ e. cc)))
      λ line_datas. bind-EndsOrFaults (at line_datas 0) _ (at-EndsOrFaults line_datas 0) λ method.
        bind-EndsOrFaults (at line_datas 1) _ (at-EndsOrFaults line_datas 1) λ url.
          bind-EndsOrFaults (at line_datas 2) _ (at-EndsOrFaults line_datas 2) λ http_version.
            bind-EndsOrFaults (split url (b'&' ∷ []) true) _
              (inl (split-Ends url (b'&' ∷ []) true (λ e. cc)))
              λ url_datas.
                let (u, m, e) =
                  parse_uri_ends
                    (record r { method = method; url = url; http_version = http_version })
                    url_datas in
                inl (_, e)

parse_headers-Ends : (r : HttpRequest) (lines : List Bytes) → Ends (parse_headers r lines)
unfolding parse_headers
parse_headers-Ends r [] = (r, refl)
parse_headers-Ends r (line ∷ headers) =
    let (m, e) = headers_loop-Ends headers r.headers in (record r { headers = m }, rw e)

-- Whatever the bytes, `Parse` returns a request or reads past the end of a vector: it throws
-- nothing and each of its loops ends.
pub parse-EndsOrFaults : (r : HttpRequest) (data_ : Bytes) → EndsOrFaults (parse r data_)
unfolding parse
parse-EndsOrFaults r data_ =
    bind-EndsOrFaults (split data_ blank_line true) _
      (inl (split-Ends data_ blank_line true (λ e. cc)))
      λ head_and_body.
        bind-EndsOrFaults (at head_and_body 1) _ (at-EndsOrFaults head_and_body 1) λ body.
          bind-EndsOrFaults (at head_and_body 0) _ (at-EndsOrFaults head_and_body 0) λ head.
            bind-EndsOrFaults (split head crlf false) _ (inl (split-Ends head crlf false (λ e. cc)))
              λ line_and_head.
                bind-EndsOrFaults (at line_and_head 0) _ (at-EndsOrFaults line_and_head 0) λ line.
                  bind-EndsOrFaults (parse_line (store_body r body) line) _
                    (parse_line-EndsOrFaults (store_body r body) line)
                    λ r2.
                      bind-EndsOrFaults (parse_headers r2 line_and_head) _
                        (inl (parse_headers-Ends r2 line_and_head))
                        λ r3. let (m, e) = parse_body_ends r3 body in inl (_, e)

split_whole :
    (c : ℕ) (s d : Bytes) → find d (c ∷ s) ≡ none → split (c ∷ s) d true ≡ ok ((c ∷ s) ∷ [])
unfolding split split_loop split_after
split_whole c s d h = rw (h, split_after)

-- Data without a blank line, such as a request that has not arrived whole, makes `Parse` read the
-- missing body past the end of the split parts.
parse_no_blank_line :
    (r : HttpRequest) (data_ : Bytes) → find blank_line data_ ≡ none → parse r data_ ≡ undefined
unfolding parse
parse_no_blank_line r [] h = unfold split in refl
parse_no_blank_line r (c ∷ s) h = rw (split_whole c s blank_line h)
