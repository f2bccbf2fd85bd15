-- ===== src/Http/Request/Text.antt =====
-- The text of a request, as a client writes it, and how `Split` takes it apart.
use luce.Prelude.{
  ℕ, suc, ◌+◌, ◌≡◌, ◌≢◌, refl, ap, ◌∙◌, Bool, true, false, not, none, some, List, [], ◌∷◌, ◌++◌,
  arith, ◌==◌, length, Bytes, same, same_iff, find, ok, append_assoc, inl, inr, length-append,
}
use luce.Table.{Table, insert}
use luce.StringUtil.{split, contains}
use luce.StringUtil.Find.{lacks, find-lacks, find_append-lacks}
use luce.StringUtil.Join.{joined, joined-ne, joined_pair-ne}
use luce.StringUtil.Split.{Separable, split-joined}
use luce.StringUtil.Affix.{contains-append}
use luce.Http.Request.{crlf, blank_line, store_pair, headers_loop}

-- the texts of a request as a client means them
pub record RequestText : Type 0 where
  pub method : Bytes
  pub url : Bytes
  pub http_version : Bytes
  pub headers : List (Bytes × Bytes)
  pub body : Bytes

abbrev pub header_line : Bytes × Bytes → Bytes
header_line (key, value) = key ++ (b':' ∷ value)

abbrev pub request_line : RequestText → Bytes
request_line q = joined (b' ' ∷ []) (q.method ∷ q.url ∷ q.http_version ∷ [])

abbrev pub header_lines : List (Bytes × Bytes) → List Bytes
header_lines [] = []
header_lines (h ∷ hs) = header_line h ∷ header_lines hs

abbrev pub head_text : RequestText → Bytes
head_text q = joined crlf (request_line q ∷ header_lines q.headers)

abbrev pub render : RequestText → Bytes
render q = joined blank_line (head_text q ∷ q.body ∷ [])

-- neither part of a header holds ':' or a carriage return, and neither is empty
abbrev pub IsHeader : Bytes × Bytes → Type 0
IsHeader (key, value) =
    (lacks b':' key ≡ true)
    × (lacks b':' value ≡ true)
    × (lacks b'\r' key ≡ true)
    × (lacks b'\r' value ≡ true)
    × (key ≢ [])
    × (value ≢ [])

abbrev pub AreHeaders : List (Bytes × Bytes) → Type 0
AreHeaders [] = Unit
AreHeaders (h ∷ hs) = IsHeader h × AreHeaders hs

abbrev pub IsWord : Bytes → Type 0
IsWord w = (lacks b' ' w ≡ true) × (lacks b'\r' w ≡ true)

pub record IsRequest (q : RequestText) : Type 0 where
  pub method : IsWord q.method
  pub url : IsWord q.url
  pub http_version : IsWord q.http_version
  pub headers : AreHeaders q.headers
  pub body : find blank_line q.body ≡ none

-- the table that the headers, written one after the other, leave
abbrev pub inserted : List (Bytes × Bytes) → Table Bytes → Table Bytes
inserted [] m = m
inserted ((key, value) ∷ hs) m = inserted hs (insert key value m)

pub lacks-append :
    (c : ℕ) (a b : Bytes) → lacks c a ≡ true → lacks c b ≡ true → lacks c (a ++ b) ≡ true
lacks-append c [] b h k = k
lacks-append c (x ∷ a) b h k = ground (arith, lacks-append c a b)

-- the search for a separator passes over a text without its first byte
find_skip :
    (c : ℕ) (d s t : Bytes) (n : ℕ)
    → lacks c s ≡ true
    → find (c ∷ d) t ≡ some n
    → find (c ∷ d) (s ++ t) ≡ some (length s + n)
unfolding find
find_skip c d [] t n h f = ground arith
find_skip c d (x ∷ s) t n h f = ground (arith, find_skip c d s t n)

-- lines that a head may hold: not empty, and without carriage returns
abbrev pub AreLines : List Bytes → Type 0
AreLines [] = Unit
AreLines (l ∷ ls) = (lacks b'\r' l ≡ true) × (l ≢ []) × AreLines ls

abbrev pub starts_line : Bytes → Bool
starts_line [] = false
starts_line (x ∷ t) = not (b'\r' == x)

-- a line break in front of another line is no blank line
find_past_break :
    (t : Bytes) (n : ℕ)
    → starts_line t ≡ true
    → find blank_line t ≡ some n
    → find blank_line (crlf ++ t) ≡ some (suc (suc n))
unfolding find
find_past_break [] n h f = cc
find_past_break (x ∷ t) n h f = ground arith

joined-starts_line :
    (l : Bytes) (ls : List Bytes)
    → lacks b'\r' l ≡ true
    → l ≢ []
    → starts_line (joined crlf (l ∷ ls) ++ blank_line) ≡ true
joined-starts_line [] ls h ne = absurd (ne refl)
joined-starts_line (x ∷ l) [] h ne = ground arith
joined-starts_line (x ∷ l) (m ∷ ls) h ne = ground arith

-- The first blank line is the one behind the head.
pub find_head :
    (l : Bytes) (ls : List Bytes)
    → AreLines (l ∷ ls)
    → find blank_line (joined crlf (l ∷ ls) ++ blank_line) ≡ some (length (joined crlf (l ∷ ls)))
find_head l [] (h, ne, _) = find_append-lacks b'\r' (b'\n' ∷ crlf) l h
find_head l (m ∷ ls) (h, ne, (h', ne', hs)) =
    let rest = joined crlf (m ∷ ls) in
    let found =
      find_past_break (rest ++ blank_line) (length rest) (joined-starts_line m ls h' ne')
        (find_head m ls (h', ne', hs)) in
    let shape : (l ++ (crlf ++ rest)) ++ blank_line ≡ l ++ (crlf ++ (rest ++ blank_line)) =
      append_assoc l (crlf ++ rest) blank_line in
    let size : length l + suc (suc (length rest)) ≡ length (l ++ (crlf ++ rest)) =
      omega (arith, length-append l (crlf ++ rest)) in
    rw shape (
      find_skip b'\r' (b'\n' ∷ crlf) l (crlf ++ (rest ++ blank_line)) (suc (suc (length rest))) h
        found
      ∙ ap some size)

pub lines-Separable :
    (ls : List Bytes) (l : Bytes) → AreLines (l ∷ ls) → Separable crlf false (l ∷ ls)
lines-Separable [] l (h, ne, _) = (find-lacks b'\r' (b'\n' ∷ []) l h, inr ne)
lines-Separable (m ∷ ls) l (h, ne, hs) =
    (find_append-lacks b'\r' (b'\n' ∷ []) l h, inr ne, lines-Separable ls m hs)

header_line-IsLine :
    (h : Bytes × Bytes) → IsHeader h → (lacks b'\r' (header_line h) ≡ true) × (header_line h ≢ [])
header_line-IsLine ([], value) (_, _, _, _, ne, _) = absurd (ne refl)
header_line-IsLine (x ∷ key, value) (_, _, k, v, _, _) =
    (lacks-append b'\r' (x ∷ key) (b':' ∷ value) k (ground (arith, v)), λ e. cc)

header_lines-AreLines : (hs : List (Bytes × Bytes)) → AreHeaders hs → AreLines (header_lines hs)
header_lines-AreLines [] w = tt
header_lines-AreLines (h ∷ hs) (w, ws) =
    let (l, ne) = header_line-IsLine h w in (l, ne, header_lines-AreLines hs ws)

-- a header line is split into its key and its value
split-header_line :
    (h : Bytes × Bytes) → IsHeader h → split (header_line h) (b':' ∷ []) false ≡ ok (h.0 ∷ h.1 ∷ [])
split-header_line (key, value) (ck, cv, rk, rv, nk, nv) =
    split-joined (b':' ∷ []) false (key ∷ value ∷ []) (λ e. cc)
      (find_append-lacks b':' [] key ck, inr nk, (find-lacks b':' [] value cv, inr nv))
      (λ e. (header_line-IsLine (key, value) (ck, cv, rk, rv, nk, nv)).1 e)

pub headers_loop-inserted :
    (hs : List (Bytes × Bytes)) (m : Table Bytes)
    → AreHeaders hs
    → headers_loop (header_lines hs) m ≡ ok (inserted hs m)
unfolding headers_loop store_pair
headers_loop-inserted [] m w = refl
headers_loop-inserted (h ∷ hs) m (w, ws) =
    let line = header_line h in
    let some_ : same line [] ≡ false =
      ground (arith, same_iff line [], (header_line-IsLine h w).1) in
    let colon : contains line (b':' ∷ []) ≡ true = contains-append h.0 (b':' ∷ []) h.1 in
    rw (some_, colon, split-header_line h w) (headers_loop-inserted hs (insert h.0 h.1 m) ws)

request_line-ne : (a b c : Bytes) → joined (b' ' ∷ []) (a ∷ b ∷ c ∷ []) ≢ []
request_line-ne [] b c e = cc
request_line-ne (x ∷ a) b c e = cc

request_line-IsLine : (q : RequestText) → IsRequest q → lacks b'\r' (request_line q) ≡ true
request_line-IsLine q w =
    let tail =
      lacks-append b'\r' q.url (b' ' ∷ q.http_version) w.url.1 (ground (arith, w.http_version.1)) in
    lacks-append b'\r' q.method (b' ' ∷ (q.url ++ (b' ' ∷ q.http_version))) w.method.1
      (ground (arith, tail))

pub split-request_line :
    (q : RequestText)
    → IsRequest q
    → split (request_line q) (b' ' ∷ []) true ≡ ok (q.method ∷ q.url ∷ q.http_version ∷ [])
split-request_line q w =
    split-joined (b' ' ∷ []) true (q.method ∷ q.url ∷ q.http_version ∷ []) (λ e. cc)
      (
        find_append-lacks b' ' [] q.method w.method.0,
        inl refl,
        (
          find_append-lacks b' ' [] q.url w.url.0,
          inl refl,
          (find-lacks b' ' [] q.http_version w.http_version.0, inl refl),
        ),
      )
      (request_line-ne q.method q.url q.http_version)

request-AreLines :
    (q : RequestText) → IsRequest q → AreLines (request_line q ∷ header_lines q.headers)
request-AreLines q w = (
  request_line-IsLine q w,
  request_line-ne q.method q.url q.http_version,
  header_lines-AreLines q.headers w.headers,
)

head_text-ne : (q : RequestText) → IsRequest q → head_text q ≢ []
head_text-ne q w =
    joined-ne crlf (request_line q) (header_lines q.headers)
      (request_line-ne q.method q.url q.http_version)

pub split-head_text :
    (q : RequestText)
    → IsRequest q
    → split (head_text q) crlf false ≡ ok (request_line q ∷ header_lines q.headers)
split-head_text q w =
    split-joined crlf false (request_line q ∷ header_lines q.headers) (λ e. cc)
      (lines-Separable (header_lines q.headers) (request_line q) (request-AreLines q w))
      (head_text-ne q w)

pub split-render :
    (q : RequestText)
    → IsRequest q
    → split (render q) blank_line true ≡ ok (head_text q ∷ q.body ∷ [])
split-render q w =
    split-joined blank_line true (head_text q ∷ q.body ∷ []) (λ e. cc)
      (
        find_head (request_line q) (header_lines q.headers) (request-AreLines q w),
        inl refl,
        (w.body, inl refl),
      )
      (joined_pair-ne blank_line (head_text q) q.body (λ e. cc))
