-- ===== src/Tests/Text.antt =====
-- luce/common/string_util.cpp on concrete texts.
use luce.Prelude.{◌≡◌, ◌↔◌, ◌++◌, true, false, List, Bytes, codes, ok}
use luce.StringUtil.{join, split, contains}
use luce.StringUtil.Affix.{contains_iff}
use luce.StringUtil.Lossless.{filled, join-split}

abbrev fields : Bytes
fields = codes "a=1&b=2"

abbrev ampersand : Bytes
ampersand = codes "&"

join-split_example :
    (parts : List Bytes) × (split fields ampersand true ≡ ok parts)
    × (join parts ampersand ≡ fields)
    × (split fields ampersand false ≡ ok (filled parts))
join-split_example = join-split fields ampersand (λ e. cc)

contains_iff_example :
    (contains (codes "GET /index") (codes "/in") ≡ true)
    ↔ ((a : Bytes) × (r : Bytes) × (codes "GET /index" ≡ a ++ (codes "/in" ++ r)))
contains_iff_example = contains_iff (codes "GET /index") (codes "/in")
