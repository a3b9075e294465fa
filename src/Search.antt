-- ===== src/Search.antt =====
-- src/search.rs, `to_like_pattern`, and the LIKE of the SQL statement it is used in.
pub mod Glob
use comic_stream.Common.{
  ℕ, Bool, true, false, ◌≡◌, refl, List, [], ◌∷◌, ◌++◌, ◌==◌, if◌then◌else◌, ap, Bool-cases, inl,
  inr, map, append_assoc, arith, Option, some, none,
}
use comic_stream.Text.{Text, codes}

abbrev pub like_char : ℕ → Text
like_char c =
    if c == b'\\'
    then codes "\\\\"
    else if c == b'%'
    then codes "\\%"
    else if c == b'_'
    then codes "\\_"
    else if c == b'*'
    then codes "%"
    else c ∷ []

abbrev pub like_body : Text → Text
like_body [] = []
like_body (c ∷ q) = like_char c ++ like_body q

unfoldable pub to_like_pattern : Text → Text
to_like_pattern q = b'%' ∷ like_body q ++ codes "%"
