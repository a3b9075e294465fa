-- ===== src/Prefer.antt =====
-- src/routes.rs, `parse_thumbnail_pref`: the Prefer header of a page request.
pub mod Last
use comic_stream.Common.{
  ℕ, Bool, true, false, ◌&&◌, ◌||◌, Option, none, some, List, [], ◌∷◌, ◌==◌, if◌then◌else◌, list_eq,
}
use comic_stream.Text.{
  Text, codes, lowercase, split, split_once, trim, trim_matches, parse_uint, u32_max,
}
use comic_stream.Http.{Request}

-- What the loop holds: `want_thumb` and `width`.
pub record Preference : Type 0 where
  pub want_thumb : Bool
  pub width : Option ℕ

abbrev pub on_width : Preference → Option ℕ → Preference
on_width p none = p
on_width p (some w) = record { want_thumb = p.want_thumb; width = some w }

-- The match on a token's key.
abbrev pub on_key : Preference → Text → Text → Preference
on_key p k v =
    if list_eq k (codes "variant") && list_eq v (codes "thumbnail")
    then record { want_thumb = true; width = p.width }
    else if list_eq k (codes "width")
    then on_width p (parse_uint u32_max v)
    else p

abbrev pub on_pair : Preference → Option (Text × Text) → Preference
on_pair p none = p
on_pair p (some (k, v)) = on_key p (trim k) (trim_matches b'"' (trim v))

-- The body of the loop.
unfoldable pub on_token : Preference → Text → Preference
on_token p token = on_pair p (split_once b'=' (trim token))

unfoldable pub on_tokens : Preference → List Text → Preference
unfolding on_token
on_tokens p [] = p
on_tokens p (t ∷ ts) = on_tokens (on_token p t) ts

abbrev pub is_separator : ℕ → Bool
is_separator c = c == b',' || c == b';'

abbrev pub or_default : ℕ → Option ℕ → ℕ
or_default default none = default
or_default default (some w) = w

unfoldable pub parse_preference : Text → ℕ → Option ℕ
unfolding on_tokens
parse_preference raw default_width =
    let p =
      on_tokens (record { want_thumb = false; width = none })
        (split is_separator (lowercase raw)) in
    if p.want_thumb then some (or_default default_width p.width) else none

abbrev pub parse_if : ℕ → Option Text → Option ℕ
parse_if default_width none = none
parse_if default_width (some raw) = parse_preference raw default_width

unfoldable pub parse_thumbnail_pref : Request → ℕ → Option ℕ
parse_thumbnail_pref request default_width =
    parse_if default_width (request.header (codes "prefer"))
