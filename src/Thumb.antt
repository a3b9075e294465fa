-- ===== src/Thumb.antt =====
-- src/thumb.rs: the widths of the page thumbnails and the files that hold them.
pub mod Snap
pub mod Files
use comic_stream.Common.{ℕ, List, [], ◌∷◌, ◌++◌, if◌then◌else◌, leb}
use comic_stream.Text.{Text, codes}
use comic_stream.Text.Decimal.{show}

abbrev pub max_page_thumb_width : ℕ
max_page_thumb_width = 1600

abbrev pub page_thumb_widths : List ℕ
page_thumb_widths = 150 ∷ 300 ∷ 600 ∷ 900 ∷ 1200 ∷ max_page_thumb_width ∷ []

-- The first element of a list at or above `requested`, or the one given.
abbrev find_or : ℕ → ℕ → List ℕ → ℕ
find_or requested default [] = default
find_or requested default (w ∷ ws) = if leb requested w then w else find_or requested default ws

unfoldable pub snap_width : ℕ → ℕ
snap_width requested = find_or requested max_page_thumb_width page_thumb_widths

-- A path is the list of its components.
unfoldable pub cache_path : List Text → Text → List Text
cache_path data_dir hash = (data_dir ++ codes "thumbs" ∷ []) ++ (hash ++ codes ".jpg") ∷ []

unfoldable pub page_thumb_path : List Text → Text → ℕ → ℕ → List Text
page_thumb_path data_dir hash page_index width =
    ((data_dir ++ codes "page_thumbs" ∷ []) ++ hash ∷ [])
    ++ (show page_index ++ (codes "_" ++ (show width ++ codes ".jpg"))) ∷ []
