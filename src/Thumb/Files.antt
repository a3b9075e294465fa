-- ===== src/Thumb/Files.antt =====
-- src/thumb.rs: thumbnails that are made on demand. Decoding, scaling and encoding are those of the
-- `image` package; `save` is what creating the directory, writing the temporary file and renaming
-- it answers.
use comic_stream.Common.{
  ℕ, ◌*◌, Option, none, some, List, ltb, length, if◌then◌else◌, list_eq, Bool, true, false, ◌&&◌,
  ◌∷◌, [],
}
use comic_stream.Text.{Text, codes}
use comic_stream.Http.{Outside, done, failed}
use comic_stream.Archive.{◌>>=◌, max_page_bytes}
use comic_stream.Thumb.{cache_path, page_thumb_path}

abbrev pub cover_width : ℕ
cover_width = 400

abbrev pub max_pixels : ℕ
max_pixels = 64 * 1024 * 1024

-- `resize image w` keeps the proportions, with the height that the source computes in `f32`.
pub record ImageLib : Type 1 where
  pub Image : Type 0
  pub load : List ℕ → Outside Image
  pub width : Image → ℕ
  pub height : Image → ℕ
  pub resize : Image → ℕ → Image
  pub write_jpeg : Image → Outside (List ℕ)

-- The files of the cache, by their paths.
abbrev pub Files : Type 0
Files = List Text → Option (List ℕ)

abbrev pub path_eq : List Text → List Text → Bool
path_eq [] [] = true
path_eq (a ∷ as') (b ∷ bs) = list_eq a b && path_eq as' bs
path_eq [] (b ∷ bs) = false
path_eq (a ∷ as') [] = false

abbrev pub put_file : List Text → List ℕ → Files → Files
put_file path bytes files = λ p. if path_eq p path then some bytes else files p

module _ (lib : ImageLib) (save : List Text → List ℕ → Outside (Unit {0})) where
  -- What `write_resized` makes of the source's bytes.
  unfoldable pub resized : List ℕ → ℕ → Outside (List ℕ)
  resized source_bytes width =
      if ltb max_page_bytes (length source_bytes)
      then failed (codes "thumbnail source exceeds MAX_PAGE_BYTES")
      else (do
        img ← lib.load source_bytes
        if ltb max_pixels (lib.width img * lib.height img)
            then failed (codes "decoded image exceeds MAX_PIXELS")
            else lib.write_jpeg (if ltb width (lib.width img) then lib.resize img width else img))

  -- `write_resized`: the destination appears with the whole thumbnail or not at all.
  unfoldable pub write_resized : List Text → List ℕ → ℕ → Files → Outside Files
  unfolding resized
  write_resized out source_bytes width files = do
    bytes ← resized source_bytes width
    _ ← save out bytes
    done (put_file out bytes files)

  -- `if out.exists() { return Ok(out); }`
  abbrev pub ensure : List Text → List ℕ → ℕ → Files → Outside Files
  ensure out source_bytes width files = elim (files out) [
    | none ↦ write_resized out source_bytes width files
    | some _ ↦ done files
  ]

  unfoldable pub ensure_thumbnail : List Text → Text → List ℕ → Files → Outside Files
  unfolding write_resized
  ensure_thumbnail data_dir hash source_bytes files =
      ensure (cache_path data_dir hash) source_bytes cover_width files

  unfoldable pub ensure_page_thumbnail : List Text → Text → ℕ → ℕ → List ℕ → Files → Outside Files
  unfolding write_resized
  ensure_page_thumbnail data_dir hash page_index width source_bytes files =
      ensure (page_thumb_path data_dir hash page_index width) source_bytes width files
