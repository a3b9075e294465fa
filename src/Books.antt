-- ===== src/Books.antt =====
-- src/routes.rs: the handlers of a book's cover, thumbnail, pages and file. A handler answers its
-- response and the files of the cache that it leaves.
pub mod Again
use comic_stream.Common.{
  ℕ, zero, suc, ◌^◌, ◌-◌, ◌==◌, ltb, leb, Bool, true, false, Option, none, some, List,
  if◌then◌else◌,
}
use comic_stream.Text.{Text, codes}
use comic_stream.Http.{
  HeaderLib, Request, Response, AppError, not_found, internal, Result, ok, err, ◌>>=◌,
  ok_or_not_found, Outside, done, failed, or_internal, content_type, vary,
  apply_immutable_response_headers,
}
use comic_stream.Models.{Book}
use comic_stream.Opds.{book_mime}
use comic_stream.Prefer.{parse_thumbnail_pref}
use comic_stream.Range.{serve_file, serve_file_with_range}
use comic_stream.Thumb.{snap_width, cache_path, page_thumb_path}
use comic_stream.Thumb.Files.{ImageLib, Files, ensure_thumbnail, ensure_page_thumbnail}

-- An `i64`.
pub data ℤ : Type 0 where
  pos : ℕ → ℤ
  negsuc : ℕ → ℤ

-- `n.checked_sub(1)` on an `i64`.
abbrev pub checked_pred : ℤ → Option ℤ
checked_pred (pos zero) = some (negsuc 0)
checked_pred (pos (suc n)) = some (pos n)
checked_pred (negsuc n) = if n == 2 ^ 63 - 1 then none else some (negsuc (suc n))

-- The page that is asked for, as an index from 0, if the book has it.
abbrev within : ℕ → Option ℤ → Result ℕ
within page_count (some (pos idx)) = if leb page_count idx then err not_found else ok idx
within page_count (some (negsuc n)) = err not_found
within page_count none = err not_found

unfoldable pub page_index : Bool → ℤ → ℕ → Result ℕ
page_index one_based n page_count = within page_count (if one_based then checked_pred n else some n)

-- What the handlers reach beyond the program: `lookup` runs `lookup_book`'s query, `under` is
-- `safe_path::under` at the library's root, `archive` what the cache of archives answers for a
-- resolved path, with the reader of its pages, and `file_at` opens a file of the library.
pub record World : Type 0 where
  pub lookup : Text → Outside (Option Book)
  pub under : Text → Option Text
  pub archive : Text → Text → Outside (ℕ → Outside (List ℕ × Text))
  pub file_at : Text → Outside (List ℕ)
  pub seek : ℕ → Outside (Unit {0})
  pub save : List Text → List ℕ → Outside (Unit {0})
  pub data_dir : List Text
  pub page_thumb_default_width : ℕ

-- Opening a file of the cache.
abbrev pub cached_file : Files → List Text → Outside (List ℕ)
cached_file files path = elim (files path) [
  | none ↦ failed (codes "No such file")
  | some bytes ↦ done bytes
]

-- `if !cached.exists() { … }`, with what the block makes.
abbrev pub unless_cached : List Text → Result Files → Files → Result Files
unless_cached cached make files = elim (files cached) [ none ↦ make | some _ ↦ ok files ]

module _ (lib : HeaderLib) (images : ImageLib) (w : World) where
  open lib use {HeaderMap, empty, insert}

  unfoldable pub lookup_book : Text → Result Book
  lookup_book hash = do row ← or_internal (w.lookup hash); ok_or_not_found row

  unfoldable pub open_archive : Text → Text → Result (ℕ → Outside (List ℕ × Text))
  open_archive hash path = do
    safe ← ok_or_not_found (w.under path)
    or_internal (w.archive hash safe)

  unfoldable pub image_response : Text → List ℕ → Response HeaderMap
  image_response mime bytes = record {
    status = 200;
    headers = apply_immutable_response_headers lib (insert content_type mime empty);
    body = bytes;
  }

  unfoldable pub vary_on_prefer : Response HeaderMap → Response HeaderMap
  vary_on_prefer resp = record resp {
    headers = insert vary (codes "Authorization, Prefer") resp.headers;
  }

  -- A handler's answer with the files; an error leaves the files as they were.
  abbrev pub Answer : Type 0
  Answer = Result (Response HeaderMap × Files)

  abbrev pub served : Files → List Text → Answer
  served files path = do
    resp ← serve_file lib (cached_file files path) (codes "image/jpeg")
    ok (resp, files)

  unfoldable pub make_page_thumbnail : Book → Text → ℕ → ℕ → Files → Result Files
  unfolding open_archive ensure_page_thumbnail
  make_page_thumbnail book hash idx width files = do
    arch ← open_archive hash book.path
    (bytes, _) ← or_internal (arch idx)
    or_internal (ensure_page_thumbnail images w.save w.data_dir hash idx width bytes files)

  unfoldable pub page_served : List Text → Files → Answer
  unfolding vary_on_prefer serve_file
  page_served cached files = do
    resp ← serve_file lib (cached_file files cached) (codes "image/jpeg")
    ok (vary_on_prefer resp, files)

  -- The branch of `book_page` for a thumbnail of the width asked for.
  unfoldable pub page_thumbnail : Book → Text → ℕ → ℕ → Files → Answer
  unfolding make_page_thumbnail page_served
  page_thumbnail book hash idx wanted files =
      let width = snap_width wanted in
      let cached = page_thumb_path w.data_dir hash idx width in
      do
        files' ← unless_cached cached (make_page_thumbnail book hash idx width files) files
        page_served cached files'

  unfoldable pub full_page : Book → Text → ℕ → Files → Answer
  unfolding open_archive image_response vary_on_prefer
  full_page book hash idx files = do
    arch ← open_archive hash book.path
    (bytes, mime) ← or_internal (arch idx)
    ok (vary_on_prefer (image_response mime bytes), files)

  unfoldable pub book_page : Text → ℤ → Bool → Request → Files → Answer
  unfolding lookup_book page_index page_thumbnail full_page
  book_page hash n one_based req files = do
    book ← lookup_book hash
    idx ← page_index one_based n book.page_count
    elim (parse_thumbnail_pref req w.page_thumb_default_width) [
      | some wanted ↦ page_thumbnail book hash idx wanted files
      | none ↦ full_page book hash idx files
    ]

  unfoldable pub book_cover : Text → Result (Response HeaderMap)
  unfolding lookup_book open_archive image_response
  book_cover hash = do
    book ← lookup_book hash
    arch ← open_archive hash book.path
    (bytes, mime) ← or_internal (arch 0)
    ok (image_response mime bytes)

  unfoldable pub make_thumbnail : Book → Files → Result Files
  unfolding open_archive ensure_thumbnail
  make_thumbnail b files = do
    arch ← open_archive b.hash b.path
    (src, _) ← or_internal (arch 0)
    or_internal (ensure_thumbnail images w.save w.data_dir b.hash src files)

  -- `serve_descendant_thumb`, which is also the end of `book_thumbnail`.
  unfoldable pub serve_descendant_thumb : Book → Files → Answer
  unfolding make_thumbnail serve_file
  serve_descendant_thumb b files =
      let cached = cache_path w.data_dir b.hash in
      do files' ← unless_cached cached (make_thumbnail b files) files; served files' cached

  unfoldable pub book_thumbnail : Text → Files → Answer
  unfolding lookup_book serve_descendant_thumb
  book_thumbnail hash files = do book ← lookup_book hash; serve_descendant_thumb book files

  unfoldable pub book_file : Text → Option Text → Result (Response HeaderMap)
  unfolding lookup_book serve_file_with_range
  book_file hash range = do
    book ← lookup_book hash
    safe ← ok_or_not_found (w.under book.path)
    serve_file_with_range lib (w.file_at safe) w.seek (book_mime book.format) range
