-- ===== src/Catalog.antt =====
-- src/routes.rs: the handlers of the feeds and of a folder's cover; src/search.rs, `run`. They only read
-- the database, which is that of Db; `refuses` says which query fails.
pub mod Covers
pub mod Ordered
pub mod Listed
pub mod Hits
pub mod Scanned
use comic_stream.Common.{
  ℕ, ◌==◌, ltb, Bool, true, false, not, Option, none, some, List, [], ◌∷◌, ◌++◌, take,
  if◌then◌else◌, list_eq, compare, Ordering,
}
use comic_stream.Text.{Text, codes, is_empty, trim}
use comic_stream.Text.Utf8.{as_bytes}
use comic_stream.Order.{lex}
use comic_stream.Http.{
  HeaderLib, Response, AppError, not_found, internal, Result, ok, err, ◌>>=◌, ok_or_not_found,
  Outside, done, failed, or_internal, content_type, apply_feed_response_headers,
}
use comic_stream.Models.{Folder, Book}
use comic_stream.Opds.{FeedCtx, build_feed}
use comic_stream.Range.{serve_file}
use comic_stream.Scan.{hex, or_else}
use comic_stream.Search.{to_like_pattern}
use comic_stream.Db.{Db, find, filter, direct_book_of, descendant_book_of}
use comic_stream.Books.{World, Answer, serve_descendant_thumb}
use comic_stream.Thumb.Files.{ImageLib, Files}

-- The queries of the handlers, with what tells apart the runs of one.
pub data Query : Type 0 where
  root_folder search_folders search_books : Query
  folder_of_slug : Text → Query
  subfolders_of books_of slug_of first_book_of first_book_below : ℕ → Query

abbrev pub folder_limit : ℕ
folder_limit = 50

abbrev pub book_limit : ℕ
book_limit = 100

-- `ORDER BY sort_key`: rows of equal keys stay in the order of the table.
abbrev pub place_by {ℓ} : {A : Type ℓ} → (A → Text) → A → List A → List A
place_by sort_key a [] = a ∷ []
place_by sort_key a (b ∷ l) =
    let later = place_by sort_key a l in
    elim (lex compare (sort_key a) (sort_key b)) [ Ordering.gt ↦ b ∷ later | _ ↦ a ∷ b ∷ l ]

unfoldable pub order_by {ℓ} : {A : Type ℓ} → (A → Text) → List A → List A
order_by sort_key [] = []
order_by sort_key (a ∷ l) = place_by sort_key a (order_by sort_key l)

abbrev pub is_parent : ℕ → Option ℕ → Bool
is_parent id none = false
is_parent id (some parent_id) = parent_id == id

abbrev pub is_root : Option ℕ → Bool
is_root none = true
is_root (some id) = false

module _ (refuses : Query → Option Text) (db : Db) where
  abbrev pub fetch {ℓ} : {A : Type ℓ} → Query → A → Outside A
  fetch q rows = elim (refuses q) [ none ↦ done rows | some message ↦ failed message ]

  -- `search::run`, where `like` is the LIKE of SQLite with ESCAPE '\'.
  unfoldable pub run : (Text → Text → Bool) → Text → Outside (List Folder × List Book)
  unfolding order_by to_like_pattern
  run like q =
      if is_empty q
      then done ([], [])
      else let pattern = to_like_pattern q in
        elim (fetch search_folders (
          take folder_limit
            (order_by (λ f. f.sort_key) (filter (λ f. like pattern f.name) db.folders)))) [
              | failed message ↦ failed message
              | done folders ↦
                  elim (fetch search_books (
                    take book_limit
                      (order_by (λ b. b.sort_key) (filter (λ b. like pattern b.name) db.books)))) [
                        | failed message ↦ failed message
                        | done books ↦ done (folders, books)
                      ]
            ]

-- What the handlers use of other packages: chrono's printing of a time in seconds (the present for one out
-- of its range), the present, the percent encoding of every character that is not alphanumeric,
-- `xxh3_64`, `mime_guess`, and LIKE.
pub record Packages : Type 0 where
  pub rfc3339 : ℕ → Text
  pub now : Text
  pub percent_encode : Text → Text
  pub xxh3_64 : List ℕ → ℕ
  pub guess_mime : Text → Option Text
  pub like : Text → Text → Bool

module _ (lib : HeaderLib) (packages : Packages) (refuses : Query → Option Text) (db : Db) where
  open lib use {HeaderMap, empty, insert}

  unfoldable pub feed_response : Text → Text → Response HeaderMap
  feed_response kind_type xml = record {
    status = 200;
    headers = apply_feed_response_headers lib (insert content_type kind_type empty);
    body = as_bytes xml;
  }

  -- `/opds/folders/{slug}` of the parent, if there is one.
  abbrev pub up_href_of : Option ℕ → Outside (Option Text)
  up_href_of none = done none
  up_href_of (some pid) =
      elim (fetch refuses db (slug_of pid) (find (λ f. f.id == pid) db.folders)) [
        | failed message ↦ failed message
        | done none ↦ done none
        | done (some f) ↦ done (some (codes "/opds/folders/" ++ f.slug))
      ]

  abbrev pub kind_type_of : List Book → Text
  kind_type_of [] = codes "application/atom+xml;profile=opds-catalog;kind=navigation"
  kind_type_of (b ∷ books) = codes "application/atom+xml;profile=opds-catalog;kind=acquisition"

  unfoldable pub folder_ctx : Folder → Text → Option Text → List Book → FeedCtx
  folder_ctx folder self_href up_href books = record {
    self_href = self_href;
    up_href = up_href;
    feed_id = codes "urn:comicstream:folder:" ++ folder.slug;
    title = folder.name;
    updated = packages.rfc3339 folder.mtime;
    kind_acquisition = not (is_empty books);
  }

  unfoldable pub serve_folder_feed : Folder → Text → Result (Response HeaderMap)
  unfolding order_by folder_ctx feed_response build_feed
  serve_folder_feed folder self_href = do
    subfolders ← or_internal (
        fetch refuses db (subfolders_of folder.id)
          (order_by (λ f. f.sort_key) (filter (λ f. is_parent folder.id f.parent_id) db.folders)))
    books ← or_internal (
        fetch refuses db (books_of folder.id)
          (order_by (λ b. b.sort_key) (filter (λ b. b.folder_id == folder.id) db.books)))
    up_href ← or_internal (up_href_of folder.parent_id)
    ok (
        feed_response (kind_type_of books) (
          build_feed packages.rfc3339 (folder_ctx folder self_href up_href books) subfolders books))

  unfoldable pub folder_by_slug : Text → Result Folder
  folder_by_slug slug = do
    row ←
        or_internal
          (fetch refuses db (folder_of_slug slug) (find (λ f. list_eq f.slug slug) db.folders))
    ok_or_not_found row

  -- `fetch_one` without a row is `RowNotFound`.
  unfoldable pub opds_root : Result (Response HeaderMap)
  unfolding serve_folder_feed
  opds_root = do
    row ← or_internal (fetch refuses db root_folder (find (λ f. is_root f.parent_id) db.folders))
    root ← ok_or_not_found row
    serve_folder_feed root (codes "/opds")

  unfoldable pub opds_folder : Text → Result (Response HeaderMap)
  unfolding serve_folder_feed folder_by_slug
  opds_folder slug = do
    folder ← folder_by_slug slug
    serve_folder_feed folder (codes "/opds/folders/" ++ slug)

  unfoldable pub search_ctx : Text → FeedCtx
  unfolding hex
  search_ctx q = record {
    self_href = codes "/opds/search?q=" ++ packages.percent_encode q;
    up_href = none;
    feed_id = codes "urn:comicstream:search:" ++ hex 16 (packages.xxh3_64 (as_bytes q));
    title = if is_empty q then codes "Search" else codes "Search: " ++ q;
    updated = packages.now;
    kind_acquisition = true;
  }

  unfoldable pub opds_search : Text → Result (Response HeaderMap)
  unfolding run search_ctx feed_response build_feed
  opds_search params_q =
      let q = trim params_q in
      do
        (folders, books) ← or_internal (run refuses db packages.like q)
        ok (
            feed_response (codes "application/atom+xml;profile=opds-catalog;kind=acquisition")
              (build_feed packages.rfc3339 (search_ctx q) folders books))

  unfoldable pub opensearch_descriptor : Response HeaderMap
  unfolding feed_response
  opensearch_descriptor = feed_response (codes "application/opensearchdescription+xml") (
      codes "<?xml version=\"1.0\" encoding=\"UTF-8\"?>\n"
      ++ codes "<OpenSearchDescription xmlns=\"http://a9.com/-/spec/opensearch/1.1/\">\n"
      ++ codes "  <ShortName>ComicStream</ShortName>\n"
      ++ codes "  <Description>Search comic library by name</Description>\n"
      ++ codes "  <InputEncoding>UTF-8</InputEncoding>\n"
      ++ codes
          "  <Url type=\"application/atom+xml;profile=opds-catalog;kind=acquisition\" template=\"/opds/search?q={searchTerms}\"/>\n"
      ++ codes "</OpenSearchDescription>\n")

  module _ (images : ImageLib) (w : World) where
    -- The end of `folder_cover`: the thumbnail of the first book of the folder, or else of those below.
    unfoldable pub book_thumb : ℕ → Files → Answer lib images w
    unfolding direct_book_of descendant_book_of serve_descendant_thumb
    book_thumb folder_id files = do
      book ← or_internal (fetch refuses db (first_book_of folder_id) (direct_book_of folder_id db))
      elim book [
        | some b ↦ serve_descendant_thumb lib images w b files
        | none ↦ (do
          below ←
              or_internal
                (fetch refuses db (first_book_below folder_id) (descendant_book_of folder_id db))
          b ← ok_or_not_found below
          serve_descendant_thumb lib images w b files)
      ]

    -- The file that `folder_cover` serves, if there is one in the library.
    abbrev pub safe_cover : Option Text → Option Text
    safe_cover none = none
    safe_cover (some cover) = w.under cover

    -- The end of `folder_cover`, with the file of the cover if it is in the library.
    unfoldable pub cover_or_thumb : Option Text → ℕ → Files → Answer lib images w
    unfolding book_thumb serve_file
    cover_or_thumb none folder_id files = book_thumb folder_id files
    cover_or_thumb (some safe) folder_id files = do
      resp ←
          serve_file lib (w.file_at safe) (or_else (codes "image/jpeg") (packages.guess_mime safe))
      ok (resp, files)

    unfoldable pub folder_cover : Text → Files → Answer lib images w
    unfolding folder_by_slug cover_or_thumb
    folder_cover slug files = do
      folder ← folder_by_slug slug
      cover_or_thumb (safe_cover folder.cover_path) folder.id files
