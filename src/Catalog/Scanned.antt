-- ===== src/Catalog/Scanned.antt =====
-- src/scan.rs and src/routes.rs together: the feeds after a scan.
use comic_stream.Common.{ℕ, ◌≡◌, sym, subst, true, Option, List, ◌++◌, All, ltb, ◌==◌}
use comic_stream.Text.{Text, codes}
use comic_stream.Http.{HeaderLib, Response, ok, done, or_internal}
use comic_stream.Models.{Folder, Book}
use comic_stream.Opds.{build_feed}
use comic_stream.Books.Again.{ok_injective, bind-ok}
use comic_stream.Db.{Db, Statement, filter}
use comic_stream.Scan.{Disk}
use comic_stream.Scan.Rows.{IsTable}
use comic_stream.Scan.Walk.{Nodes, scan}
use comic_stream.Scan.Found.{IsBookAmong}
use comic_stream.Scan.Kept.{scan-IsBookAmong}
use comic_stream.Scan.Left.{All-filter}
use comic_stream.Catalog.{
  Query, subfolders_of, books_of, is_parent, order_by, fetch, Packages, feed_response, up_href_of,
  kind_type_of, folder_ctx, serve_folder_feed, folder_by_slug, opds_folder,
}
use comic_stream.Catalog.Ordered.{order_by-All}
use comic_stream.Catalog.Listed.{fetch-ok}

module _ (lib : HeaderLib) (packages : Packages) (refuses : Query → Option Text) (db : Db) where
  open lib use {HeaderMap}

  -- The feed of some folder, with books that have a property.
  abbrev pub IsFeedWith : (Book → Type 0) → Text → Response HeaderMap → Type 0
  IsFeedWith P self_href resp =
      (folder : Folder) × (folders : List Folder) × (books : List Book) × (up_href : Option Text)
      × All P books
      × (resp
          ≡ feed_response lib packages refuses db (kind_type_of lib packages refuses db books) (
              build_feed packages.rfc3339
                (folder_ctx lib packages refuses db folder self_href up_href books) folders books))

  opds_folder-IsFeedWith :
      (P : Book → Type 0) (slug : Text) (resp : Response HeaderMap)
      → All P db.books
      → opds_folder lib packages refuses db slug ≡ ok resp
      → IsFeedWith P (codes "/opds/folders/" ++ slug) resp
  unfolding opds_folder serve_folder_feed
  opds_folder-IsFeedWith P slug resp h e =
      let (folder, _, k0) = bind-ok (folder_by_slug lib packages refuses db slug) _ resp e in
      let below =
        order_by (λ f. f.sort_key) (filter (λ f. is_parent folder.id f.parent_id) db.folders) in
      let within = order_by (λ b. b.sort_key) (filter (λ b. b.folder_id == folder.id) db.books) in
      let (folders, _, k1) =
        bind-ok (or_internal (fetch refuses db (subfolders_of folder.id) below)) _ resp k0 in
      let (books, e2, k2) =
        bind-ok (or_internal (fetch refuses db (books_of folder.id) within)) _ resp k1 in
      let (up_href, _, k3) =
        bind-ok (or_internal (up_href_of lib packages refuses db folder.parent_id)) _ resp k2 in
      (
        folder,
        folders,
        books,
        up_href,
        subst (All P) (fetch-ok refuses db (books_of folder.id) within books e2) (
            order_by-All (λ b. b.sort_key) P (filter (λ b. b.folder_id == folder.id) db.books)
              (All-filter P (λ b. b.folder_id == folder.id) db.books h)),
        sym (ok_injective k3),
      )

-- Where the ids and the paths of the books are unique, and every row was last seen before the scan starts: once
-- a scan has succeeded, a feed that is served for a folder lists only books that are files of a supported
-- kind in the library, neither hidden nor in a directory that is hidden or ignored.
pub opds_folder-IsBookAmong :
    (lib : HeaderLib) (packages : Packages) (fails : Query → Option Text) (disk : Disk)
    (refuses : Statement → Option Text) (started : ℕ) (library : Text) (library_name : Option Text)
    (tree : Nodes) (db : Db) (slug : Text) (resp : Response lib.HeaderMap)
    → IsTable db
    → All (λ b. ltb b.seen_at started ≡ true) db.books
    → (scan disk refuses started library library_name tree db).0 ≡ done tt
    → opds_folder lib packages fails (scan disk refuses started library library_name tree db).1 slug
      ≡ ok resp
    → IsFeedWith lib packages fails
        (scan disk refuses started library library_name tree db).1
        (λ b. IsBookAmong library tree b.path)
        (codes "/opds/folders/" ++ slug)
        resp
opds_folder-IsBookAmong lib packages fails disk refuses started library library_name tree db slug
      resp t old scanned e =
    opds_folder-IsFeedWith lib packages fails
      (scan disk refuses started library library_name tree db).1
      (λ b. IsBookAmong library tree b.path) slug resp
      (scan-IsBookAmong disk refuses started library library_name tree db t old scanned) e
