-- ===== src/Catalog/Covers.antt =====
-- src/scan.rs, `cover_version_for`, and src/routes.rs, `folder_cover`: the version that a feed gives for the
-- cover of a folder is about the picture that the folder's cover is.
use comic_stream.Common.{ℕ, ◌≡◌, refl, false, Option, none, some, list_eq, Option-cases, inl, inr}
use comic_stream.Text.{Text}
use comic_stream.Http.{HeaderLib, not_found, err, Outside, done, failed}
use comic_stream.Models.{Folder, Book}
use comic_stream.Db.{Db, find, direct_book_of, descendant_book_of}
use comic_stream.Scan.{Disk}
use comic_stream.Scan.Walk.{cover_version_for, version_by_books}
use comic_stream.Thumb.Files.{ImageLib, Files}
use comic_stream.Books.{World, Answer, serve_descendant_thumb}
use comic_stream.Catalog.{
  Packages, folder_by_slug, book_thumb, safe_cover, cover_or_thumb, folder_cover,
}

module _ (lib : HeaderLib) (packages : Packages) (db : Db) (images : ImageLib) (w : World)
    (disk : Disk) (started : ℕ) (files : Files) where
  -- The version `none` is for a cover that is not found, and the version `some hash` for the thumbnail of
  -- a book with that hash.
  abbrev pub IsVersionOf : Outside (Option Text) → Answer lib images w → Type 0
  IsVersionOf (failed message) answer = ⊥
  IsVersionOf (done none) answer = answer ≡ err not_found
  IsVersionOf (done (some hash)) answer =
      (b : Book) × (b.hash ≡ hash) × (answer ≡ serve_descendant_thumb lib images w b files)

  version_by_books-IsVersionOf :
      (id : ℕ)
      → IsVersionOf
          (version_by_books disk (λ _. none) started id db).0
          (book_thumb lib packages (λ _. none) db images w id files)
  unfolding version_by_books book_thumb
  version_by_books-IsVersionOf id = elim (Option-cases (direct_book_of id db)) [
    | inr (b, direct) ↦ rw (version_by_books, book_thumb, direct) (b, refl, refl)
    | inl no_book ↦ elim (Option-cases (descendant_book_of id db)) [
      | inr (b, below) ↦ rw (version_by_books, book_thumb, no_book, below) (b, refl, refl)
      | inl nowhere ↦ rw (version_by_books, book_thumb, no_book, nowhere) refl
    ]
  ]

  abbrev Gone : Option Text → Type 0
  Gone cover_path =
      (path : Text) → cover_path ≡ some path → (disk.exists path ≡ false) × (w.under path ≡ none)

  safe_cover-Gone :
      (cover_path : Option Text)
      → Gone cover_path
      → safe_cover lib packages (λ _. none) db images w cover_path ≡ none
  safe_cover-Gone none gone = refl
  safe_cover-Gone (some path) gone = (gone path refl).1

  cover_version_for-Gone :
      (id : ℕ) (cover_path : Option Text)
      → Gone cover_path
      → cover_version_for disk (λ _. none) started id cover_path db
        ≡ version_by_books disk (λ _. none) started id db
  unfolding cover_version_for
  cover_version_for-Gone id none gone = refl
  cover_version_for-Gone id (some path) gone = rw (cover_version_for, (gone path refl).0) refl

  -- Where a folder has no cover file, or the file is gone, and the database answers, its cover version is
  -- the hash of the book whose thumbnail `folder_cover` serves, and none where that finds nothing.
  pub cover_version_for-folder_cover :
      (slug : Text) (f : Folder)
      → find (λ g. list_eq g.slug slug) db.folders ≡ some f
      → Gone f.cover_path
      → IsVersionOf
          (cover_version_for disk (λ _. none) started f.id f.cover_path db).0
          (folder_cover lib packages (λ _. none) db images w slug files)
  unfolding folder_cover folder_by_slug cover_or_thumb
  cover_version_for-folder_cover slug f there gone =
      rw
        (
          folder_cover,
          folder_by_slug,
          there,
          cover_version_for-Gone f.id f.cover_path gone,
          safe_cover-Gone f.cover_path gone,
        )
        (version_by_books-IsVersionOf f.id)
