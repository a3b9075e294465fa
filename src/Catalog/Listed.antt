-- ===== src/Catalog/Listed.antt =====
-- src/routes.rs and src/search.rs: which rows a feed lists, and in which order.
use comic_stream.Common.{ℕ, ◌≡◌, Option, none, some, List, ◌++◌, inl, inr, ◌==◌, Option-cases}
use mathlib.Core.List.{Perm}
use comic_stream.Text.{Text, codes}
use comic_stream.Catalog.Ordered.{IsOrderedBy}
use comic_stream.Http.{HeaderLib, Response, ok, or_internal}
use comic_stream.Models.{Folder, Book}
use comic_stream.Opds.Lines.{IsFeedText}
use comic_stream.Text.Utf8.{as_bytes}
use comic_stream.Books.Again.{ok_injective, err_not_ok}
use comic_stream.Db.{Db, find, filter}
use comic_stream.Catalog.{Query, is_parent, fetch, Packages}

pub fetch-ok :
    {A : Type 0} (refuses : Query → Option Text) (db : Db) (q : Query) (rows a : A)
    → or_internal (fetch refuses db q rows) ≡ ok a
    → rows ≡ a
fetch-ok refuses db q rows a e = elim (Option-cases (refuses q)) [
  | inl taken ↦ ok_injective (rw (fetch, taken) at e)
  | inr (m, refused) ↦ absurd (err_not_ok (rw (fetch, refused) at e))
]

module _ (lib : HeaderLib) (packages : Packages) (refuses : Query → Option Text) (db : Db) where
  open lib use {HeaderMap}

  -- The rows under a folder, in the order of a feed.
  pub record Lists (folder : Folder) (folders : List Folder) (books : List Book) : Type 0 where
    pub all_folders : Perm folders (filter (λ f. is_parent folder.id f.parent_id) db.folders)
    pub folders_sorted : IsOrderedBy (λ f. f.sort_key) folders
    pub all_books : Perm books (filter (λ b. b.folder_id == folder.id) db.books)
    pub books_sorted : IsOrderedBy (λ b. b.sort_key) books

  -- The feed above: none for a folder without a parent, or with one that is gone, else the parent's.
  abbrev pub IsAbove : Option ℕ → Option Text → Type 0
  IsAbove none up_href = up_href ≡ none
  IsAbove (some pid) none = find (λ f. f.id == pid) db.folders ≡ none
  IsAbove (some pid) (some up_href) =
      (parent : Folder) × (find (λ f. f.id == pid) db.folders ≡ some parent)
      × (up_href ≡ codes "/opds/folders/" ++ parent.slug)

  -- An answer with the feed of a folder.
  pub record IsFeedOf (folder : Folder) (self_href : Text) (resp : Response HeaderMap)
      : Type 0 where
    pub folders : List Folder
    pub books : List Book
    pub up_href : Option Text
    pub text : Text
    pub lists : Lists folder folders books
    pub above : IsAbove folder.parent_id up_href
    pub written : IsFeedText folder.name self_href up_href folders books text
    pub status : resp.status ≡ 200
    pub body : resp.body ≡ as_bytes text
