-- ===== src/Scan/Prewarm.antt =====
-- src/scan.rs, `prewarm`: the thumbnails that a scan may make at its end. `open_at` is `archive::open`.
use comic_stream.Common.{
  ℕ, zero, suc, ◌+◌, ◌-◌, ◌≤◌, Bool, true, false, ◌&&◌, not, Option, none, some, List, [], ◌∷◌,
  ◌++◌, length, if◌then◌else◌,
}
use comic_stream.Text.{Text, is_empty}
use comic_stream.Http.{Outside, done, failed}
use comic_stream.Models.{Book}
use comic_stream.Thumb.{cache_path, page_thumb_path}
use comic_stream.Thumb.Files.{ImageLib, Files, ensure_thumbnail, ensure_page_thumbnail}
use comic_stream.Scan.{Disk}
use comic_stream.Scan.Walk.{Nodes, scan}
use comic_stream.Db.{Db, Statement, list_books, query, filter}

-- The counts of a book, or of all: what was generated, skipped and failed, of covers and of pages.
pub record Counts : Type 0 where
  pub cov_g : ℕ
  pub cov_s : ℕ
  pub cov_f : ℕ
  pub pg_g : ℕ
  pub pg_s : ℕ
  pub pg_f : ℕ

abbrev pub no_counts : Counts
no_counts = record { cov_g = 0; cov_s = 0; cov_f = 0; pg_g = 0; pg_s = 0; pg_f = 0 }

abbrev pub add_counts : Counts → Counts → Counts
add_counts a b = record {
  cov_g = a.cov_g + b.cov_g;
  cov_s = a.cov_s + b.cov_s;
  cov_f = a.cov_f + b.cov_f;
  pg_g = a.pg_g + b.pg_g;
  pg_s = a.pg_s + b.pg_s;
  pg_f = a.pg_f + b.pg_f;
}

-- `(0..n)`
abbrev pub below : ℕ → List ℕ
below zero = []
below (suc n) = below n ++ n ∷ []

abbrev pub exists : Files → List Text → Bool
exists files path = elim (files path) [ none ↦ false | some _ ↦ true ]

abbrev pub one_if : Bool → ℕ
one_if b = if b then 1 else 0

module _ (images : ImageLib) (save : List Text → List ℕ → Outside (Unit {0})) (data_dir : List Text)
    (open_at : Text → Outside (ℕ → Outside (List ℕ × Text))) (page_thumb_width : ℕ) where
  -- Whether a thumbnail was made, with the files of the cache.
  abbrev pub made : Files → Outside Files → Bool × Files
  made files (failed message) = (false, files)
  made files (done files') = (true, files')

  unfoldable pub prewarm_cover : (ℕ → Outside (List ℕ × Text)) → Text → Files → Bool × Files
  unfolding ensure_thumbnail
  prewarm_cover arch hash files = elim (arch 0) [
    | failed message ↦ (false, files)
    | done (bytes, _) ↦ made files (ensure_thumbnail images save data_dir hash bytes files)
  ]

  unfoldable pub prewarm_page : (ℕ → Outside (List ℕ × Text)) → Text → ℕ → Files → Bool × Files
  unfolding ensure_page_thumbnail
  prewarm_page arch hash n files = elim (arch n) [
    | failed message ↦ (false, files)
    | done (bytes, _) ↦
        made files (ensure_page_thumbnail images save data_dir hash n page_thumb_width bytes files)
  ]

  -- The loop over the pages: how many were made and how many failed.
  unfoldable pub prewarm_pages :
      (ℕ → Outside (List ℕ × Text)) → Text → List ℕ → Files → ℕ × ℕ × Files
  unfolding prewarm_page
  prewarm_pages arch hash [] files = (0, 0, files)
  prewarm_pages arch hash (n ∷ ns) files =
      let page = prewarm_page arch hash n files in
      let rest = prewarm_pages arch hash ns page.1 in
      if page.0 then (suc rest.0, rest.1, rest.2) else (rest.0, suc rest.1, rest.2)

  abbrev pub pages_needed : Text → ℕ → Files → List ℕ
  pages_needed hash page_count files =
      filter (λ n. not (exists files (page_thumb_path data_dir hash n page_thumb_width)))
        (below page_count)

  -- With an archive that opens.
  unfoldable pub prewarm_open :
      (ℕ → Outside (List ℕ × Text)) → Text → Bool → List ℕ → ℕ → Files → Counts × Files
  unfolding prewarm_cover prewarm_pages
  prewarm_open arch hash cover_cached needed skipped files =
      let cover = if cover_cached then (false, files) else prewarm_cover arch hash files in
      let pages = prewarm_pages arch hash needed cover.1 in
      (
        record {
          cov_g = one_if (not cover_cached && cover.0);
          cov_s = one_if cover_cached;
          cov_f = one_if (not cover_cached && not cover.0);
          pg_g = pages.0;
          pg_s = skipped;
          pg_f = pages.1;
        },
        pages.2,
      )

  unfoldable pub prewarm_book : Book → Files → Counts × Files
  unfolding prewarm_open
  prewarm_book b files =
      let cover_cached = exists files (cache_path data_dir b.hash) in
      let needed = pages_needed b.hash b.page_count files in
      let skipped = b.page_count - length needed in
      if cover_cached && is_empty needed
      then (record no_counts { cov_s = 1; pg_s = skipped }, files)
      else elim (open_at b.path) [
        | failed message ↦ (
          record {
            cov_g = 0;
            cov_s = one_if cover_cached;
            cov_f = one_if (not cover_cached);
            pg_g = 0;
            pg_s = skipped;
            pg_f = length needed;
          },
          files,
        )
        | done arch ↦ prewarm_open arch b.hash cover_cached needed skipped files
      ]

  -- What the task of a book comes to: its counts, or, when it panics, a warning and nothing counted,
  -- with the files that it had left by then.
  abbrev pub joined : Option Files → Counts × Files → Counts × Files
  joined none result = result
  joined (some files') result = (no_counts, files')

  -- The loop over the books. `panics` has the files that a book's task leaves when it panics.
  unfoldable pub prewarm_books : (Book → Files → Option Files) → List Book → Files → Counts × Files
  unfolding prewarm_book
  prewarm_books panics [] files = (no_counts, files)
  prewarm_books panics (b ∷ books) files =
      let first = joined (panics b files) (prewarm_book b files) in
      let rest = prewarm_books panics books first.1 in (add_counts first.0 rest.0, rest.1)

  -- `prewarm`: what it logs, and the files that it leaves.
  unfoldable pub prewarm :
      (Book → Files → Option Files)
      → (Statement → Option Text)
      → Files
      → Db
      → Outside (Counts × Files)
  unfolding prewarm_books
  prewarm panics refuses files db = elim (query refuses list_books (λ d. d.books) db).0 [
    | failed message ↦ failed message
    | done books ↦ done (prewarm_books panics books files)
  ]

  -- `scan` with its end: the thumbnails, if they are asked for.
  abbrev then_prewarm :
      (Book → Files → Option Files)
      → Bool
      → (Statement → Option Text)
      → Files
      → Outside (Unit {0}) × Db
      → Outside (Unit {0}) × Db × Files
  then_prewarm panics wanted refuses files (failed message, db) = (failed message, db, files)
  then_prewarm panics wanted refuses files (done _, db) =
      if wanted
      then elim (prewarm panics refuses files db) [
        | failed message ↦ (failed message, db, files)
        | done warmed ↦ (done tt, db, warmed.1)
      ]
      else (done tt, db, files)

  unfoldable pub scan_and_prewarm :
      (Book → Files → Option Files)
      → Disk
      → (Statement → Option Text)
      → ℕ
      → Text
      → Option Text
      → Nodes
      → Bool
      → Db
      → Files
      → Outside (Unit {0}) × Db × Files
  unfolding prewarm
  scan_and_prewarm panics disk refuses started library library_name tree prewarm_thumbnails db
        files =
      then_prewarm panics prewarm_thumbnails refuses files
        (scan disk refuses started library library_name tree db)

-- The pages of the books.
abbrev pub total_pages : List Book → ℕ
total_pages [] = 0
total_pages (b ∷ books) = b.page_count + total_pages books

-- Every cover and every page of the books is counted at most once.
abbrev pub Accounts : List Book → Counts → Type 0
Accounts books c =
    (c.cov_g + c.cov_s + c.cov_f ≤ length books) × (c.pg_g + c.pg_s + c.pg_f ≤ total_pages books)
