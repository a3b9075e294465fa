-- ===== src/Scan/Untouched.antt =====
-- src/scan.rs, `upsert_book`: what it leaves alone.
use comic_stream.Common.{
  ℕ, ◌≡◌, refl, sym, ◌∙◌, ap, Bool, true, false, not, Option, some, List, [], ◌∷◌, ◌++◌, map, All,
  if◌then◌else◌, Bool-cases, Option-cases, inl, inr, ◌⊎◌, ltb, ==_refl, ◌==◌, list_eq, list_eq_refl,
}
use comic_stream.Text.{Text}
use comic_stream.Http.{Outside, done}
use comic_stream.Archive.{Kind}
use comic_stream.Models.{Book}
use comic_stream.Db.{Db, Statement, select_book, run, filter, book_at}
use comic_stream.Scan.{Disk, max_archive_bytes, mtime_secs, refresh_book, upsert_book}
use comic_stream.Scan.Books.{Change, nothing, rewritten, added, upsert_book-Change}
use comic_stream.Scan.Rows.{IsTable, find-All, found-only}

-- A row of another path.
abbrev pub is_other : Text → Book → Bool
is_other path b = not (list_eq b.path path)

filter-append {ℓ} :
    {A : Type ℓ} (p : A → Bool) (l : List A) (a : A)
    → p a ≡ false
    → filter p (l ++ a ∷ []) ≡ filter p l
filter-append p [] a e = rw e refl
filter-append p (x ∷ l) a e = rw (filter-append p l a e) refl

-- Rows may change where the filter drops them before and after.
filter-map {ℓ} :
    {A : Type ℓ} (p : A → Bool) (g : A → A) (l : List A)
    → All (λ a. (g a ≡ a) ⊎ ((p a ≡ false) × (p (g a) ≡ false))) l
    → filter p (map g l) ≡ filter p l
filter-map p g [] h = refl
filter-map p g (a ∷ l) (inl same, h) = rw (filter-map p g l h, same) refl
filter-map p g (a ∷ l) (inr (before, after), h) = rw (filter-map p g l h, before, after) refl

module _ (disk : Disk) (refuses : Statement → Option Text) (path : Text) (folder_id seen_at : ℕ)
    (db : Db) where
  Change-others :
      (db' : Db)
      → Change path seen_at db db'
      → IsTable db
      → filter (is_other path) db'.books ≡ filter (is_other path) db.books
  Change-others db' (nothing e) t = ap (λ d. filter (is_other path) d.books) e
  Change-others db' (rewritten b g found keeps e) t =
      ap (λ d. filter (is_other path) d.books) e
      ∙ filter-map (is_other path) at_b db.books
          (rows db.books (found-only (λ c. list_eq c.path path) db.books b t.unique found))
    where
      at_b : Book → Book
      at_b c = if c.id == b.id then g c else c

      here : list_eq b.path path ≡ true
      here = (find-All (λ c. list_eq c.path path) (λ c. c ≡ c) db.books b found (every db.books)).1
        where
          every : (l : List Book) → All (λ c. c ≡ c) l
          every [] = tt
          every (c ∷ l) = (refl, every l)

      row :
          (c : Book)
          → ((c.id == b.id) ≡ true → c ≡ b)
          → (at_b c ≡ c) ⊎ ((is_other path c ≡ false) × (is_other path (at_b c) ≡ false))
      row c only = elim (Bool-cases (c.id == b.id)) [
        | inr other ↦ inl (rw other refl)
        | inl hit ↦
            let same : list_eq c.path path ≡ true =
              ap (λ d. list_eq d.path path) (only hit) ∙ here in
            inr (ap not same, rw (hit, (keeps c).1, same) refl)
      ]

      rows :
          (l : List Book)
          → All (λ c. (c.id == b.id) ≡ true → c ≡ b) l
          → All
              (λ c. (at_b c ≡ c) ⊎ ((is_other path c ≡ false) × (is_other path (at_b c) ≡ false)))
              l
      rows [] h = tt
      rows (c ∷ l) h = (row c h.0, rows l h.1)
  Change-others db' (added b absent i p s e) t =
      ap (λ d. filter (is_other path) d.books) e
      ∙ filter-append (is_other path) db.books b (rw (p, list_eq_refl path) refl)

  -- Where the ids and the paths of the books are unique, a call writes the row of its own path and no other:
  -- every row of another path stays as it is, in its place, whatever the hash of the file.
  pub upsert_book-others :
      IsTable db
      → filter (is_other path) (upsert_book disk refuses path folder_id seen_at db).1.books
        ≡ filter (is_other path) db.books
  upsert_book-others = Change-others _ (upsert_book-Change disk refuses path folder_id seen_at db)

  -- What the file system says of the file's contents: its hash, its kind, and its pages.
  abbrev pub contents_of : (Text → Outside Text) → (Text → Outside Kind) → (Text → Outside ℕ) → Disk
  contents_of hash detect page_count = record disk {
    hash = hash;
    detect = detect;
    page_count = page_count;
  }

  -- Where the row has the time and the size of the file, its contents are not looked at: the result is
  -- the same whatever its hash, its kind and its pages are.
  pub upsert_book-unread :
      (hash : Text → Outside Text) (detect : Text → Outside Kind) (page_count : Text → Outside ℕ)
      (b : Book)
      → book_at path db ≡ some b
      → b.mtime ≡ mtime_secs disk path
      → disk.file_size path ≡ done b.file_size
      → upsert_book (contents_of hash detect page_count) refuses path folder_id seen_at db
        ≡ upsert_book disk refuses path folder_id seen_at db
  unfolding upsert_book refresh_book
  upsert_book-unread hash detect page_count b there time size =
      elim (Bool-cases (ltb max_archive_bytes b.file_size)) [
        | inl large ↦ rw (upsert_book, size, large) refl
        | inr fits ↦ elim (Option-cases (refuses (select_book path))) [
          | inr (m, refused) ↦ rw (upsert_book, size, fits, run, refused) refl
          | inl taken ↦
              rw
                (
                  upsert_book,
                  size,
                  fits,
                  run,
                  taken,
                  there,
                  refresh_book,
                  sym time,
                  ==_refl b.mtime,
                  ==_refl b.file_size,
                )
                refl
        ]
      ]
