-- ===== src/Scan/Books.antt =====
-- src/scan.rs, `upsert_book`: what it does to the table of books.
use comic_stream.Common.{
  ℕ, suc, ◌≡◌, refl, sym, ◌∙◌, ap, ◌||◌, not, Option, none, some, [], ◌∷◌, ◌++◌, map, any,
  if◌then◌else◌, Bool-cases, Option-cases, inl, inr, ◌⊎◌, list_eq, ◌==◌, ltb,
}
use comic_stream.Text.{Text}
use comic_stream.Http.{Outside, done}
use comic_stream.Archive.Sorted.{Outside-cases, failed_not_done, done_injective}
use comic_stream.Models.{Book}
use comic_stream.Db.{
  Db, Statement, select_book, upsert_book_row, run, book_at, has_folder, BookFields, touch_book,
  update_book, insert_book, set_book,
}
use comic_stream.Scan.{
  Disk, max_archive_bytes, mtime_secs, read_book, is_unchanged, touch_if_there, write_book,
  refresh_book, upsert_book,
}

-- What a call may do to the table: nothing, rewrite the row that was found at the path, or add one.
-- A row that is written is marked as seen.
pub data Change (path : Text) (seen_at : ℕ) (db db' : Db) : Type 0 where
  nothing : db' ≡ db → Change path seen_at db db'
  rewritten :
      (b : Book) (g : Book → Book)
      → book_at path db ≡ some b
      → ((c : Book) → ((g c).id ≡ c.id) × ((g c).path ≡ c.path) × ((g c).seen_at ≡ seen_at))
      → db' ≡ record db { books = map (λ c. if c.id == b.id then g c else c) db.books }
      → Change path seen_at db db'
  added :
      (b : Book)
      → book_at path db ≡ none
      → b.id ≡ db.next_book
      → b.path ≡ path
      → b.seen_at ≡ seen_at
      → db' ≡ record db { books = db.books ++ b ∷ []; next_book = suc db.next_book }
      → Change path seen_at db db'

module _ (disk : Disk) (refuses : Statement → Option Text) where
  -- A statement that is refused, or whose constraints fail, changes nothing.
  run_cases :
      (statement : Statement) (f : Db → Outside (Unit {0} × Db)) (db : Db)
      → ((run refuses statement f db).1 ≡ db)
        ⊎ ((db' : Db) × (f db ≡ done (tt, db')) × (run refuses statement f db ≡ (done tt, db')))
  run_cases statement f db = elim (Option-cases (refuses statement)) [
    | inr (m, refused) ↦ inl (rw (run, refused) refl)
    | inl taken ↦ elim (Outside-cases (f db)) [
      | inl (m, violated) ↦ inl (rw (run, taken, violated) refl)
      | inr (made, e) ↦ inr (made.1, e, rw (run, taken, e) refl)
    ]
  ]

  -- The same for a query: it changes nothing.
  query-same :
      {A : Type 0} (statement : Statement) (f : Db → A) (db : Db)
      → (run refuses statement (λ d. done (f d, d)) db).1 ≡ db
  query-same statement f db = elim (Option-cases (refuses statement)) [
    | inr (m, refused) ↦ rw (run, refused) refl
    | inl taken ↦ rw (run, taken) refl
  ]

  done_tt : {a b : Unit {0} × Db} → done a ≡ done b → a.1 ≡ b.1
  done_tt e = ap (λ p. p.1) (done_injective e)

  module _ (path : Text) (folder_id seen_at : ℕ) (db : Db) where
    touch-Change :
        (b : Book)
        → book_at path db ≡ some b
        → Change path seen_at db
            (run refuses (upsert_book_row path) (touch_book b.id seen_at folder_id) db).1
    unfolding touch_book
    touch-Change b found =
        elim (run_cases (upsert_book_row path) (touch_book b.id seen_at folder_id) db) [
          | inl same ↦ nothing same
          | inr (db', e, ran) ↦ elim (Bool-cases (has_folder folder_id db.folders)) [
            | inl there ↦
                rewritten b (λ c. record c { seen_at = seen_at; folder_id = folder_id }) found
                  (λ c. (refl, refl, refl))
                  (ap (λ p. p.1) ran ∙ sym (done_tt (rw (touch_book, there) at e)))
            | inr dangling ↦ absurd (failed_not_done (rw (touch_book, dangling) at e))
          ]
        ]

    write-Change :
        (c : BookFields) (o : Option Book)
        → book_at path db ≡ o
        → Change path seen_at db (write_book disk refuses path folder_id seen_at c o db).1
    unfolding write_book update_book insert_book
    write-Change c (some b) found =
        elim (run_cases (upsert_book_row path) (update_book b.id folder_id seen_at c) db) [
          | inl same ↦ nothing same
          | inr (db', e, ran) ↦ elim (Bool-cases (has_folder folder_id db.folders)) [
            | inl there ↦
                rewritten b (set_book folder_id seen_at c) found (λ d. (refl, refl, refl))
                  (ap (λ p. p.1) ran ∙ sym (done_tt (rw (update_book, there) at e)))
            | inr dangling ↦ absurd (failed_not_done (rw (update_book, dangling) at e))
          ]
        ]
    write-Change c none absent =
        elim (run_cases (upsert_book_row path) (insert_book path folder_id seen_at c) db) [
          | inl same ↦ nothing same
          | inr (db', e, ran) ↦
              elim (Bool-cases (
                any (λ b. list_eq b.path path) db.books || not (has_folder folder_id db.folders))) [
                  | inr free ↦
                      added _ absent refl refl refl
                        (ap (λ p. p.1) ran ∙ sym (done_tt (rw (insert_book, free) at e)))
                  | inl violated ↦ absurd (failed_not_done (rw (insert_book, violated) at e))
                ]
        ]

    refresh-Change :
        (mtime file_size : ℕ) (o : Option Book)
        → book_at path db ≡ o
        → Change path seen_at db
            (refresh_book disk refuses path folder_id seen_at mtime file_size o db).1
    unfolding refresh_book
    refresh-Change mtime file_size o found =
        elim (Bool-cases (is_unchanged disk refuses o mtime file_size)) [
          | inl same ↦ rw (refresh_book, same) (touched o found)
          | inr changed ↦ elim (Outside-cases (read_book disk path mtime file_size)) [
            | inl (m, unread) ↦ rw (refresh_book, changed, unread) (nothing refl)
            | inr (none, left) ↦ rw (refresh_book, changed, left) (nothing refl)
            | inr (some c, contents) ↦ rw (refresh_book, changed, contents) (write-Change c o found)
          ]
        ]
      where
        touched :
            (o : Option Book)
            → book_at path db ≡ o
            → Change path seen_at db (touch_if_there disk refuses path folder_id seen_at o db).1
        touched none absent = nothing refl
        touched (some b) there = touch-Change b there

    pub upsert_book-Change :
        Change path seen_at db (upsert_book disk refuses path folder_id seen_at db).1
    unfolding upsert_book
    upsert_book-Change = elim (Outside-cases (disk.file_size path)) [
      | inl (m, unknown) ↦ rw (upsert_book, unknown) (nothing refl)
      | inr (size, known) ↦ elim (Bool-cases (ltb max_archive_bytes size)) [
        | inl large ↦ rw (upsert_book, known, large) (nothing refl)
        | inr fits ↦ elim (Option-cases (refuses (select_book path))) [
          | inr (m, refused) ↦ rw (upsert_book, known, fits, run, refused) (nothing refl)
          | inl taken ↦
              rw (upsert_book, known, fits, run, taken)
                (refresh-Change (mtime_secs disk path) size (book_at path db) refl)
        ]
      ]
    ]
