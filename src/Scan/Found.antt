-- ===== src/Scan/Found.antt =====
-- src/scan.rs, `scan`: which books a scan leaves in the database.
use comic_stream.Common.{
  ℕ, ◌<◌, ◌≡◌, refl, sym, subst, true, false, ◌||◌, Option, none, some, All, arith, Bool-cases,
  Option-cases, inl, inr, ◌⊎◌, true_not_false,
}
use comic_stream.Text.{Text}
use comic_stream.Http.{Outside, done, failed}
use comic_stream.Archive.{is_supported}
use comic_stream.Archive.Sorted.{Outside-cases}
use comic_stream.Models.{Folder, Book}
use comic_stream.Db.{
  Db, Statement, select_folder, upsert_folder_row, run, folder_at, FolderFields, update_folder,
  insert_folder,
}
use comic_stream.Scan.{Disk, join, write_folder, upsert_folder, upsert_book, folder_fields}
use comic_stream.Scan.Books.{upsert_book-Change}
use comic_stream.Scan.Rows.{IsTable, Change-IsTable, Change-All}
use comic_stream.Scan.Walk.{
  Node, Nodes, broken, folder, book_file, special, end, node, Progress, is_ignored, is_hidden,
  enter, enter_under, entered, visit, visit_under, counted, walk, walk_all,
}

-- The books that a client should see: the files of a supported kind, hidden ones aside, in the
-- directory and in those below it that are neither ignored nor hidden.
unfoldable mutual
  pub IsBookIn : Text → Node → Text → Type 0
  IsBookIn parent (broken message) path = ⊥
  IsBookIn parent (special name) path = ⊥
  IsBookIn parent (book_file name) path =
      (is_hidden name ≡ false)
      × (is_supported (join parent name) ≡ true)
      × (path ≡ join parent name)
  IsBookIn parent (folder name children) path =
      ((is_ignored name || is_hidden name) ≡ false) × IsBookAmong (join parent name) children path

  pub IsBookAmong : Text → Nodes → Text → Type 0
  IsBookAmong parent end path = ⊥
  IsBookAmong parent (node n ns) path = IsBookIn parent n path ⊎ IsBookAmong parent ns path

abbrev pub SameBooks : Db → Db → Type 0
SameBooks db' db = (db'.books ≡ db.books) × (db'.next_book ≡ db.next_book)

-- The rows of the books are in order, and `P` holds of each.
abbrev pub Holds : (Book → Type 0) → Db → Type 0
Holds P db = IsTable db × All P db.books

pub Holds-same : (P : Book → Type 0) (db db' : Db) → SameBooks db' db → Holds P db → Holds P db'
Holds-same P db db' s h = (
  record {
    unique = rw (s.0) h.0.unique;
    below =
        subst (λ n. All (λ b. b.id < n) db'.books) (sym s.1)
          (subst (All (λ b. b.id < db.next_book)) (sym s.0) h.0.below);
  },
  subst (All P) (sym s.0) h.1,
)

module _ (disk : Disk) (refuses : Statement → Option Text) where
  -- A statement that leaves the books alone.
  pub run-books :
      {A : Type 0} (statement : Statement) (f : Db → Outside (A × Db)) (db : Db)
      → ((a : A) (db' : Db)
          → f db ≡ done (a, db')
          → (db'.books ≡ db.books) × (db'.next_book ≡ db.next_book))
      → let db' = (run refuses statement f db).1 in
        (db'.books ≡ db.books) × (db'.next_book ≡ db.next_book)
  run-books statement f db h = elim (Option-cases (refuses statement)) [
    | inr (m, refused) ↦ rw (run, refused) (refl, refl)
    | inl taken ↦ elim (Outside-cases (f db)) [
      | inl (m, violated) ↦ rw (run, taken, violated) (refl, refl)
      | inr (made, e) ↦ rw (run, taken, e) (h made.0 made.1 e)
    ]
  ]

  update_folder-books :
      (id : ℕ) (c : FolderFields) (db : Db) (u : Unit {0}) (db' : Db)
      → update_folder id c db ≡ done (u, db')
      → (db'.books ≡ db.books) × (db'.next_book ≡ db.next_book)
  unfolding update_folder
  update_folder-books id c db u db' e = ground (arith, e)

  insert_folder-books :
      (path : Text) (c : FolderFields) (db : Db) (id : ℕ) (db' : Db)
      → insert_folder path c db ≡ done (id, db')
      → (db'.books ≡ db.books) × (db'.next_book ≡ db.next_book)
  unfolding insert_folder
  insert_folder-books path c db id db' e = ground (arith, e)

  write_folder-books :
      (path : Text) (c : FolderFields) (o : Option Folder) (db : Db)
      → SameBooks (write_folder disk refuses path c o db).1 db
  unfolding write_folder
  write_folder-books path c none db =
      run-books (upsert_folder_row path) (insert_folder path c) db (insert_folder-books path c db)
  write_folder-books path c (some f) db = elim (Option-cases (refuses (upsert_folder_row path))) [
    | inr (m, refused) ↦ rw (write_folder, run, refused) (refl, refl)
    | inl taken ↦ elim (Outside-cases (update_folder f.id c db)) [
      | inl (m, violated) ↦ rw (write_folder, run, taken, violated) (refl, refl)
      | inr (made, e) ↦
          rw (write_folder, run, taken, e) (update_folder-books f.id c db made.0 made.1 e)
    ]
  ]

  pub upsert_folder-books :
      (path : Text) (parent_id : Option ℕ) (name : Option Text) (seen_at : ℕ) (db : Db)
      → SameBooks (upsert_folder disk refuses path parent_id name seen_at db).1 db
  unfolding upsert_folder
  upsert_folder-books path parent_id name seen_at db =
      elim (Option-cases (refuses (select_folder path))) [
        | inr (m, refused) ↦ rw (upsert_folder, run, refused) (refl, refl)
        | inl taken ↦
            rw (upsert_folder, run, taken)
              (write_folder-books path (folder_fields disk path parent_id name seen_at)
                (folder_at path db) db)
      ]

  module _ (started : ℕ) (P : Book → Type 0) where
    upsert_book-Holds :
        (path : Text) (folder_id : ℕ) (db : Db)
        → ((c : Book) → c.path ≡ path → c.seen_at ≡ started → P c)
        → Holds P db
        → Holds P (upsert_book disk refuses path folder_id started db).1
    upsert_book-Holds path folder_id db at_path h =
        let change = upsert_book-Change disk refuses path folder_id started db in
        (
          Change-IsTable path started db _ change h.0,
          Change-All path started db _ P at_path change h.0 h.1,
        )

    counted-Holds :
        (s : Progress) (r : Outside (Unit {0}) × Db)
        → Holds P r.1
        → Holds P (counted disk refuses started s r).db
    counted-Holds s (failed m, db) h = h
    counted-Holds s (done u, db) h = h

    visit_under-Holds :
        (path : Text) (s : Progress) (o : Option ℕ)
        → ((c : Book) → c.path ≡ path → c.seen_at ≡ started → P c)
        → Holds P s.db
        → Holds P (visit_under disk refuses started path s o).db
    visit_under-Holds path s none at_path h = h
    visit_under-Holds path s (some id) at_path h =
        counted-Holds s (upsert_book disk refuses path id started s.db)
          (upsert_book-Holds path id s.db at_path h)

    visit-Holds :
        (parent name : Text) (s : Progress)
        → ((c : Book) → IsBookIn parent (book_file name) c.path → c.seen_at ≡ started → P c)
        → Holds P s.db
        → Holds P (visit disk refuses started parent name s).db
    unfolding visit IsBookIn
    visit-Holds parent name s found h = elim (Bool-cases (is_hidden name)) [
      | inl hidden ↦ rw (visit, hidden) h
      | inr shown ↦ elim (Bool-cases (is_supported (join parent name))) [
        | inr other ↦ rw (visit, shown, other) h
        | inl kind ↦
            rw (visit, shown, kind)
              (visit_under-Holds (join parent name) s (s.path_to_id parent)
                (λ c e t. found c (shown, kind, e) t) h)
      ]
    ]

    entered-Holds :
        (path : Text) (s : Progress) (r : Outside ℕ × Db)
        → Holds P r.1
        → Holds P (entered disk refuses started path s r).0.db
    entered-Holds path s (failed m, db) h = h
    entered-Holds path s (done id, db) h = h

    enter_under-Holds :
        (path : Text) (s : Progress) (o : Option ℕ)
        → Holds P s.db
        → Holds P (enter_under disk refuses started path s o).0.db
    enter_under-Holds path s none h = h
    enter_under-Holds path s (some id) h =
        entered-Holds path s (upsert_folder disk refuses path (some id) none started s.db)
          (Holds-same P s.db _ (upsert_folder-books path (some id) none started s.db) h)

    enter-Holds :
        (parent name : Text) (s : Progress)
        → Holds P s.db
        → Holds P (enter disk refuses started parent name s).0.db
    unfolding enter
    enter-Holds parent name s h = elim (Bool-cases (is_ignored name || is_hidden name)) [
      | inl skipped ↦ rw (enter, skipped) h
      | inr shown ↦
          rw (enter, shown) (enter_under-Holds (join parent name) s (s.path_to_id parent) h)
    ]

    -- A directory that is entered is neither ignored nor hidden.
    enter-shown :
        (parent name : Text) (s : Progress)
        → (enter disk refuses started parent name s).1 ≡ true
        → (is_ignored name || is_hidden name) ≡ false
    unfolding enter
    enter-shown parent name s e = elim (Bool-cases (is_ignored name || is_hidden name)) [
      | inl skipped ↦ absurd (true_not_false (sym (rw (enter, skipped) at e)))
      | inr shown ↦ shown
    ]

    mutual
      unfolding walk IsBookIn

      walk-Holds :
          (parent : Text) (n : Node) (s : Progress)
          → ((c : Book) → IsBookIn parent n c.path → c.seen_at ≡ started → P c)
          → Holds P s.db
          → Holds P (walk disk refuses started parent n s).db
      walk-Holds parent (broken m) s found h = h
      walk-Holds parent (special name) s found h = h
      walk-Holds parent (book_file name) s found h = visit-Holds parent name s found h
      walk-Holds parent (folder name children) s found h =
          elim (Bool-cases (enter disk refuses started parent name s).1) [
            | inr skipped ↦ rw (walk, skipped) (enter-Holds parent name s h)
            | inl below ↦
                rw (walk, below)
                  (walk_all-Holds (join parent name) children
                    (enter disk refuses started parent name s).0
                    (λ c f t. found c (enter-shown parent name s below, f) t)
                    (enter-Holds parent name s h))
          ]

      pub walk_all-Holds :
          (parent : Text) (ns : Nodes) (s : Progress)
          → ((c : Book) → IsBookAmong parent ns c.path → c.seen_at ≡ started → P c)
          → Holds P s.db
          → Holds P (walk_all disk refuses started parent ns s).db
      walk_all-Holds parent end s found h = h
      walk_all-Holds parent (node n ns) s found h =
          walk_all-Holds parent ns (walk disk refuses started parent n s)
            (λ c f t. found c (inr f) t) (walk-Holds parent n s (λ c f t. found c (inl f) t) h)
