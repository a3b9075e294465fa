-- ===== src/Db.antt =====
-- The SQL of src/scan.rs, src/search.rs and src/routes.rs on the tables of migrations/: a table is the
-- list of its rows in the order of their insertion. The constraints of the tables are checked where
-- a row is written; for any other failure of the database, `refuses` says which statement fails.
use comic_stream.Common.{
  ℕ, zero, suc, ◌==◌, ltb, Bool, true, false, ◌&&◌, ◌||◌, not, Option, none, some, List, [], ◌∷◌,
  ◌++◌, map, any, length, if◌then◌else◌, list_eq, compare, Ordering,
}
use comic_stream.Text.{Text, codes}
use comic_stream.Order.{lex}
use comic_stream.Http.{Outside, done, failed}
use comic_stream.Models.{Folder, Book}

-- The tables, and the next row id of each (`AUTOINCREMENT`).
pub record Db : Type 0 where
  pub folders : List Folder
  pub books : List Book
  pub next_folder : ℕ
  pub next_book : ℕ

-- The statements, with what tells apart the runs of one.
pub data Statement : Type 0 where
  select_folder upsert_folder_row select_book upsert_book_row : Text → Statement
  removed_books delete_books removed_folders delete_folders list_folders list_books : Statement
  direct_book descendant_book set_version : ℕ → Statement

-- What runs on the database: it may fail, and what it has written stays.
abbrev pub Action {ℓ} : Type ℓ → Type ℓ
Action A = Db → Outside A × Db

abbrev pub and_then {ℓ κ} :
    {A : Type ℓ} {B : Type κ} → (A → Action B) → Outside A × Db → Outside B × Db
and_then f (done a, db) = f a db
and_then f (failed message, db) = (failed message, db)

infixl 5 ◌>>=◌
abbrev pub ◌>>=◌ {ℓ κ} : {A : Type ℓ} {B : Type κ} → Action A → (A → Action B) → Action B
(act >>= f) db = and_then f (act db)

abbrev pub pure {ℓ} : {A : Type ℓ} → A → Action A
pure a db = (done a, db)

-- A result from outside the database, with `?`.
abbrev pub lift {ℓ} : {A : Type ℓ} → Outside A → Action A
lift o db = (o, db)

abbrev pub written {ℓ} : {A : Type ℓ} → Db → Outside (A × Db) → Outside A × Db
written db (done (a, db')) = (done a, db')
written db (failed message) = (failed message, db)

module _ (refuses : Statement → Option Text) where
  abbrev pub run {ℓ} : {A : Type ℓ} → Statement → (Db → Outside (A × Db)) → Action A
  run statement f db = elim (refuses statement) [
    | some message ↦ (failed message, db)
    | none ↦ written db (f db)
  ]

  -- A statement that only reads.
  abbrev pub query {ℓ} : {A : Type ℓ} → Statement → (Db → A) → Action A
  query statement f = run statement (λ db. done (f db, db))

abbrev pub find {ℓ} : {A : Type ℓ} → (A → Bool) → List A → Option A
find p [] = none
find p (a ∷ l) = if p a then some a else find p l

abbrev pub filter {ℓ} : {A : Type ℓ} → (A → Bool) → List A → List A
filter p [] = []
filter p (a ∷ l) = if p a then a ∷ filter p l else filter p l

-- `WHERE path = ?`
abbrev pub folder_at : Text → Db → Option Folder
folder_at path db = find (λ f. list_eq f.path path) db.folders

abbrev pub book_at : Text → Db → Option Book
book_at path db = find (λ b. list_eq b.path path) db.books

abbrev pub has_folder : ℕ → List Folder → Bool
has_folder id folders = any (λ f. f.id == id) folders

-- A reference to a folder, as a foreign key.
abbrev pub refers : Option ℕ → List Folder → Bool
refers none folders = true
refers (some id) folders = has_folder id folders

abbrev pub constraint_failed : Text
constraint_failed = codes "constraint failed"

-- The columns of a folder that a scan writes.
pub record FolderFields : Type 0 where
  pub parent_id : Option ℕ
  pub name : Text
  pub sort_key : Text
  pub cover_path : Option Text
  pub description : Option Text
  pub mtime : ℕ
  pub seen_at : ℕ
  pub slug : Text

abbrev pub set_folder : FolderFields → Folder → Folder
set_folder c f = record f {
  parent_id = c.parent_id;
  name = c.name;
  sort_key = c.sort_key;
  cover_path = c.cover_path;
  description = c.description;
  mtime = c.mtime;
  seen_at = c.seen_at;
  slug = c.slug;
}

-- `UPDATE folder SET … WHERE id = ?`
unfoldable pub update_folder : ℕ → FolderFields → Db → Outside (Unit {0} × Db)
update_folder id c db =
    if any (λ f. not (f.id == id) && list_eq f.slug c.slug) db.folders
      || not (refers c.parent_id db.folders)
    then failed constraint_failed
    else done
        (tt, record db { folders = map (λ f. if f.id == id then set_folder c f else f) db.folders })

-- `INSERT INTO folder …`, which answers the id of the new row.
unfoldable pub insert_folder : Text → FolderFields → Db → Outside (ℕ × Db)
insert_folder path c db =
    if any (λ f. list_eq f.path path || list_eq f.slug c.slug) db.folders
      || not (refers c.parent_id db.folders)
    then failed constraint_failed
    else done (
      db.next_folder,
      record db {
        folders =
            db.folders
            ++ record {
              id = db.next_folder;
              parent_id = c.parent_id;
              path = path;
              name = c.name;
              sort_key = c.sort_key;
              cover_path = c.cover_path;
              mtime = c.mtime;
              seen_at = c.seen_at;
              cover_version = none;
              description = c.description;
              slug = c.slug;
            }
              ∷ [];
        next_folder = suc db.next_folder;
      },
    )

-- The columns of a book that a scan reads from its file.
pub record BookFields : Type 0 where
  pub hash : Text
  pub name : Text
  pub sort_key : Text
  pub format : Text
  pub file_size : ℕ
  pub mtime : ℕ
  pub page_count : ℕ

-- `UPDATE book SET seen_at=?, folder_id=? WHERE id=?`
unfoldable pub touch_book : ℕ → ℕ → ℕ → Db → Outside (Unit {0} × Db)
touch_book id seen_at folder_id db =
    if has_folder folder_id db.folders
    then done (
      tt,
      record db {
        books =
            map
              (λ b. if b.id == id then record b { seen_at = seen_at; folder_id = folder_id } else b)
              db.books;
      },
    )
    else failed constraint_failed

abbrev pub set_book : ℕ → ℕ → BookFields → Book → Book
set_book folder_id seen_at c b = record b {
  folder_id = folder_id;
  hash = c.hash;
  name = c.name;
  sort_key = c.sort_key;
  format = c.format;
  file_size = c.file_size;
  mtime = c.mtime;
  page_count = c.page_count;
  seen_at = seen_at;
}

unfoldable pub update_book : ℕ → ℕ → ℕ → BookFields → Db → Outside (Unit {0} × Db)
update_book id folder_id seen_at c db =
    if has_folder folder_id db.folders
    then done (
      tt,
      record db {
        books = map (λ b. if b.id == id then set_book folder_id seen_at c b else b) db.books;
      },
    )
    else failed constraint_failed

unfoldable pub insert_book : Text → ℕ → ℕ → BookFields → Db → Outside (Unit {0} × Db)
insert_book path folder_id seen_at c db =
    if any (λ b. list_eq b.path path) db.books || not (has_folder folder_id db.folders)
    then failed constraint_failed
    else done (
      tt,
      record db {
        books =
            db.books
            ++ record {
              id = db.next_book;
              folder_id = folder_id;
              hash = c.hash;
              path = path;
              name = c.name;
              sort_key = c.sort_key;
              format = c.format;
              file_size = c.file_size;
              mtime = c.mtime;
              page_count = c.page_count;
              added_at = seen_at;
              seen_at = seen_at;
            }
              ∷ [];
        next_book = suc db.next_book;
      },
    )

-- `DELETE FROM book WHERE seen_at < ?`
unfoldable pub prune_books : ℕ → Db → Outside (Unit {0} × Db)
prune_books started db =
    done (tt, record db { books = filter (λ b. not (ltb b.seen_at started)) db.books })

-- `ON DELETE CASCADE`: rows whose folder is gone go too, level by level.
abbrev pub cascade : ℕ → List Folder → List Folder
cascade zero folders = folders
cascade (suc n) folders = cascade n (filter (λ f. refers f.parent_id folders) folders)

-- `DELETE FROM folder WHERE seen_at < ?`
unfoldable pub prune_folders : ℕ → Db → Outside (Unit {0} × Db)
prune_folders started db =
    let kept = cascade (length db.folders) (filter (λ f. not (ltb f.seen_at started)) db.folders) in
    done
      (tt, record db { folders = kept; books = filter (λ b. has_folder b.folder_id kept) db.books })

-- `UPDATE folder SET cover_version = ? WHERE id = ?`
unfoldable pub set_cover_version : ℕ → Option Text → Db → Outside (Unit {0} × Db)
set_cover_version id version db = done (
  tt,
  record db {
    folders = map (λ f. if f.id == id then record f { cover_version = version } else f) db.folders;
  },
)

-- `ORDER BY sort_key LIMIT 1`: texts compare by their code points; of equal keys, the earlier row.
abbrev pub prefer_first : Book → Option Book → Book
prefer_first b none = b
prefer_first b (some c) = elim (lex compare b.sort_key c.sort_key) [ Ordering.gt ↦ c | _ ↦ b ]

abbrev pub first_by_key : List Book → Option Book
first_by_key [] = none
first_by_key (b ∷ bs) = some (prefer_first b (first_by_key bs))

-- `SELECT … FROM book WHERE folder_id = ? ORDER BY sort_key LIMIT 1`
unfoldable pub direct_book_of : ℕ → Db → Option Book
direct_book_of id db = first_by_key (filter (λ b. b.folder_id == id) db.books)

-- `WITH RECURSIVE sub`: the folder and those below it, down to the depth given.
abbrev pub is_below : ℕ → ℕ → List Folder → Option ℕ → Bool
is_below n root folders none = false
is_below zero root folders (some id) = id == root
is_below (suc n) root folders (some id) =
    id == root || any (λ f. f.id == id && is_below n root folders f.parent_id) folders

-- The first book of the folder and of those below it; no folder is deeper than there are folders.
unfoldable pub descendant_book_of : ℕ → Db → Option Book
descendant_book_of id db =
    first_by_key
      (filter (λ b. is_below (length db.folders) id db.folders (some b.folder_id)) db.books)
