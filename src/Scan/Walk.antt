-- ===== src/Scan/Walk.antt =====
-- src/scan.rs, `scan`: the walk over the library, the pruning of what is gone, and the versions of the
-- covers. `Node` is what `WalkDir` finds, in its order: a directory before what it holds, siblings in
-- the order of `natsort::cmp`, errors where they occur.
use comic_stream.Common.{
  ℕ, suc, Bool, true, false, ◌||◌, Option, none, some, List, [], ◌∷◌, ◌++◌, map, any, ltb,
  if◌then◌else◌, list_eq, ◌==◌,
}
use comic_stream.Text.{Text, codes}
use comic_stream.Text.Decimal.{show}
use comic_stream.Http.{Outside, done, failed}
use comic_stream.Models.{Book}
use comic_stream.Archive.{is_supported}
use comic_stream.Db.{
  Db, Statement, removed_books, delete_books, removed_folders, delete_folders, list_folders,
  direct_book, descendant_book, set_version, Action, ◌>>=◌, pure, run, query, filter, prune_books,
  prune_folders, direct_book_of, descendant_book_of, set_cover_version,
}
use comic_stream.Scan.{Disk, join, ignored_dirs, or_else, upsert_folder, upsert_book}

mutual
  pub data Node : Type 0 where
    broken : Text → Node
    folder : Text → Nodes → Node
    book_file : Text → Node
    special : Text → Node

  pub data Nodes : Type 0 where
    end : Nodes
    node : Node → Nodes → Nodes

-- The database, the ids of the folders that have a row, and the counts that are logged.
pub record Progress : Type 0 where
  pub db : Db
  pub path_to_id : Text → Option ℕ
  pub book_count : ℕ
  pub folder_count : ℕ

abbrev pub is_ignored : Text → Bool
is_ignored name = any (λ n. list_eq name n) ignored_dirs

-- `file_name.starts_with('.')`
abbrev pub is_hidden : Text → Bool
is_hidden [] = false
is_hidden (c ∷ _) = c == b'.'

module _ (disk : Disk) (refuses : Statement → Option Text) (started : ℕ) where
  abbrev pub add_id : Text → ℕ → (Text → Option ℕ) → Text → Option ℕ
  add_id path id ids p = if list_eq p path then some id else ids p

  -- The row of a directory; the Boolean says whether the walk goes down into it.
  abbrev pub entered : Text → Progress → Outside ℕ × Db → Progress × Bool
  entered path s (failed message, db) = (record s { db = db }, false)
  entered path s (done id, db) = (
    record s {
      db = db;
      path_to_id = add_id path id s.path_to_id;
      folder_count = suc s.folder_count;
    },
    true,
  )

  abbrev pub enter_under : Text → Progress → Option ℕ → Progress × Bool
  enter_under path s none = (s, true)
  enter_under path s (some parent_id) =
      entered path s (upsert_folder disk refuses path (some parent_id) none started s.db)

  -- The loop's body at a directory: ignored and hidden ones are skipped with all they hold.
  unfoldable pub enter : Text → Text → Progress → Progress × Bool
  unfolding upsert_folder
  enter parent name s =
      if is_ignored name || is_hidden name
      then (s, false)
      else enter_under (join parent name) s (s.path_to_id parent)

  abbrev pub counted : Progress → Outside (Unit {0}) × Db → Progress
  counted s (failed message, db) = record s { db = db }
  counted s (done _, db) = record s { db = db; book_count = suc s.book_count }

  abbrev pub visit_under : Text → Progress → Option ℕ → Progress
  visit_under path s none = s
  visit_under path s (some parent_id) =
      counted s (upsert_book disk refuses path parent_id started s.db)

  -- The loop's body at a file.
  unfoldable pub visit : Text → Text → Progress → Progress
  unfolding upsert_book
  visit parent name s =
      if is_hidden name
      then s
      else if is_supported (join parent name)
      then visit_under (join parent name) s (s.path_to_id parent)
      else s

  unfoldable mutual
    unfolding enter visit

    pub walk : Text → Node → Progress → Progress
    walk parent (broken message) s = s
    walk parent (special name) s = s
    walk parent (book_file name) s = visit parent name s
    walk parent (folder name children) s =
        let entered_at = enter parent name s in
        let below = walk_all (join parent name) children entered_at.0 in
        if entered_at.1 then below else entered_at.0

    pub walk_all : Text → Nodes → Progress → Progress
    walk_all parent end s = s
    walk_all parent (node n ns) s = walk_all parent ns (walk parent n s)

  -- `cover_version_for`
  abbrev pub version_of_file : Option ℕ → Text
  version_of_file modified = codes "p" ++ show (or_else 0 modified)

  -- The version of a folder without a cover file: the hash of the book that stands for it.
  abbrev pub hash_of : Option Book → Option Text
  hash_of none = none
  hash_of (some b) = some b.hash

  abbrev pub descendant_if_none : ℕ → Option Text → Action (Option Text)
  descendant_if_none folder_id (some hash) = pure (some hash)
  descendant_if_none folder_id none =
      query refuses (descendant_book folder_id) (λ db. hash_of (descendant_book_of folder_id db))

  unfoldable pub version_by_books : ℕ → Action (Option Text)
  unfolding direct_book_of descendant_book_of
  version_by_books folder_id = do
    direct ← query refuses (direct_book folder_id) (λ db. hash_of (direct_book_of folder_id db))
    descendant_if_none folder_id direct

  unfoldable pub cover_version_for : ℕ → Option Text → Action (Option Text)
  unfolding version_by_books
  cover_version_for folder_id none = version_by_books folder_id
  cover_version_for folder_id (some path) =
      if disk.exists path
      then pure (some (version_of_file (disk.modified path)))
      else version_by_books folder_id

  -- The loop of `refresh_cover_versions`.
  unfoldable pub refresh_versions : List (ℕ × Option Text) → Action (Unit {0})
  unfolding cover_version_for set_cover_version
  refresh_versions [] = pure tt
  refresh_versions ((id, cover_path) ∷ rest) = do
    version ← cover_version_for id cover_path
    _ ← run refuses (set_version id) (set_cover_version id version)
    refresh_versions rest

  unfoldable pub refresh_cover_versions : Action (Unit {0})
  unfolding refresh_versions
  refresh_cover_versions = do
    folders ← query refuses list_folders (λ db. map (λ f. (f.id, f.cover_path)) db.folders)
    refresh_versions folders

  -- What follows the walk: rows that this scan has not seen are deleted. The two queries before
  -- the deletions only feed the log.
  unfoldable pub prune : Action (Unit {0})
  unfolding prune_books prune_folders refresh_cover_versions
  prune = do
    _ ←
        query refuses removed_books
          (λ db. map (λ b. b.path) (filter (λ b. ltb b.seen_at started) db.books))
    _ ← run refuses delete_books (prune_books started)
    _ ←
        query refuses removed_folders
          (λ db. map (λ f. f.path) (filter (λ f. ltb f.seen_at started) db.folders))
    _ ← run refuses delete_folders (prune_folders started)
    refresh_cover_versions

  unfoldable pub walked : Text → Nodes → ℕ → Db → Db
  unfolding walk
  walked library tree root_id db =
      (walk_all library tree (record {
        db = db;
        path_to_id = add_id library root_id (λ _. none);
        book_count = 0;
        folder_count = 0;
      })).db

  -- `scan`, at the time `started`, up to the thumbnails that it may make at its end.
  unfoldable pub scan : Text → Option Text → Nodes → Action (Unit {0})
  unfolding upsert_folder walked prune
  scan library library_name tree = do
    root_id ← upsert_folder disk refuses library none library_name started
    _ ← (λ db. (done (tt {0}), walked library tree root_id db))
    prune
