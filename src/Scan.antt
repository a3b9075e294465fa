-- ===== src/Scan.antt =====
-- src/scan.rs: the rows of a folder and of a book. The file system is the record `Disk`, whose
-- names are all valid Unicode; the database is that of Db.
pub mod Walk
pub mod Books
pub mod Rows
pub mod Found
pub mod Left
pub mod Kept
pub mod Untouched
pub mod Prewarm
pub mod Counts
pub mod Made
pub mod Warm
use comic_stream.Common.{
  ℕ, zero, suc, ◌+◌, ◌*◌, ◌-◌, ◌/◌, ◌%◌, ◌==◌, ltb, Bool, true, false, ◌&&◌, ◌||◌, not, Option,
  none, some, List, [], ◌∷◌, ◌++◌, any, length, take, reverse, if◌then◌else◌, list_eq,
}
use comic_stream.Text.{Text, codes, is_empty, trim, split_once}
use comic_stream.Text.Utf8.{as_bytes}
use comic_stream.Http.{Outside, done, failed}
use comic_stream.Models.{Folder, Book}
use comic_stream.Natsort.{key}
use comic_stream.Archive.{Kind, zip, rar, file_name}
use comic_stream.Db.{
  Db, Statement, select_folder, upsert_folder_row, select_book, upsert_book_row, Action, and_then,
  ◌>>=◌, pure, lift, written, run, query, folder_at, book_at, FolderFields, update_folder,
  insert_folder, BookFields, touch_book, update_book, insert_book,
}

abbrev pub cover_names : List Text
cover_names =
    codes "cover.jpg"
    ∷ codes "cover.jpeg"
    ∷ codes "cover.png"
    ∷ codes "folder.jpg"
    ∷ codes "folder.png"
    ∷ []

abbrev pub description_names : List Text
description_names = codes "description.txt" ∷ []

abbrev pub max_description_bytes : ℕ
max_description_bytes = 16 * 1024

abbrev pub max_archive_bytes : ℕ
max_archive_bytes = 4 * 1024 * 1024 * 1024

abbrev pub max_pages : ℕ
max_pages = 10_000

abbrev pub ignored_dirs : List Text
ignored_dirs = codes "@eaDir" ∷ codes "__MACOSX" ∷ codes ".thumbnails" ∷ codes "__Panels" ∷ []

-- What `symlink_metadata` tells a path to be.
pub data FileType : Type 0 where
  regular directory symlink other : FileType

-- The file system as a scan finds it. `exists` says whether `metadata` answers for a path, `modified`
-- the time in seconds since the epoch, if it gives one; `file_size`, `is_file` and `read` follow links. `hash` is `file_hash`, `detect`
-- and `page_count` are `archive::detect` and the pages of `archive::open`. `lossy` is
-- `String::from_utf8_lossy`, and `xxh3_64` the hash of that name.
pub record Disk : Type 0 where
  pub exists : Text → Bool
  pub modified : Text → Option ℕ
  pub file_size : Text → Outside ℕ
  pub file_type : Text → Option FileType
  pub is_file : Text → Bool
  pub read : Text → Outside (List ℕ)
  pub hash : Text → Outside Text
  pub detect : Text → Outside Kind
  pub page_count : Text → Outside ℕ
  pub lossy : List ℕ → Text
  pub xxh3_64 : List ℕ → ℕ

-- `Path::join` with a file's name.
abbrev pub join : Text → Text → Text
join folder name = folder ++ b'/' ∷ name

abbrev pub or_else {ℓ} : {A : Type ℓ} → A → Option A → A
or_else default none = default
or_else default (some a) = a

abbrev pub hex_digit : ℕ → ℕ
hex_digit d = if ltb d 10 then d + b'0' else d - 10 + b'a'

-- `{:016x}`
unfoldable pub hex : ℕ → ℕ → Text
hex zero n = []
hex (suc digits) n = hex digits (n / 16) ++ hex_digit (n % 16) ∷ []

-- `Path::file_stem` of a file name: what stands before the last dot, unless that is its first
-- character.
abbrev pub before_dot : Text → Option (Text × Text) → Text
before_dot name none = name
before_dot name (some (after, before)) = if is_empty before then name else reverse before

unfoldable pub file_stem : Text → Option Text
file_stem path = elim (file_name path) [
  | none ↦ none
  | some f ↦ some (before_dot f (split_once b'.' (reverse f)))
]

abbrev pub format_of : Kind → Text
format_of zip = codes "cbz"
format_of rar = codes "cbr"

module _ (disk : Disk) where
  -- `slug::for_path`
  unfoldable pub for_path : Text → Text
  unfolding hex
  for_path path = hex 16 (disk.xxh3_64 (as_bytes path))

  unfoldable pub mtime_secs : Text → ℕ
  mtime_secs path = or_else 0 (disk.modified path)

  abbrev pub is_regular : Option FileType → Bool
  is_regular (some regular) = true
  is_regular _ = false

  -- The loop of `find_cover` over the names.
  abbrev pub first_cover : Text → List Text → Option Text
  first_cover folder [] = none
  first_cover folder (name ∷ names) =
      if is_regular (disk.file_type (join folder name))
      then some (join folder name)
      else first_cover folder names

  unfoldable pub find_cover : Text → Option Text
  find_cover folder = first_cover folder cover_names

  -- The text of a description file, if it can be read and is not blank.
  abbrev pub described : Outside (List ℕ) → Option Text
  described (failed message) = none
  described (done bytes) =
      let text = trim (
        disk.lossy (
          if ltb max_description_bytes (length bytes)
          then take max_description_bytes bytes
          else bytes)) in
      if is_empty text then none else some text

  abbrev pub or_next {ℓ} : {A : Type ℓ} → Option A → Option A → Option A
  or_next none o = o
  or_next (some a) o = some a

  -- The loop of `find_description` over the names.
  abbrev pub first_description : Text → List Text → Option Text
  first_description folder [] = none
  first_description folder (name ∷ names) =
      let rest = first_description folder names in
      if not (disk.is_file (join folder name))
      then rest
      else or_next (described (disk.read (join folder name))) rest

  unfoldable pub find_description : Text → Option Text
  find_description folder = first_description folder description_names

  -- The columns of a folder's row.
  unfoldable pub folder_fields : Text → Option ℕ → Option Text → ℕ → FolderFields
  unfolding mtime_secs find_cover find_description for_path
  folder_fields path parent_id name_override seen_at =
      let name = or_else (or_else path (file_name path)) name_override in
      record {
        parent_id = parent_id;
        name = name;
        sort_key = key name;
        cover_path = find_cover path;
        description = find_description path;
        mtime = mtime_secs path;
        seen_at = seen_at;
        slug = for_path path;
      }

  -- From the hash to the format: what a book's row holds of its file, `none` if it is left out.
  unfoldable pub read_book : Text → ℕ → ℕ → Outside (Option BookFields)
  unfolding file_stem
  read_book path mtime file_size = elim (disk.hash path) [
    | failed message ↦ failed message
    | done hash ↦ elim (disk.detect path) [
      | failed message ↦ failed message
      | done kind ↦ elim (disk.page_count path) [
        | failed message ↦ failed message
        | done page_count ↦
            if page_count == 0
            then done none
            else if ltb max_pages page_count
            then done none
            else let stem = or_else path (file_stem path) in
              done (
                some (record {
                  hash = hash;
                  name = stem;
                  sort_key = key stem;
                  format = format_of kind;
                  file_size = file_size;
                  mtime = mtime;
                  page_count = page_count;
                }))
      ]
    ]
  ]

  module _ (refuses : Statement → Option Text) where
    -- The `if let Some((id,)) = row` of `upsert_folder`.
    unfoldable pub write_folder : Text → FolderFields → Option Folder → Action ℕ
    unfolding update_folder insert_folder
    write_folder path fields (some f) = do
      _ ← run refuses (upsert_folder_row path) (update_folder f.id fields)
      pure f.id
    write_folder path fields none = run refuses (upsert_folder_row path) (insert_folder path fields)

    unfoldable pub upsert_folder : Text → Option ℕ → Option Text → ℕ → Action ℕ
    unfolding folder_fields write_folder
    upsert_folder path parent_id name_override seen_at =
        let fields = folder_fields path parent_id name_override seen_at in
        do row ← query refuses (select_folder path) (folder_at path); write_folder path fields row

    abbrev pub is_unchanged : Option Book → ℕ → ℕ → Bool
    is_unchanged none mtime file_size = false
    is_unchanged (some b) mtime file_size = b.mtime == mtime && b.file_size == file_size

    -- The row of a book that was there before, and one that is new.
    unfoldable pub write_book : Text → ℕ → ℕ → BookFields → Option Book → Action (Unit {0})
    unfolding update_book insert_book
    write_book path folder_id seen_at c (some b) =
        run refuses (upsert_book_row path) (update_book b.id folder_id seen_at c)
    write_book path folder_id seen_at c none =
        run refuses (upsert_book_row path) (insert_book path folder_id seen_at c)

    abbrev pub write_if_read : Text → ℕ → ℕ → Option Book → Option BookFields → Action (Unit {0})
    write_if_read path folder_id seen_at existing none = pure tt
    write_if_read path folder_id seen_at existing (some c) =
        write_book path folder_id seen_at c existing

    abbrev pub touch_if_there : Text → ℕ → ℕ → Option Book → Action (Unit {0})
    touch_if_there path folder_id seen_at none = pure tt
    touch_if_there path folder_id seen_at (some b) =
        run refuses (upsert_book_row path) (touch_book b.id seen_at folder_id)

    -- What follows the lookup of the row.
    unfoldable pub refresh_book : Text → ℕ → ℕ → ℕ → ℕ → Option Book → Action (Unit {0})
    unfolding touch_book read_book write_book
    refresh_book path folder_id seen_at mtime file_size existing =
        if is_unchanged existing mtime file_size
        then touch_if_there path folder_id seen_at existing
        else (do
          contents ← lift (read_book path mtime file_size)
          write_if_read path folder_id seen_at existing contents)

    unfoldable pub upsert_book : Text → ℕ → ℕ → Action (Unit {0})
    unfolding refresh_book mtime_secs
    upsert_book path folder_id seen_at = do
      file_size ← lift (disk.file_size path)
      if ltb max_archive_bytes file_size then pure tt else (do
        existing ← query refuses (select_book path) (book_at path)
        refresh_book path folder_id seen_at (mtime_secs path) file_size existing)
