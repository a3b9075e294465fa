-- ===== src/Tests/Library.antt =====
-- Scans of a small library, and requests for them.
use comic_stream.Common.{
  true, any, list_eq, ℕ, ◌≡◌, refl, false, Option, none, some, List, [], ◌∷◌, ◌+◌, ◌*◌, All, arith,
}
use comic_stream.Text.{Text, codes, split_once, split, is_empty, lowercase, trim}
use comic_stream.Text.Utf8.{encode, as_bytes}
use comic_stream.Text.Decimal.{show, show_fuel}
use comic_stream.Natsort.{key, key_loop, take_digits, pad}
use comic_stream.Http.{done, failed}
use comic_stream.Archive.{zip, is_supported, extension, file_name}
use comic_stream.Models.{Folder, Book}
use comic_stream.Db.{
  Db, Statement, filter, update_folder, insert_folder, insert_book, update_book, touch_book,
  prune_books, prune_folders, direct_book_of, descendant_book_of, set_cover_version,
}
use comic_stream.Scan.{
  Disk, for_path, hex, file_stem, mtime_secs, find_cover, find_description, folder_fields,
  write_folder, upsert_folder, read_book, write_book, refresh_book, upsert_book,
}
use comic_stream.Scan.Rows.{IsTable}
use comic_stream.Scan.Walk.{
  Nodes, folder, book_file, end, node, scan, walked, walk, walk_all, visit, enter, prune,
  refresh_cover_versions, refresh_versions, cover_version_for, version_by_books,
}
use comic_stream.Scan.Kept.{scan-IsBookAmong}
use comic_stream.Scan.Untouched.{is_other, contents_of, upsert_book-others, upsert_book-unread}
use comic_stream.Scan.Found.{IsBookAmong}

abbrev weigh : List ℕ → ℕ
weigh [] = 7
weigh (b ∷ bs) = b + 3 * weigh bs

-- Every path is a file of 100 bytes and 20 pages, with its own path as its hash.
abbrev pub small_disk : Disk
small_disk = record {
  exists = λ _. false;
  modified = λ _. some 5;
  file_size = λ _. done 100;
  file_type = λ _. none;
  is_file = λ _. false;
  read = λ _. failed [];
  hash = λ path. done path;
  detect = λ _. done zip;
  page_count = λ _. done 20;
  lossy = λ bytes. bytes;
  xxh3_64 = weigh;
}

abbrev pub refuses_none : Statement → Option Text
refuses_none _ = none

abbrev pub library : Text
library = codes "/lib"

abbrev pub shelf : Nodes
shelf =
    node (folder (codes "Saga") (node (book_file (codes "1.cbz")) end))
      (node (book_file (codes ".x.cbz")) (node (book_file (codes "a.txt")) end))

abbrev pub lib_folder : Folder
lib_folder = record {
  id = 1;
  parent_id = none;
  path = library;
  name = library;
  sort_key = library;
  cover_path = none;
  mtime = 5;
  seen_at = 3;
  cover_version = none;
  description = none;
  slug = codes "s";
}

abbrev pub gone_book : Book
gone_book = record {
  id = 1;
  folder_id = 1;
  hash = codes "h";
  path = codes "/lib/gone.cbz";
  name = codes "gone";
  sort_key = codes "gone";
  format = codes "cbz";
  file_size = 100;
  mtime = 5;
  page_count = 20;
  added_at = 3;
  seen_at = 3;
}

abbrev pub before : Db
before = record {
  folders = lib_folder ∷ [];
  books = gone_book ∷ [];
  next_folder = 2;
  next_book = 2;
}

pub before-IsTable : IsTable before
before-IsTable = record { unique = (tt, tt); below = (omega arith, tt) }

pub scan_succeeds : (scan small_disk refuses_none 10 library none shelf before).0 ≡ done tt
unfolding scan walked walk walk_all visit enter upsert_folder upsert_book refresh_book read_book
    write_book insert_book update_book touch_book prune prune_books prune_folders
    refresh_cover_versions refresh_versions cover_version_for version_by_books direct_book_of
    descendant_book_of set_cover_version folder_fields write_folder update_folder insert_folder
    mtime_secs find_cover find_description for_path hex file_stem key key_loop take_digits pad
    is_supported extension file_name split_once split is_empty lowercase encode as_bytes show
    show_fuel trim
scan_succeeds = refl

scan-IsBookAmong_example :
    All
      (λ b. IsBookAmong library shelf b.path)
      (scan small_disk refuses_none 10 library none shelf before).1.books
scan-IsBookAmong_example =
    scan-IsBookAmong small_disk refuses_none 10 library none shelf before before-IsTable (refl, tt)
      scan_succeeds

upsert_book-others_example :
    filter
      (is_other (codes "/lib/1.cbz"))
      (upsert_book small_disk refuses_none (codes "/lib/1.cbz") 1 10 before).1.books
    ≡ filter (is_other (codes "/lib/1.cbz")) before.books
upsert_book-others_example =
    upsert_book-others small_disk refuses_none (codes "/lib/1.cbz") 1 10 before before-IsTable

upsert_book-unread_example :
    upsert_book
      (contents_of small_disk refuses_none
        (codes "/lib/gone.cbz")
        1
        10
        before
        (λ _. failed [])
        (λ _. failed [])
        (λ _. done 3))
      refuses_none
      (codes "/lib/gone.cbz")
      1
      10
      before
    ≡ upsert_book small_disk refuses_none (codes "/lib/gone.cbz") 1 10 before
unfolding mtime_secs
upsert_book-unread_example =
    upsert_book-unread small_disk refuses_none (codes "/lib/gone.cbz") 1 10 before (λ _. failed [])
      (λ _. failed []) (λ _. done 3) gone_book refl refl refl

-- A row that was last seen in the second in which the scan starts stays, though its file is gone.
stays_within_second :
    any
      (λ b. list_eq b.path (codes "/lib/gone.cbz"))
      (scan small_disk refuses_none 3 library none shelf before).1.books
    ≡ true
unfolding scan walked walk walk_all visit enter upsert_folder upsert_book refresh_book read_book
    write_book insert_book update_book touch_book prune prune_books prune_folders
    refresh_cover_versions refresh_versions cover_version_for version_by_books direct_book_of
    descendant_book_of set_cover_version folder_fields write_folder update_folder insert_folder
    mtime_secs find_cover find_description for_path hex file_stem key key_loop take_digits pad
    is_supported extension file_name split_once split is_empty lowercase encode as_bytes show
    show_fuel trim
stays_within_second = refl
