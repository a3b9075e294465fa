-- ===== src/Tests/Feeds.antt =====
-- The feed of a folder after a scan.
use comic_stream.Common.{◌≡◌, refl, none, [], ◌++◌}
use comic_stream.Text.{Text, codes, split_once, split, is_empty, lowercase, trim}
use comic_stream.Text.Utf8.{encode, as_bytes}
use comic_stream.Text.Decimal.{show, show_fuel}
use comic_stream.Natsort.{key, key_loop, take_digits, pad}
use comic_stream.Archive.{is_supported, extension, file_name}
use comic_stream.Db.{
  Db, update_folder, insert_folder, insert_book, update_book, touch_book, prune_books,
  prune_folders, direct_book_of, descendant_book_of, set_cover_version,
}
use comic_stream.Scan.{
  for_path, hex, file_stem, mtime_secs, find_cover, find_description, folder_fields, write_folder,
  upsert_folder, read_book, write_book, refresh_book, upsert_book,
}
use comic_stream.Scan.Walk.{
  scan, walked, walk, walk_all, visit, enter, prune, refresh_cover_versions, refresh_versions,
  cover_version_for, version_by_books,
}
use comic_stream.Http.{Response, Result, ok, err}
use comic_stream.Http.Instance.{function_headers}
use comic_stream.Scan.Found.{IsBookAmong}
use comic_stream.Catalog.{feed_response, serve_folder_feed, folder_by_slug, opds_folder}
use comic_stream.Catalog.Scanned.{IsFeedWith, opds_folder-IsBookAmong}
use comic_stream.Tests.Catalog.{packages, refuses_no_query}
use comic_stream.Tests.Library.{
  small_disk, refuses_none, library, shelf, before, before-IsTable, scan_succeeds,
}

abbrev saga_slug : Text
saga_slug = codes "000000000010c17e"

abbrev after : Db
after = (scan small_disk refuses_none 10 library none shelf before).1

abbrev saga_feed : Result (Response function_headers.HeaderMap)
saga_feed = opds_folder function_headers packages refuses_no_query after saga_slug

abbrev response_of :
    Result (Response function_headers.HeaderMap) → Response function_headers.HeaderMap
response_of (ok resp) = resp
response_of (err e) = feed_response function_headers packages refuses_no_query before [] []

served : saga_feed ≡ ok (response_of saga_feed)
unfolding scan walked walk walk_all visit enter upsert_folder upsert_book refresh_book read_book
    write_book insert_book update_book touch_book prune prune_books prune_folders
    refresh_cover_versions refresh_versions cover_version_for version_by_books direct_book_of
    descendant_book_of set_cover_version folder_fields write_folder update_folder insert_folder
    mtime_secs find_cover find_description for_path hex file_stem key key_loop take_digits pad
    is_supported extension file_name split_once split is_empty lowercase encode as_bytes show
    show_fuel trim opds_folder folder_by_slug serve_folder_feed
served = refl

opds_folder-IsBookAmong_example :
    IsFeedWith function_headers packages refuses_no_query after
      (λ b. IsBookAmong library shelf b.path)
      (codes "/opds/folders/" ++ saga_slug)
      (response_of saga_feed)
opds_folder-IsBookAmong_example =
    opds_folder-IsBookAmong function_headers packages refuses_no_query small_disk refuses_none 10
      library none shelf before saga_slug (response_of saga_feed) before-IsTable (refl, tt)
      scan_succeeds served
