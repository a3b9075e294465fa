-- ===== src/Lib.antt =====
-- ComicStream serves a library of comic archives as OPDS feeds over HTTP. This library models the
-- parts of the server that decide what a client gets, and proves what makes them correct. Paths
-- are from the repository's root.
--
-- The parts, and the files that model them:
--
-- - Auth (src/auth.rs): `require_basic` stands in front of every protected route. It asks PeerIp
--   for the client's address, RateLimit whether that address is blocked, then `verify` for the
--   credentials, and tells RateLimit how that went. Auth/Gate has the middleware with the limiter's
--   state passed through; Auth/Verify, Auth/Gate/Laws,
--   Auth/Gate/Blocked and Auth/Gate/BruteForce have the theorems.
--   `keyed_hash`, `ct_eq` and base64 are the fields of `CryptoLib`, with the laws that their
--   documentation gives; that the hash has no collisions is a hypothesis where it is used.
-- - RateLimit (src/rate_limit.rs): `Limiter` with its map, `check_at`, `record_failure_at`,
--   `record_success` and `gc`. The map behind the mutex is a function, and a method returns the
--   limiter that it leaves, so that a run under the lock is a list of calls (RateLimit/Events).
--   RateLimit/Forgets relates it to a limiter that never drops an entry.
-- - PeerIp (src/peer_ip.rs): `client_ip`; the `ipnet` test and the parser of addresses are
--   parameters.
-- - Natsort (src/natsort.rs): `cmp` and `key`. Natsort/Tokens gives the sequence of tokens that
--   `cmp` compares, Natsort/Keys relates the two functions.
-- - Range (src/routes.rs): `parse_range`, `serve_file` and `serve_file_with_range`.
-- - Prefer (src/routes.rs): `parse_thumbnail_pref`.
-- - Opds with Models (src/opds.rs, src/models.rs): `build_feed` and `esc`. Opds/Escape is about
--   escaped text, Opds/Lines and Opds/Entries about the lines of a feed.
-- - Search (src/search.rs): `to_like_pattern`, against what LIKE is documented to match.
-- - Thumb (src/thumb.rs): `snap_width` and the paths of the cache; Thumb/Files makes a thumbnail,
--   with the `image` package as an interface and the cache's files as state.
-- - Archive (src/archive/): what kind of archive a file is, which of its entries are pages, and the
--   bytes of a page. What the readers of zip and rar files answer is an argument. Archive/Cache is
--   the cache of open archives, for requests one after the other, over the interface `Lru`.
-- - Books (src/routes.rs): the handlers of a book, `book_page`, `book_cover`, `book_thumbnail` and
--   `book_file`, which combine Prefer, Thumb, Archive's pages and Range. `World` holds what they
--   reach beyond the program, the database and the file system among it.
-- - Db (src/models.rs, migrations/, and the SQL of src/scan.rs): the tables as lists of rows, with
--   their constraints and cascades. A statement may also fail by itself, as an argument says.
-- - Scan (src/scan.rs, src/slug.rs): `upsert_folder` and `upsert_book` over the file system, the
--   record `Disk`. Scan/Walk has `scan`: the walk over the tree that WalkDir finds, the pruning of
--   rows that were not seen, and the versions of the covers; Scan/Prewarm the thumbnails at its
--   end. Scan/Books, Rows, Found, Left, Kept and Untouched are about the rows, Scan/Counts, Made
--   and Warm about the thumbnails.
-- - Rescan (src/scan.rs, src/watcher.rs, src/poller.rs, src/routes.rs, src/main.rs): who asks for a
--   scan and the task that scans, as steps in any order; the channel between them is the interface
--   `Channel`. The task's scan is that of Scan.
-- - Catalog (src/routes.rs, src/search.rs): the handlers that read the tables: the feeds of Opds,
--   the search with the pattern of Search, and `folder_cover`, which ends in a handler of Books.
--   Catalog/Scanned joins them to the scan.
-- - Server (src/routes.rs): `router`, the handlers of Books, Catalog and Rescan behind the
--   middleware of Auth.
-- - SafePath (src/safe_path.rs): `under`, over canonical paths, with what it keeps the handlers
--   from.
-- - RequestLog (src/routes.rs): the headers of `log_request`. Startup (src/main.rs): `auth_setup`.
-- - LogSafe (src/logsafe.rs): `sanitize`, which the middleware applies to what it logs.
-- - Http: what these use of requests, responses and the header map; `HeaderLib` is the interface of
--   the `http` package, and Http/Instance a map of functions that meets it.
-- - Ip, Text, Order, Common: addresses, strings as lists of code points with the standard library's
--   functions on them (Text/Utf8 for bytes, Text/Decimal for numbers), orders, and lists.
-- - Tests: the theorems and the code on concrete inputs.
--
-- Numbers are unbounded where the source's cannot overflow or the comment at a definition says
-- otherwise; saturation of `u32` failure counts and of `u128` numbers is written out, and so are the
-- limits of the parsers of `u32` and `u64`. Times are numbers of nanoseconds, without the panic of
-- an `Instant` or a `Duration` beyond its range. Times and sizes of the database, `i64` in the
-- source, are natural numbers.
--
-- Fuel: the loops of `cmp` and `key` run on one more than the length of the name, and take at least
-- a character in every round; the theorems about them need no hypothesis on it. `show` prints a
-- number on one more than the number itself.
--
-- The walk is structural recursion on the tree that is found, which follows no links. The fuel of
-- `is_below` and of the cascades of a deletion is the number of folders, and no folder is deeper.
--
-- Not modelled: `file_hash`, which hands a file to BLAKE3, and `db::open`; what axum does to find a
-- route; the command line and the rest of src/main.rs, which hand values to other packages. Names of
-- files are valid Unicode.
pub mod Common
pub mod Text
pub mod Order
pub mod Ip
pub mod Http
pub mod RateLimit
pub mod Natsort
pub mod Range
pub mod PeerIp
pub mod LogSafe
pub mod Auth
pub mod Models
pub mod Db
pub mod Scan
pub mod Rescan
pub mod Catalog
pub mod RequestLog
pub mod Startup
pub mod Server
pub mod SafePath
pub mod Opds
pub mod Search
pub mod Thumb
pub mod Prefer
pub mod Archive
pub mod Books
mod Tests
