-- ===== src/Archive.antt =====
-- src/archive/: what kind of archive a file is, its pages, and their bytes. The readers of zip and
-- rar files are external: what they answer is an argument. The messages of errors, which only reach
-- the log, are shortened.
pub mod Pages
pub mod Sorted
pub mod Listing
pub mod Cache
use comic_stream.Common.{
  ℕ, ◌+◌, Bool, true, false, ◌&&◌, ◌||◌, not, Option, none, some, List, [], ◌∷◌, ◌++◌, reverse, ltb,
  length, take, get_elem?, ◌*◌, ◌==◌, if◌then◌else◌, list_eq, Ordering,
}
use comic_stream.Text.{Text, codes, lowercase, split, split_once, is_empty}
use comic_stream.Text.Decimal.{show}
use comic_stream.Http.{Outside, done, failed}
use comic_stream.Natsort.{cmp}

abbrev pub max_page_bytes : ℕ
max_page_bytes = 64 * 1024 * 1024

pub record PageEntry : Type 0 where
  pub name : Text
  pub mime : Text

pub data Kind : Type 0 where
  zip rar : Kind

-- The `?` of results with an error from outside.
infixl 5 ◌>>=◌
abbrev pub ◌>>=◌ {ℓ κ} : {A : Type ℓ} {B : Type κ} → Outside A → (A → Outside B) → Outside B
done a >>= f = f a
failed message >>= f = failed message

abbrev pub starts_with : List ℕ → List ℕ → Bool
starts_with bytes prefix = list_eq (take (length prefix) bytes) prefix

abbrev pub is_zip : List ℕ → Bool
is_zip head =
    starts_with head (codes "PK" ++ 3 ∷ 4 ∷ [])
    || starts_with head (codes "PK" ++ 5 ∷ 6 ∷ [])
    || starts_with head (codes "PK" ++ 7 ∷ 8 ∷ [])

abbrev pub is_rar : List ℕ → Bool
is_rar head =
    starts_with head (codes "Rar!" ++ 0x1a ∷ 7 ∷ 0 ∷ [])
    || starts_with head (codes "Rar!" ++ 0x1a ∷ 7 ∷ 1 ∷ [])

-- `read` is what opening the file and reading up to 8 bytes of it answers.
unfoldable pub detect : Outside (List ℕ) → Outside Kind
detect read = do
  head ← read
  if is_zip head
      then done zip
      else if is_rar head
      then done rar
      else failed (codes "unknown archive magic")

-- `Path::file_name`: the last component, `.` and empty ones aside, unless it is `..`.
abbrev pub last_component : Option Text → List Text → Option Text
last_component found [] = found
last_component found (c ∷ cs) =
    if is_empty c || list_eq c (codes ".")
    then last_component found cs
    else last_component (if list_eq c (codes "..") then none else some c) cs

unfoldable pub file_name : Text → Option Text
file_name path = last_component none (split (λ c. c == b'/') path)

-- `Path::extension` of a file name: what stands behind the last dot, unless that is its first
-- character.
abbrev pub behind_dot : Option (Text × Text) → Option Text
behind_dot none = none
behind_dot (some (after, before)) = if is_empty before then none else some (reverse after)

unfoldable pub extension : Text → Option Text
unfolding file_name
extension path = elim (file_name path) [
  | none ↦ none
  | some f ↦ behind_dot (split_once b'.' (reverse f))
]

abbrev pub supported : Option Text → Bool
supported none = false
supported (some e) =
    list_eq e (codes "cbz")
    || list_eq e (codes "zip")
    || list_eq e (codes "cbr")
    || list_eq e (codes "rar")

unfoldable pub is_supported : Text → Bool
unfolding extension
is_supported path = elim (extension path) [ none ↦ false | some e ↦ supported (some (lowercase e)) ]

abbrev pub mime_of : Text → Option Text
mime_of ext =
    if list_eq ext (codes "jpg")
      || list_eq ext (codes "jpeg")
      || list_eq ext (codes "jpe")
      || list_eq ext (codes "jfif")
    then some (codes "image/jpeg")
    else if list_eq ext (codes "png")
    then some (codes "image/png")
    else if list_eq ext (codes "webp")
    then some (codes "image/webp")
    else if list_eq ext (codes "gif")
    then some (codes "image/gif")
    else none

unfoldable pub image_mime : Text → Option Text
unfolding extension
image_mime name = elim (extension (lowercase name)) [ none ↦ none | some ext ↦ mime_of ext ]

-- What the reader tells of an entry: `size` is the declared uncompressed one.
pub record Entry : Type 0 where
  pub is_dir : Bool
  pub name : Text
  pub size : ℕ

abbrev pub declares_message : Text → Entry → Text
declares_message format e =
    format
    ++ (codes " entry " ++ (e.name ++ (codes " declares " ++ (show e.size ++ codes " bytes"))))

-- The loop over the entries of an archive, in `Cbz::open` and in `Cbr::open`.
unfoldable pub list_pages : Text → List (Outside Entry) → Outside (List PageEntry)
unfolding image_mime
list_pages format [] = done []
list_pages format (outcome ∷ rest) =
    let others = list_pages format rest in
    do
      e ← outcome
      if e.is_dir then others else elim (image_mime e.name) [
        | none ↦ others
        | some mime ↦
            if ltb max_page_bytes e.size
            then failed (declares_message format e)
            else (do pages ← others; done (record { name = e.name; mime = mime } ∷ pages))
      ]

-- `sort_by`, which is stable, with `natsort::cmp` on the names.
abbrev pub place : PageEntry → List PageEntry → List PageEntry
place p [] = p ∷ []
place p (q ∷ qs) =
    let later = place p qs in elim (cmp p.name q.name) [ Ordering.gt ↦ q ∷ later | _ ↦ p ∷ q ∷ qs ]

unfoldable pub sort_pages : List PageEntry → List PageEntry
sort_pages [] = []
sort_pages (p ∷ ps) = place p (sort_pages ps)

-- `Cbz::open` and `Cbr::open`: `listing` is what opening the archive answers.
unfoldable pub open_pages : Text → Outside (List (Outside Entry)) → Outside (List PageEntry)
unfolding list_pages sort_pages
open_pages format listing = do
  entries ← listing
  pages ← list_pages format entries
  done (sort_pages pages)

-- `Cbz::open` and `Cbr::open`
unfoldable pub open_zip : Outside (List (Outside Entry)) → Outside (List PageEntry)
unfolding open_pages
open_zip listing = open_pages (codes "CBZ") listing

unfoldable pub open_rar : Outside (List (Outside Entry)) → Outside (List PageEntry)
unfolding open_pages
open_rar listing = open_pages (codes "CBR") listing

abbrev pub open_kind :
    Outside (List (Outside Entry))
    → Outside (List (Outside Entry))
    → Kind
    → Outside (List PageEntry)
open_kind zip_listing rar_listing zip = open_zip zip_listing
open_kind zip_listing rar_listing rar = open_rar rar_listing

-- `archive::open`: the reader of the kind that the first bytes tell.
unfoldable pub open_archive_at :
    Outside (List ℕ)
    → Outside (List (Outside Entry))
    → Outside (List (Outside Entry))
    → Outside (Kind × List PageEntry)
unfolding detect open_zip open_rar
open_archive_at read zip_listing rar_listing = do
  kind ← detect read
  pages ← open_kind zip_listing rar_listing kind
  done (kind, pages)

unfoldable pub page_at : List PageEntry → ℕ → Outside PageEntry
page_at pages index = elim (get_elem? pages index) [
  | none ↦ failed (codes "page index " ++ (show index ++ codes " out of range"))
  | some entry ↦ done entry
]

-- `Cbz::read_page`: `by_name` opens the archive again and answers the bytes of an entry, of which
-- `max_page_bytes + 1` are read at most.
unfoldable pub read_zip_page :
    List PageEntry → (Text → Outside (List ℕ)) → ℕ → Outside (List ℕ × Text)
unfolding page_at
read_zip_page pages by_name index = do
  entry ← page_at pages index
  stream ← by_name entry.name
  let buf = take (max_page_bytes + 1) stream
  if ltb max_page_bytes (length buf)
      then failed (codes "CBZ entry " ++ (entry.name ++ codes " expanded past MAX_PAGE_BYTES"))
      else done (buf, entry.mime)

-- A header of a rar file: `is_named` compares its path with the one of a name, `read` unpacks the
-- entry, `skip` passes over it.
pub record Header : Type 0 where
  pub is_named : Text → Bool
  pub unpacked_size : ℕ
  pub read : Outside (List ℕ)
  pub skip : Outside (Unit {0})

-- The loop of `Cbr::read_page` over what `read_header` answers until the end of the file.
unfoldable pub find_header : PageEntry → List (Outside Header) → Outside (List ℕ × Text)
find_header entry [] = failed (codes "page not found")
find_header entry (outcome ∷ rest) =
    let others = find_header entry rest in
    do
      header ← outcome
      if header.is_named entry.name
          then if ltb max_page_bytes header.unpacked_size
            then failed (codes "CBR entry declares too many bytes")
            else (do
              bytes ← header.read
              if ltb max_page_bytes (length bytes)
                  then failed (codes "CBR entry expanded past MAX_PAGE_BYTES")
                  else done (bytes, entry.mime))
          else (do _ ← header.skip; others)

unfoldable pub read_rar_page :
    List PageEntry → Outside (List (Outside Header)) → ℕ → Outside (List ℕ × Text)
unfolding page_at find_header
read_rar_page pages opened index = do
  entry ← page_at pages index
  headers ← opened
  find_header entry headers
