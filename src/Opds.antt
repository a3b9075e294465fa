-- ===== src/Opds.antt =====
-- src/opds.rs: the Atom feeds. `rfc3339` is what chrono prints for a number of seconds.
pub mod Escape
pub mod Lines
pub mod Entries
use comic_stream.Common.{
  ℕ, Bool, ◌||◌, Option, none, some, List, [], ◌∷◌, ◌++◌, max, ◌==◌, if◌then◌else◌, list_eq,
}
use comic_stream.Text.{Text, codes}
use comic_stream.Text.Decimal.{show}
use comic_stream.Models.{Folder, Book}

abbrev pub nav_type : Text
nav_type = codes "application/atom+xml;profile=opds-catalog;kind=navigation"

abbrev pub acq_type : Text
acq_type = codes "application/atom+xml;profile=opds-catalog;kind=acquisition"

pub record FeedCtx : Type 0 where
  pub self_href : Text
  pub up_href : Option Text
  pub feed_id : Text
  pub title : Text
  pub updated : Text
  pub kind_acquisition : Bool

-- Pieces of text that are written one after the other.
abbrev pub cat : List Text → Text
cat [] = []
cat (t ∷ ts) = t ++ cat ts

abbrev pub escaped : ℕ → Text
escaped c =
    if c == b'&'
    then codes "&amp;"
    else if c == b'<'
    then codes "&lt;"
    else if c == b'>'
    then codes "&gt;"
    else if c == b'"'
    then codes "&quot;"
    else if c == 39
    then codes "&apos;"
    else c ∷ []

unfoldable pub esc : Text → Text
esc [] = []
esc (c ∷ s) = escaped c ++ esc s

unfoldable pub book_mime : Text → Text
book_mime format =
    if list_eq format (codes "cbz") || list_eq format (codes "zip")
    then codes "application/vnd.comicbook+zip"
    else if list_eq format (codes "cbr") || list_eq format (codes "rar")
    then codes "application/vnd.comicbook-rar"
    else codes "application/octet-stream"

abbrev pub summary_line : Option Text → Text
summary_line none = []
summary_line (some desc) =
    cat (codes "    <summary type=\"text\">" ∷ esc desc ∷ codes "</summary>\n" ∷ [])

abbrev pub cover_query : Option Text → Text
cover_query none = []
cover_query (some v) = cat (codes "?v=" ∷ esc v ∷ [])

module _ (rfc3339 : ℕ → Text) where
  -- What `write_folder_entry` appends.
  unfoldable pub write_folder_entry : Folder → Text
  write_folder_entry f = cat (
      codes "  <entry>\n"
      ∷ codes "    <id>urn:comicstream:folder:"
      ∷ f.slug
      ∷ codes "</id>\n"
      ∷ codes "    <title>"
      ∷ esc f.name
      ∷ codes "</title>\n"
      ∷ codes "    <updated>"
      ∷ rfc3339 f.mtime
      ∷ codes "</updated>\n"
      ∷ summary_line f.description
      ∷ codes "    <link rel=\"http://opds-spec.org/image/thumbnail\" href=\"/folders/"
      ∷ f.slug
      ∷ codes "/cover"
      ∷ cover_query f.cover_version
      ∷ codes "\" type=\"image/jpeg\"/>\n"
      ∷ codes "    <link rel=\"subsection\" href=\"/opds/folders/"
      ∷ f.slug
      ∷ codes "\" type=\""
      ∷ nav_type
      ∷ codes "\"/>\n"
      ∷ codes "  </entry>\n"
      ∷ [])

  -- What `write_book_entry` appends.
  unfoldable pub write_book_entry : Book → Text
  write_book_entry b = cat (
      codes "  <entry>\n"
      ∷ codes "    <id>urn:comicstream:book:"
      ∷ esc b.hash
      ∷ codes "</id>\n"
      ∷ codes "    <title>"
      ∷ esc b.name
      ∷ codes "</title>\n"
      ∷ codes "    <updated>"
      ∷ rfc3339 (max b.added_at b.mtime)
      ∷ codes "</updated>\n"
      ∷ codes "    <link rel=\"http://opds-spec.org/image\" href=\"/books/"
      ∷ esc b.hash
      ∷ codes "/cover\" type=\"image/jpeg\"/>\n"
      ∷ codes "    <link rel=\"http://opds-spec.org/image/thumbnail\" href=\"/books/"
      ∷ esc b.hash
      ∷ codes "/thumbnail\" type=\"image/jpeg\"/>\n"
      ∷ codes "    <link rel=\"http://vaemendis.net/opds-pse/stream\" href=\"/books/"
      ∷ esc b.hash
      ∷ codes "/pages/{pageNumber}\" type=\"image/jpeg\" pse:count=\""
      ∷ show b.page_count
      ∷ codes "\"/>\n"
      ∷ codes "    <link rel=\"http://opds-spec.org/acquisition\" href=\"/books/"
      ∷ esc b.hash
      ∷ codes "/file\" type=\""
      ∷ book_mime b.format
      ∷ codes "\" length=\""
      ∷ show b.file_size
      ∷ codes "\"/>\n"
      ∷ codes "  </entry>\n"
      ∷ [])

  unfoldable pub write_folders : List Folder → Text
  unfolding write_folder_entry
  write_folders [] = []
  write_folders (f ∷ fs) = write_folder_entry f ++ write_folders fs

  unfoldable pub write_books : List Book → Text
  unfolding write_book_entry
  write_books [] = []
  write_books (b ∷ bs) = write_book_entry b ++ write_books bs

  abbrev pub up_line : Option Text → Text
  up_line none = []
  up_line (some up) = cat (
      codes "  <link rel=\"up\" href=\""
      ∷ esc up
      ∷ codes "\" type=\""
      ∷ nav_type
      ∷ codes "\"/>\n"
      ∷ [])

  unfoldable pub build_feed : FeedCtx → List Folder → List Book → Text
  unfolding write_folders write_books
  build_feed ctx subfolders books =
      let self_type = if ctx.kind_acquisition then acq_type else nav_type in
      cat (
        codes "<?xml version=\"1.0\" encoding=\"UTF-8\"?>\n"
        ∷ codes
            "<feed xmlns=\"http://www.w3.org/2005/Atom\" xmlns:opds=\"http://opds-spec.org/2010/catalog\" xmlns:pse=\"http://vaemendis.net/opds-pse/ns\">\n"
        ∷ codes "  <id>"
        ∷ esc ctx.feed_id
        ∷ codes "</id>\n"
        ∷ codes "  <title>"
        ∷ esc ctx.title
        ∷ codes "</title>\n"
        ∷ codes "  <updated>"
        ∷ ctx.updated
        ∷ codes "</updated>\n"
        ∷ codes "  <author><name>ComicStream</name></author>\n"
        ∷ codes "  <link rel=\"self\" href=\""
        ∷ esc ctx.self_href
        ∷ codes "\" type=\""
        ∷ self_type
        ∷ codes "\"/>\n"
        ∷ codes "  <link rel=\"start\" href=\"/opds\" type=\""
        ∷ nav_type
        ∷ codes "\"/>\n"
        ∷ codes
            "  <link rel=\"search\" type=\"application/opensearchdescription+xml\" href=\"/opds/opensearch.xml\"/>\n"
        ∷ up_line ctx.up_href
        ∷ write_folders subfolders
        ∷ write_books books
        ∷ codes "</feed>\n"
        ∷ [])
