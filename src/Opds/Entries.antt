-- ===== src/Opds/Entries.antt =====
-- src/opds.rs, `build_feed`: the lines that it writes.
use comic_stream.Common.{
  ℕ, ◌≡◌, refl, ◌∙◌, ap, Option, none, some, List, [], ◌∷◌, ◌++◌, map, max, take, if◌then◌else◌,
}
use comic_stream.Text.{Text, codes}
use comic_stream.Text.Decimal.{show}
use comic_stream.Models.{Folder, Book}
use comic_stream.Opds.{
  FeedCtx, cat, esc, write_folder_entry, write_book_entry, write_folders, write_books, up_line,
  build_feed, summary_line, cover_query, acq_type, nav_type,
}
use comic_stream.Opds.Lines.{
  onto-cat, contains, Each-map, IsFolderEntry, IsBookEntry, IsUpLine, IsFeedText,
}

module _ (rfc3339 : ℕ → Text) where
  folder_entry : (f : Folder) → IsFolderEntry f (write_folder_entry rfc3339 f)
  unfolding write_folder_entry
  folder_entry f = record {
    title =
        contains
          (codes "  <entry>\n    <id>urn:comicstream:folder:" ∷ f.slug ∷ codes "</id>\n    " ∷ [])
          (codes "<title>" ∷ esc f.name ∷ codes "</title>" ∷ []) _;
    link =
        contains
          (codes "  <entry>\n    <id>urn:comicstream:folder:"
            ∷ f.slug
            ∷ codes "</id>\n    <title>"
            ∷ esc f.name
            ∷ codes "</title>\n    <updated>"
            ∷ rfc3339 f.mtime
            ∷ codes "</updated>\n"
            ∷ summary_line f.description
            ∷ codes "    <link rel=\"http://opds-spec.org/image/thumbnail\" href=\"/folders/"
            ∷ f.slug
            ∷ codes "/cover"
            ∷ cover_query f.cover_version
            ∷ codes "\" type=\"image/jpeg\"/>\n    "
            ∷ [])
          (codes "<link rel=\"subsection\" href=\"/opds/folders/" ∷ f.slug ∷ codes "\"" ∷ []) _;
  }

  -- A book's entry up to the number of its pages.
  abbrev before_pages : Book → List Text
  before_pages b =
      codes "  <entry>\n    <id>urn:comicstream:book:"
      ∷ esc b.hash
      ∷ codes "</id>\n    <title>"
      ∷ esc b.name
      ∷ codes "</title>\n    <updated>"
      ∷ rfc3339 (max b.added_at b.mtime)
      ∷ codes "</updated>\n    <link rel=\"http://opds-spec.org/image\" href=\"/books/"
      ∷ esc b.hash
      ∷ codes "/cover\" type=\"image/jpeg\"/>\n"
      ∷ codes "    <link rel=\"http://opds-spec.org/image/thumbnail\" href=\"/books/"
      ∷ esc b.hash
      ∷ codes "/thumbnail\" type=\"image/jpeg\"/>\n"
      ∷ codes "    <link rel=\"http://vaemendis.net/opds-pse/stream\" href=\"/books/"
      ∷ esc b.hash
      ∷ codes "/pages/{pageNumber}\" type=\"image/jpeg\" "
      ∷ []

  book_entry : (b : Book) → IsBookEntry b (write_book_entry rfc3339 b)
  unfolding write_book_entry
  book_entry b = record {
    title =
        contains
          (codes "  <entry>\n    <id>urn:comicstream:book:" ∷ esc b.hash ∷ codes "</id>\n    " ∷ [])
          (codes "<title>" ∷ esc b.name ∷ codes "</title>" ∷ []) _;
    link =
        contains
          (before_pages b ++ codes "pse:count=\"" ∷ show b.page_count ∷ codes "\"/>\n    " ∷ [])
          (codes "<link rel=\"http://opds-spec.org/acquisition\" href=\"/books/"
            ∷ esc b.hash
            ∷ codes "/file\""
            ∷ [])
          _;
    pages =
        contains (before_pages b) (codes "pse:count=\"" ∷ show b.page_count ∷ codes "\"" ∷ []) _;
  }

  write_folders-cat :
      (folders : List Folder)
      → write_folders rfc3339 folders ≡ cat (map (write_folder_entry rfc3339) folders)
  unfolding write_folders
  write_folders-cat [] = refl
  write_folders-cat (f ∷ folders) =
      ap (λ t. write_folder_entry rfc3339 f ++ t) (write_folders-cat folders)

  write_books-cat :
      (books : List Book) → write_books rfc3339 books ≡ cat (map (write_book_entry rfc3339) books)
  unfolding write_books
  write_books-cat [] = refl
  write_books-cat (b ∷ books) = ap (λ t. write_book_entry rfc3339 b ++ t) (write_books-cat books)

  up_line-IsUpLine : (up : Option Text) → IsUpLine up (up_line rfc3339 up)
  up_line-IsUpLine none = refl
  up_line-IsUpLine (some up) =
      contains (codes "  " ∷ []) (codes "<link rel=\"up\" href=\"" ∷ esc up ∷ codes "\"" ∷ []) _

  abbrev head_lines : FeedCtx → List Text
  head_lines ctx =
      codes "<?xml version=\"1.0\" encoding=\"UTF-8\"?>\n"
      ∷ codes
          "<feed xmlns=\"http://www.w3.org/2005/Atom\" xmlns:opds=\"http://opds-spec.org/2010/catalog\" xmlns:pse=\"http://vaemendis.net/opds-pse/ns\">\n"
      ∷ codes "  <id>"
      ∷ esc ctx.feed_id
      ∷ codes "</id>\n  "
      ∷ codes "<title>"
      ∷ esc ctx.title
      ∷ codes "</title>"
      ∷ codes "\n  <updated>"
      ∷ ctx.updated
      ∷ codes "</updated>\n  <author><name>ComicStream</name></author>\n  "
      ∷ codes "<link rel=\"self\" href=\""
      ∷ esc ctx.self_href
      ∷ codes "\""
      ∷ codes " type=\""
      ∷ (if ctx.kind_acquisition then acq_type else nav_type)
      ∷ codes "\"/>\n  <link rel=\"start\" href=\"/opds\" type=\""
      ∷ nav_type
      ∷ codes "\"/>\n"
      ∷ codes
          "  <link rel=\"search\" type=\"application/opensearchdescription+xml\" href=\"/opds/opensearch.xml\"/>\n"
      ∷ []

  build_feed-lines :
      (ctx : FeedCtx) (folders : List Folder) (books : List Book)
      → build_feed rfc3339 ctx folders books
        ≡ cat (head_lines ctx)
          ++ (up_line rfc3339 ctx.up_href
              ++ (write_folders rfc3339 folders
                  ++ (write_books rfc3339 books ++ codes "</feed>\n")))
  unfolding build_feed
  build_feed-lines ctx folders books = onto-cat (head_lines ctx) (
      up_line rfc3339 ctx.up_href
      ++ (write_folders rfc3339 folders ++ (write_books rfc3339 books ++ codes "</feed>\n")))

  pub build_feed-IsFeedText :
      (ctx : FeedCtx) (folders : List Folder) (books : List Book)
      → IsFeedText ctx.title ctx.self_href ctx.up_href folders books
          (build_feed rfc3339 ctx folders books)
  build_feed-IsFeedText ctx folders books = record {
    head = cat (head_lines ctx);
    up = up_line rfc3339 ctx.up_href;
    folder_entries = map (write_folder_entry rfc3339) folders;
    book_entries = map (write_book_entry rfc3339) books;
    parts =
        build_feed-lines ctx folders books
        ∙ ap
            (λ t.
              cat (head_lines ctx)
              ++ (up_line rfc3339 ctx.up_href
                  ++ (t ++ (write_books rfc3339 books ++ codes "</feed>\n"))))
            (write_folders-cat folders)
        ∙ ap
            (λ t.
              cat (head_lines ctx)
              ++ (up_line rfc3339 ctx.up_href
                  ++ (cat (map (write_folder_entry rfc3339) folders) ++ (t ++ codes "</feed>\n"))))
            (write_books-cat books);
    title =
        contains (take 5 (head_lines ctx)) (codes "<title>" ∷ esc ctx.title ∷ codes "</title>" ∷ [])
          _;
    self =
        contains (take 11 (head_lines ctx))
          (codes "<link rel=\"self\" href=\"" ∷ esc ctx.self_href ∷ codes "\"" ∷ []) _;
    link_up = up_line-IsUpLine ctx.up_href;
    each_folder = Each-map IsFolderEntry (write_folder_entry rfc3339) folder_entry folders;
    each_book = Each-map IsBookEntry (write_book_entry rfc3339) book_entry books;
  }
