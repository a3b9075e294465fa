-- ===== src/Tests/Pages.antt =====
-- src/archive/ and the page handler of src/routes.rs on concrete archives.
use comic_stream.Common.{
  ℕ, ◌≡◌, refl, true, false, none, some, List, [], ◌∷◌, length, map, list_eq, if◌then◌else◌,
}
use mathlib.Core.List.{Perm}
use comic_stream.Text.{
  Text, codes, lowercase, split, split_once, is_empty, trim, trim_start, trim_end, is_whitespace,
  trim_matches, strip_start, strip_end, parse_uint, parse_digits,
}
use comic_stream.Text.Decimal.{show, show_fuel}
use comic_stream.Http.{
  Request, content_length, content_type, content_type_value, apply_immutable_response_headers,
  Response, ok, Outside, done, failed,
}
use comic_stream.Http.Instance.{function_headers}
use comic_stream.Models.{Book}
use comic_stream.Natsort.{cmp, cmp_loop, take_number, take_number_from, push_digit}
use comic_stream.Thumb.Files.{
  ImageLib, Files, put_file, resized, write_resized, ensure_page_thumbnail,
}
use comic_stream.Thumb.{snap_width, page_thumb_path}
use comic_stream.Prefer.{parse_thumbnail_pref, parse_preference, on_tokens, on_token}
use comic_stream.Range.{serve_file}
use comic_stream.Archive.{
  PageEntry, Entry, Header, open_pages, list_pages, sort_pages, image_mime, extension, file_name,
  read_zip_page, read_rar_page, page_at, find_header,
}
use comic_stream.Archive.Listing.{images, all_fit, open_pages-images}
use comic_stream.Archive.Pages.{IsZipPageOf, read_zip_page-IsZipPageOf}
use comic_stream.Books.{
  pos, page_index, World, page_thumbnail, page_served, make_page_thumbnail, book_page, lookup_book,
  open_archive, vary_on_prefer,
}
use comic_stream.Books.Again.{book_page-again}

abbrev entries : List Entry
entries =
    record { is_dir = false; name = codes "10.png"; size = 5 }
    ∷ record { is_dir = true; name = codes "x/"; size = 0 }
    ∷ record { is_dir = false; name = codes "2.PNG"; size = 7 }
    ∷ record { is_dir = false; name = codes "info.txt"; size = 9 }
    ∷ []

abbrev page_two : PageEntry
page_two = record { name = codes "2.PNG"; mime = codes "image/png" }

abbrev page_ten : PageEntry
page_ten = record { name = codes "10.png"; mime = codes "image/png" }

abbrev two_pages : List PageEntry
two_pages = page_two ∷ page_ten ∷ []

opened : open_pages (codes "CBZ") (done (map done entries)) ≡ done two_pages
unfolding open_pages list_pages sort_pages image_mime extension file_name lowercase split split_once
    is_empty cmp cmp_loop take_number take_number_from push_digit
opened = refl

open_pages-images_example :
    (all_fit entries ≡ true
      → (pages : List PageEntry) × (open_pages (codes "CBZ") (done (map done entries)) ≡ done pages)
        × Perm pages (images entries))
    × (all_fit entries ≡ false
        → (message : Text) × (open_pages (codes "CBZ") (done (map done entries)) ≡ failed message))
open_pages-images_example = open_pages-images (codes "CBZ") entries

abbrev bytes_of : Text → Outside (List ℕ)
bytes_of name =
    if list_eq name (codes "10.png") then done (codes "image") else failed (codes "absent")

zip_read : read_zip_page two_pages bytes_of 1 ≡ done (codes "image", codes "image/png")
unfolding read_zip_page page_at
zip_read = refl

read_zip_page-IsZipPageOf_example :
    IsZipPageOf two_pages bytes_of 1 (codes "image", codes "image/png")
read_zip_page-IsZipPageOf_example =
    read_zip_page-IsZipPageOf two_pages bytes_of 1 (codes "image", codes "image/png") zip_read

abbrev headers : List (Outside Header)
headers =
    done (record {
      is_named = λ n. list_eq n (codes "2.PNG");
      unpacked_size = 7;
      read = failed (codes "broken");
      skip = done tt;
    })
    ∷ done (record {
      is_named = λ n. list_eq n (codes "10.png");
      unpacked_size = 5;
      read = done (codes "image");
      skip = done tt;
    })
    ∷ []

rar_read : read_rar_page two_pages (done headers) 1 ≡ done (codes "image", codes "image/png")
unfolding read_rar_page page_at find_header
rar_read = refl

-- An image library that passes bytes through.
abbrev pub plain_images : ImageLib
plain_images = record {
  Image = List ℕ;
  load = λ bytes. done bytes;
  width = λ img. length img;
  height = λ _. 1;
  resize = λ img w. img;
  write_jpeg = λ img. done img;
}

abbrev book : Book
book = record {
  id = 1;
  folder_id = 1;
  hash = codes "ab";
  path = codes "/lib/a.cbz";
  name = codes "a";
  sort_key = codes "a";
  format = codes "cbz";
  file_size = 10;
  mtime = 1;
  page_count = 2;
  added_at = 1;
  seen_at = 1;
}

abbrev pub world : World
world = record {
  lookup = λ _. done (some book);
  under = λ p. some p;
  archive = λ _ _. done (λ _. done (codes "image", codes "image/png"));
  file_at = λ _. done (codes "PK");
  seek = λ _. done tt;
  save = λ _ _. done tt;
  data_dir = codes "/data" ∷ [];
  page_thumb_default_width = 600;
}

abbrev request : Request
request = record {
  peer = none;
  path = codes "/books/ab/pages/1";
  header = λ name.
      if list_eq name (codes "prefer") then some (codes "variant=thumbnail; width=200") else none;
}

abbrev no_files : Files
no_files = λ _. none

abbrev one_file : Files
one_file =
    put_file (page_thumb_path (codes "/data" ∷ []) (codes "ab") 0 300) (codes "image") no_files

abbrev thumbnail : Response function_headers.HeaderMap
thumbnail = vary_on_prefer function_headers plain_images world (record {
  status = 200;
  headers = apply_immutable_response_headers function_headers (
      function_headers.insert content_length (show 5) (
        function_headers.insert content_type
          (content_type_value function_headers (codes "image/jpeg")) function_headers.empty));
  body = codes "image";
})

first_answer :
    book_page function_headers plain_images world (codes "ab") (pos 1) true request no_files
    ≡ ok (thumbnail, one_file)
unfolding book_page lookup_book page_index page_thumbnail page_served make_page_thumbnail
    open_archive ensure_page_thumbnail write_resized resized parse_thumbnail_pref parse_preference
    on_tokens on_token lowercase split split_once trim trim_start trim_end is_whitespace
    trim_matches strip_start strip_end parse_uint parse_digits snap_width page_thumb_path show
    show_fuel serve_file is_empty
first_answer = refl

book_page-again_example :
    book_page function_headers plain_images world (codes "ab") (pos 1) true request one_file
    ≡ ok (thumbnail, one_file)
book_page-again_example =
    book_page-again function_headers plain_images world (codes "ab") (pos 1) true request no_files
      one_file thumbnail first_answer
