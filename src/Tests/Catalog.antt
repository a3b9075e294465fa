-- ===== src/Tests/Catalog.antt =====
-- The feeds, a folder's cover, a search, the thumbnails made ahead, and the log of requests, on concrete inputs.
use comic_stream.Common.{
  ℕ, ◌+◌, ◌≡◌, refl, Option, none, some, List, [], ◌∷◌, All, length, true_not_false,
}
use comic_stream.Text.{Text, codes, is_empty}
use comic_stream.Text.Decimal.{show}
use comic_stream.Http.{Response, Result, ok, err, Outside, done}
use comic_stream.Http.Instance.{function_headers}
use comic_stream.Models.{Folder, Book}
use comic_stream.Search.{to_like_pattern}
use comic_stream.Search.Glob.{IsFoundIn}
use comic_stream.Thumb.{cache_path, page_thumb_path}
use comic_stream.Thumb.Files.{
  Files, ensure_thumbnail, ensure_page_thumbnail, write_resized, resized,
}
use comic_stream.Catalog.{Query, Packages, order_by, run, feed_response, opds_folder, folder_cover}
use comic_stream.Catalog.Covers.{IsVersionOf, cover_version_for-folder_cover}
use comic_stream.Catalog.Hits.{IsFirst, run-finds}
use comic_stream.Scan.Walk.{cover_version_for}
use comic_stream.Scan.Prewarm.{
  prewarm_books, prewarm_book, prewarm_open, prewarm_pages, prewarm_page, prewarm_cover,
}
use comic_stream.Scan.Warm.{IsWarm, prewarm_books-IsWarm}
use comic_stream.RequestLog.{Header, log_request, log_request-secrets, log_request-IsPrintable}
use comic_stream.LogSafe.{IsPrintable}
use comic_stream.Tests.Library.{small_disk, lib_folder, gone_book, before}
use comic_stream.Tests.Pages.{plain_images, world}
use comic_stream.Tests.Like.{like, hits, any_suffix, like-IsLike}

abbrev pub refuses_no_query : Query → Option Text
refuses_no_query _ = none

abbrev pub packages : Packages
packages = record {
  rfc3339 = λ _. codes "1970";
  now = codes "2026";
  percent_encode = λ t. t;
  xxh3_64 = length;
  guess_mime = λ _. none;
  like = like;
}

cover_version_for-folder_cover_example :
    IsVersionOf function_headers packages before plain_images world small_disk 10
      (λ _. none)
      (cover_version_for small_disk (λ _. none) 10 1 none before).0
      (folder_cover function_headers packages
        (λ _. none)
        before
        plain_images
        world
        (codes "s")
        (λ _. none))
cover_version_for-folder_cover_example =
    cover_version_for-folder_cover function_headers packages before plain_images world small_disk 10
      (λ _. none) (codes "s") lib_folder refl (λ path e. absurd (cc e))

abbrev root_feed : Result (Response function_headers.HeaderMap)
root_feed = opds_folder function_headers packages refuses_no_query before (codes "s")

abbrev response_of :
    Result (Response function_headers.HeaderMap) → Response function_headers.HeaderMap
response_of (ok resp) = resp
response_of (err e) = feed_response function_headers packages refuses_no_query before [] []

search_result : run refuses_no_query before like (codes "ON") ≡ done ([], gone_book ∷ [])
unfolding run order_by to_like_pattern like hits any_suffix is_empty
search_result = refl

run-finds_example :
    IsFirst
      (λ f. f.name)
      (λ f. f.sort_key)
      50
      (λ f. like (to_like_pattern (codes "ON")) f.name)
      before.folders
      []
    × All (λ (f : Folder). IsFoundIn (codes "ON") f.name) []
    × IsFirst
        (λ b. b.name)
        (λ b. b.sort_key)
        100
        (λ b. like (to_like_pattern (codes "ON")) b.name)
        before.books
        (gone_book ∷ [])
    × All (λ b. IsFoundIn (codes "ON") b.name) (gone_book ∷ [])
unfolding is_empty
run-finds_example =
    run-finds refuses_no_query before like (codes "ON") [] (gone_book ∷ []) like-IsLike
      (refl, (refl, tt)) refl search_result

abbrev open_any : Text → Outside (ℕ → Outside (List ℕ × Text))
open_any path = done (λ n. done (codes "image", codes "image/png"))

abbrev save_any : List Text → List ℕ → Outside (Unit {0})
save_any path bytes = done tt

abbrev thin_book : Book
thin_book = record gone_book { page_count = 2 }

abbrev no_panic : Book → Files → Option Files
no_panic b files = none

covers_made :
    (let c =
        (prewarm_books plain_images save_any
          (codes "data" ∷ [])
          open_any
          300
          no_panic
          (thin_book ∷ [])
          (λ _. none)).0 in
      c.cov_g + c.cov_s)
    ≡ 1
unfolding prewarm_books prewarm_book prewarm_open prewarm_pages prewarm_page prewarm_cover
    ensure_thumbnail ensure_page_thumbnail write_resized resized cache_path page_thumb_path is_empty
covers_made = refl

pages_made :
    (prewarm_books plain_images save_any
      (codes "data" ∷ [])
      open_any
      300
      no_panic
      (thin_book ∷ [])
      (λ _. none)).0.pg_f
    ≡ 0
unfolding prewarm_books prewarm_book prewarm_open prewarm_pages prewarm_page prewarm_cover
    ensure_thumbnail ensure_page_thumbnail write_resized resized cache_path page_thumb_path is_empty
    show
pages_made = refl

prewarm_books-IsWarm_example :
    All
      (IsWarm plain_images save_any
        (codes "data" ∷ [])
        open_any
        300
        (prewarm_books plain_images save_any
          (codes "data" ∷ [])
          open_any
          300
          no_panic
          (thin_book ∷ [])
          (λ _. none)).1)
      (thin_book ∷ [])
prewarm_books-IsWarm_example =
    prewarm_books-IsWarm plain_images save_any (codes "data" ∷ []) open_any 300 no_panic
      (thin_book ∷ []) (λ _. none) covers_made pages_made

abbrev with_cookie : Text → List Header
with_cookie secret =
    record { name = codes "accept"; value = some (codes "*/*") }
    ∷ record { name = codes "cookie"; value = some secret }
    ∷ []

log_request-secrets_example :
    log_request (with_cookie (codes "a")) ≡ log_request (with_cookie (codes "b"))
log_request-secrets_example =
    log_request-secrets (with_cookie (codes "a")) (with_cookie (codes "b"))
      (refl, λ _. refl, (refl, λ e. absurd (true_not_false e.1.1.0), tt))

log_request-IsPrintable_example : All IsPrintable (log_request (with_cookie (10 ∷ [])))
log_request-IsPrintable_example = log_request-IsPrintable (with_cookie (10 ∷ [])) (
  (refl, (refl, (refl, (refl, (refl, (refl, tt)))))),
  ((refl, (refl, (refl, (refl, (refl, (refl, tt)))))), tt),
)
