-- ===== src/Tests/Paths.antt =====
-- A book's file from a library beside files that are none of its.
use comic_stream.Common.{
  ◌≡◌, refl, true, some, none, List, [], ◌∷◌, ◌++◌, ℕ, if◌then◌else◌, list_eq_refl,
}
use comic_stream.Text.{Text, codes}
use comic_stream.Http.{Outside, done, failed}
use comic_stream.Http.Instance.{function_headers}
use comic_stream.Books.{book_file}
use comic_stream.SafePath.{components, begins, IsBelow, at_root, with_files, book_file-contained}
use comic_stream.Tests.Pages.{plain_images, world}

begins_itself : (root rest : List Text) → begins (root ++ rest) root ≡ true
begins_itself [] rest = refl
begins_itself (c ∷ root) rest = rw (begins, list_eq_refl c, begins_itself root rest) refl

-- A disk that has files below the library's root alone.
abbrev library_only : Text → Outside (List ℕ)
library_only path =
    if begins (components path) (components (codes "/lib"))
    then done (codes "PK")
    else failed (codes "No such file")

library_agrees : (path : Text) → IsBelow (codes "/lib") path → done (codes "PK") ≡ library_only path
library_agrees path (rest, e) =
    rw (library_only, e, begins_itself (components (codes "/lib")) rest) refl

book_file-contained_example :
    book_file function_headers plain_images
      (at_root function_headers plain_images (λ p. some p) (codes "/lib") world)
      (codes "ab")
      none
    ≡ book_file function_headers plain_images
        (with_files function_headers plain_images (λ p. some p) (codes "/lib") world library_only)
        (codes "ab")
        none
book_file-contained_example =
    book_file-contained function_headers plain_images (λ p. some p) (codes "/lib") world
      library_only (codes "ab") none library_agrees
