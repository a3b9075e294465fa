-- ===== src/Archive/Pages.antt =====
-- src/archive/: the pages that an archive offers and what reading one answers.
use comic_stream.Common.{
  ℕ, sym, length-take, take_of_length-le, ◌+◌, ◌≤◌, ◌≡◌, refl, ◌∙◌, ap, subst, some, List, [], ◌∷◌,
  length, take, get_elem?, arith, Bool-cases, Option-cases, inl, inr, ltb, if◌then◌else◌,
}
use comic_stream.Text.{Text}
use comic_stream.Http.{Outside, done, failed}
use comic_stream.Archive.{
  PageEntry, Header, max_page_bytes, page_at, read_zip_page, read_rar_page, find_header,
}
use comic_stream.Archive.Sorted.{Outside-cases, failed_not_done, done_injective}

-- The bytes of a page are within the limit, and it is a page that the archive listed, with its type.
abbrev pub IsPageOf : List PageEntry → ℕ → List ℕ × Text → Type 0
IsPageOf pages index page =
    (length page.0 ≤ max_page_bytes)
    × ((entry : PageEntry) × (get_elem? pages index ≡ some entry) × (page.1 ≡ entry.mime))

bounded :
    (m : Text) (buf : List ℕ) (mime : Text) (page : List ℕ × Text)
    → (if ltb max_page_bytes (length buf) then failed m else done (buf, mime)) ≡ done page
    → (length page.0 ≤ max_page_bytes) × (page.1 ≡ mime)
bounded m buf mime page e = elim (Bool-cases (ltb max_page_bytes (length buf))) [
  | inl large ↦ absurd (failed_not_done (rw large at e))
  | inr small ↦
      let same = done_injective (rw small at e) in
      subst (λ q. (length q.0 ≤ max_page_bytes) × (q.1 ≡ mime)) same (ground arith, refl)
]

-- A page of a zip that is read: besides, its bytes are all those of the entry of that name.
abbrev pub IsZipPageOf : List PageEntry → (Text → Outside (List ℕ)) → ℕ → List ℕ × Text → Type 0
IsZipPageOf pages by_name index page =
    (length page.0 ≤ max_page_bytes)
    × ((entry : PageEntry) × (get_elem? pages index ≡ some entry)
        × (page.1 ≡ entry.mime)
        × (by_name entry.name ≡ done page.0))

-- A reader that stops one byte past the limit has read everything if it stays within the limit.
take_whole : (s : List ℕ) (k n : ℕ) → k ≡ n + 1 → length (take k s) ≤ n → take k s ≡ s
take_whole s k n e h = take_of_length-le k s (omega (arith, length-take k s))

-- What the bound lets through is the whole of what was there.
bounded_whole :
    (m : Text) (stream : List ℕ) (n : ℕ) (mime : Text) (page : List ℕ × Text)
    → (if ltb n (length (take (n + 1) stream)) then failed m else done (take (n + 1) stream, mime))
      ≡ done page
    → stream ≡ page.0
bounded_whole m stream n mime page e = elim (Bool-cases (ltb n (length (take (n + 1) stream)))) [
  | inl large ↦ absurd (failed_not_done (rw large at e))
  | inr small ↦
      sym (take_whole stream (n + 1) n refl (ground (arith, small)))
      ∙ ap (λ q. q.0) (done_injective (rw small at e))
]

page_at-done :
    (pages : List PageEntry) (index : ℕ) (entry : PageEntry)
    → page_at pages index ≡ done entry
    → get_elem? pages index ≡ some entry
unfolding page_at
page_at-done pages index entry e = elim (Option-cases (get_elem? pages index)) [
  | inl outside ↦ absurd (failed_not_done (rw (page_at, outside) at e))
  | inr (a, found) ↦ found ∙ ap some (done_injective (rw (page_at, found) at e))
]

-- Whatever the zip reader answers: a page that is read is one of those listed, its bytes are all
-- those that the reader has under that entry's name, at most 64 MiB, and its type is the one found
-- when it was listed.
pub read_zip_page-IsZipPageOf :
    (pages : List PageEntry) (by_name : Text → Outside (List ℕ)) (index : ℕ) (page : List ℕ × Text)
    → read_zip_page pages by_name index ≡ done page
    → IsZipPageOf pages by_name index page
unfolding read_zip_page
read_zip_page-IsZipPageOf pages by_name index page e = elim (Outside-cases (page_at pages index)) [
  | inl (m, outside) ↦ absurd (failed_not_done (rw (read_zip_page, outside) at e))
  | inr (entry, found) ↦ elim (Outside-cases (by_name entry.name)) [
    | inl (message, f) ↦ absurd (failed_not_done (rw (read_zip_page, found, f) at e))
    | inr (stream, f) ↦
        let answer = rw (read_zip_page, found, f) at e in
        let (small, same) = bounded _ (take (max_page_bytes + 1) stream) entry.mime page answer in
        (
          small,
          (
            entry,
            page_at-done pages index entry found,
            same,
            f ∙ ap done (bounded_whole _ stream max_page_bytes entry.mime page answer),
          ),
        )
  ]
]

find_header-bounded :
    (entry : PageEntry) (headers : List (Outside Header)) (page : List ℕ × Text)
    → find_header entry headers ≡ done page
    → (length page.0 ≤ max_page_bytes) × (page.1 ≡ entry.mime)
unfolding find_header
find_header-bounded entry [] page e = absurd (failed_not_done e)
find_header-bounded entry (failed message ∷ rest) page e = absurd (failed_not_done e)
find_header-bounded entry (done h ∷ rest) page e = elim (Bool-cases (h.is_named entry.name)) [
  | inl this ↦ elim (Bool-cases (ltb max_page_bytes h.unpacked_size)) [
    | inl large ↦ absurd (failed_not_done (rw (find_header, this, large) at e))
    | inr fits ↦ elim (Outside-cases h.read) [
      | inl (message, f) ↦ absurd (failed_not_done (rw (find_header, this, fits, f) at e))
      | inr (bytes, f) ↦ bounded _ bytes entry.mime page (rw (find_header, this, fits, f) at e)
    ]
  ]
  | inr other ↦ elim (Outside-cases h.skip) [
    | inl (message, f) ↦ absurd (failed_not_done (rw (find_header, other, f) at e))
    | inr (u, f) ↦ find_header-bounded entry rest page (rw (find_header, other, f) at e)
  ]
]

-- Whatever the rar reader answers: a page that is read is one of those listed, has the type found
-- then, and at most 64 MiB.
pub read_rar_page-IsPageOf :
    (pages : List PageEntry) (opened : Outside (List (Outside Header))) (index : ℕ)
    (page : List ℕ × Text)
    → read_rar_page pages opened index ≡ done page
    → IsPageOf pages index page
unfolding read_rar_page
read_rar_page-IsPageOf pages opened index page e = elim (Outside-cases (page_at pages index)) [
  | inl (m, outside) ↦ absurd (failed_not_done (rw (read_rar_page, outside) at e))
  | inr (entry, found) ↦ elim (Outside-cases opened) [
    | inl (message, f) ↦ absurd (failed_not_done (rw (read_rar_page, found, f) at e))
    | inr (headers, f) ↦
        let (small, same) =
          find_header-bounded entry headers page (rw (read_rar_page, found, f) at e) in
        (small, (entry, page_at-done pages index entry found, same))
  ]
]
