-- ===== src/Archive/Listing.antt =====
-- src/archive/, `Cbz::open` and `Cbr::open`: which entries of an archive become pages.
use comic_stream.Common.{
  ℕ, ◌≡◌, refl, subst, Bool, true, false, ◌&&◌, not, Option, none, some, List, [], ◌∷◌, map,
  if◌then◌else◌, ltb, Bool-cases, Option-cases, inl, inr,
}
use mathlib.Core.List.{Perm}
use comic_stream.Text.{Text}
use comic_stream.Archive.Sorted.{sort_pages-Perm}
use comic_stream.Http.{Outside, done, failed}
use comic_stream.Archive.{
  PageEntry, Entry, max_page_bytes, ◌>>=◌, image_mime, list_pages, sort_pages, open_pages,
}

abbrev pub image_of : Entry → Option PageEntry
image_of e = if e.is_dir then none else elim (image_mime e.name) [
  | none ↦ none
  | some mime ↦ some (record { name = e.name; mime = mime })
]

abbrev add : Option PageEntry → List PageEntry → List PageEntry
add none ps = ps
add (some p) ps = p ∷ ps

-- The images among the entries, with their types.
abbrev pub images : List Entry → List PageEntry
images [] = []
images (e ∷ es) = add (image_of e) (images es)

abbrev allowed : Option PageEntry → ℕ → Bool
allowed none size = true
allowed (some _) size = not (ltb max_page_bytes size)

-- No image declares more than 64 MiB.
abbrev pub all_fit : List Entry → Bool
all_fit [] = true
all_fit (e ∷ es) = allowed (image_of e) e.size && all_fit es

-- What the loop comes to.
abbrev Lists : List PageEntry → Bool → Outside (List PageEntry) → Type 0
Lists ps true o = o ≡ done ps
Lists ps false o = (message : Text) × (o ≡ failed message)

Lists-cons :
    (p : PageEntry) (ps : List PageEntry) (b : Bool) (o : Outside (List PageEntry))
    → Lists ps b o
    → Lists (p ∷ ps) b (o >>= λ found. done (p ∷ found))
Lists-cons p ps true o h = rw h refl
Lists-cons p ps false o (m, h) = (m, rw h refl)

list_pages-Lists :
    (format : Text) (es : List Entry)
    → Lists (images es) (all_fit es) (list_pages format (map done es))
unfolding list_pages
list_pages-Lists format [] = refl
list_pages-Lists format (e ∷ es) = elim (Bool-cases e.is_dir) [
  | inl dir ↦ rw (all_fit, images, list_pages, dir) (list_pages-Lists format es)
  | inr file ↦ elim (Option-cases (image_mime e.name)) [
    | inl other ↦ rw (all_fit, images, list_pages, file, other) (list_pages-Lists format es)
    | inr (mime, image) ↦ elim (Bool-cases (ltb max_page_bytes e.size)) [
      | inl large ↦ rw (all_fit, images, list_pages, file, image, large) (_, refl)
      | inr fits ↦
          rw (all_fit, images, list_pages, file, image, fits)
            (Lists-cons (record { name = e.name; mime = mime }) (images es) (all_fit es) _
              (list_pages-Lists format es))
    ]
  ]
]

-- If every entry can be read, an archive is opened exactly if no image in it declares more than
-- 64 MiB, and its pages are then the images among its entries, each as often as it stands there.
pub open_pages-images :
    (format : Text) (es : List Entry)
    → (all_fit es ≡ true
        → (pages : List PageEntry) × (open_pages format (done (map done es)) ≡ done pages)
          × Perm pages (images es))
      × (all_fit es ≡ false
          → (message : Text) × (open_pages format (done (map done es)) ≡ failed message))
unfolding open_pages
open_pages-images format es = (
  λ h.
      let listed =
        subst (λ b. Lists (images es) b (list_pages format (map done es))) h
          (list_pages-Lists format es) in
      (sort_pages (images es), rw (open_pages, listed) refl, sort_pages-Perm (images es)),
  λ h.
      let (m, f) =
        subst (λ b. Lists (images es) b (list_pages format (map done es))) h
          (list_pages-Lists format es) in
      (m, rw (open_pages, f) refl),
)
