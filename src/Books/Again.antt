-- ===== src/Books/Again.antt =====
-- src/routes.rs, `book_page`: which page is served, and the same request made again.
use comic_stream.Common.{
  ℕ, suc, ◌≡◌, refl, ◌∙◌, ap, subst, Bool, true, false, some, List, [], ◌∷◌, Option-cases, inl, inr,
  ◌⊎◌, list_eq_refl,
}
use comic_stream.Text.{Text, codes}
use comic_stream.Http.{
  HeaderLib, Request, Response, AppError, Result, ok, err, ◌>>=◌, Outside, done, failed,
  or_internal,
}
use comic_stream.Models.{Book}
use comic_stream.Range.{serve_file}
use comic_stream.Prefer.{parse_thumbnail_pref}
use comic_stream.Thumb.{snap_width, page_thumb_path}
use comic_stream.Thumb.Files.{
  ImageLib, Files, ensure, path_eq, put_file, resized, write_resized, ensure_page_thumbnail,
}
use comic_stream.Archive.Sorted.{Outside-cases, failed_not_done, done_injective}
use comic_stream.Books.{
  ℤ, pos, page_index, World, unless_cached, cached_file, lookup_book, open_archive,
  make_page_thumbnail, page_thumbnail, page_served, full_page, book_page, vary_on_prefer,
}

-- The page that a client means: counted from 1 or from 0.
abbrev pub named_page : Bool → ℕ → ℤ
named_page true i = pos (suc i)
named_page false i = pos i

Result-cases {ℓ} :
    {A : Type ℓ} (r : Result A) → ((e : AppError) × (r ≡ err e)) ⊎ ((a : A) × (r ≡ ok a))
Result-cases (err e) = inl (e, refl)
Result-cases (ok a) = inr (a, refl)

pub err_not_ok {ℓ} : {A : Type ℓ} {e : AppError} {a : A} → err e ≡ ok a → ⊥
err_not_ok h = cc

pub ok_injective {ℓ} : {A : Type ℓ} {a b : A} → ok a ≡ ok b → a ≡ b
ok_injective h = cc

pub path_eq_refl : (path : List Text) → path_eq path path ≡ true
path_eq_refl [] = refl
path_eq_refl (c ∷ cs) = rw (list_eq_refl c, path_eq_refl cs) refl

put_file-here :
    (path : List Text) (bytes : List ℕ) (files : Files)
    → put_file path bytes files path ≡ some bytes
put_file-here path bytes files = rw (path_eq_refl path) refl

pub bind-ok {ℓ} :
    {A B : Type ℓ} (r : Result A) (f : A → Result B) (b : B)
    → (r >>= f) ≡ ok b
    → (a : A) × (r ≡ ok a) × (f a ≡ ok b)
bind-ok (ok a) f b e = (a, refl, e)
bind-ok (err x) f b e = absurd (err_not_ok e)

pub or_internal-ok {ℓ} : {A : Type ℓ} (o : Outside A) (a : A) → or_internal o ≡ ok a → o ≡ done a
or_internal-ok (done b) a e = ap done (ok_injective e)
or_internal-ok (failed m) a e = absurd (err_not_ok e)

module _ (lib : HeaderLib) (images : ImageLib) (w : World) where
  write_resized-here :
      (out : List Text) (source_bytes : List ℕ) (width : ℕ) (files files' : Files)
      → write_resized images w.save out source_bytes width files ≡ done files'
      → (bytes : List ℕ) × (files' out ≡ some bytes)
  unfolding write_resized
  write_resized-here out source_bytes width files files' e =
      elim (Outside-cases (resized images w.save source_bytes width)) [
        | inl (m, f) ↦ absurd (failed_not_done (rw (write_resized, f) at e))
        | inr (bytes, f) ↦ elim (Outside-cases (w.save out bytes)) [
          | inl (m, g) ↦ absurd (failed_not_done (rw (write_resized, f, g) at e))
          | inr (u, g) ↦
              let same : put_file out bytes files ≡ files' =
                done_injective (rw (write_resized, f, g) at e) in
              (bytes, subst (λ fs. fs out ≡ some bytes) same (put_file-here out bytes files))
        ]
      ]

  ensure-here :
      (out : List Text) (source_bytes : List ℕ) (width : ℕ) (files files' : Files)
      → ensure images w.save out source_bytes width files ≡ done files'
      → (bytes : List ℕ) × (files' out ≡ some bytes)
  ensure-here out source_bytes width files files' e = elim (Option-cases (files out)) [
    | inl absent ↦ write_resized-here out source_bytes width files files' (rw (ensure, absent) at e)
    | inr (bytes, there) ↦
        let same : files ≡ files' = done_injective (rw (ensure, there) at e) in
        (bytes, subst (λ fs. fs out ≡ some bytes) same there)
  ]

  make_page_thumbnail-here :
      (book : Book) (hash : Text) (idx width : ℕ) (files files' : Files)
      → make_page_thumbnail lib images w book hash idx width files ≡ ok files'
      → (bytes : List ℕ) × (files' (page_thumb_path w.data_dir hash idx width) ≡ some bytes)
  unfolding make_page_thumbnail
  make_page_thumbnail-here book hash idx width files files' e =
      let (arch, _, rest) = bind-ok (open_archive lib images w hash book.path) _ files' e in
      let (page, _, last) = bind-ok (or_internal (arch idx)) _ files' rest in
      let made : ensure_page_thumbnail images w.save w.data_dir hash idx width page.0 files
          ≡ done files' =
        or_internal-ok _ files' last in
      ensure-here (page_thumb_path w.data_dir hash idx width) page.0 width files files'
        (unfold ensure_page_thumbnail in made)

  cached_again :
      (cached : List Text) (make other : Result Files) (files fs : Files)
      → ((made : Files) → make ≡ ok made → (bytes : List ℕ) × (made cached ≡ some bytes))
      → unless_cached cached make files ≡ ok fs
      → unless_cached cached other fs ≡ ok fs
  cached_again cached make other files fs h e = elim (Option-cases (files cached)) [
    | inl absent ↦
        let (bytes, there) = h fs (rw (unless_cached, absent) at e) in
        rw (unless_cached, there) refl
    | inr (bytes, there) ↦
        let same : files ≡ fs = ok_injective (rw (unless_cached, there) at e) in
        let found : fs cached ≡ some bytes = subst (λ x. x cached ≡ some bytes) same there in
        rw (unless_cached, found) refl
  ]

  page_thumbnail-again :
      (book : Book) (hash : Text) (idx wanted : ℕ) (files files' : Files)
      (resp : Response lib.HeaderMap)
      → page_thumbnail lib images w book hash idx wanted files ≡ ok (resp, files')
      → page_thumbnail lib images w book hash idx wanted files' ≡ ok (resp, files')
  unfolding page_thumbnail page_served
  page_thumbnail-again book hash idx wanted files files' resp e =
      let width = snap_width wanted in
      let cached = page_thumb_path w.data_dir hash idx width in
      let finish : Files → Result (Response lib.HeaderMap × Files) =
        page_served lib images w cached in
      let (fs, first, rest) =
        bind-ok
          (unless_cached cached (make_page_thumbnail lib images w book hash idx width files) files)
          finish (resp, files') e in
      let (resp', _, last) =
        bind-ok (serve_file lib (cached_file fs cached) (codes "image/jpeg"))
          (λ r. ok (vary_on_prefer lib images w r, fs)) (resp, files') rest in
      let same : fs ≡ files' = ap (λ p. p.1) (ok_injective last) in
      subst (λ x. page_thumbnail lib images w book hash idx wanted x ≡ ok (resp, files')) same
        (ap (λ r. r >>= finish)
            (cached_again cached (make_page_thumbnail lib images w book hash idx width files)
              (make_page_thumbnail lib images w book hash idx width fs) files fs
              (λ made. make_page_thumbnail-here book hash idx width files made) first)
          ∙ rest)

  full_page-again :
      (book : Book) (hash : Text) (idx : ℕ) (files files' : Files) (resp : Response lib.HeaderMap)
      → full_page lib images w book hash idx files ≡ ok (resp, files')
      → full_page lib images w book hash idx files' ≡ ok (resp, files')
  unfolding full_page
  full_page-again book hash idx files files' resp e =
      let (arch, _, rest) = bind-ok (open_archive lib images w hash book.path) _ (resp, files') e in
      let (page, _, last) = bind-ok (or_internal (arch idx)) _ (resp, files') rest in
      subst (λ x. full_page lib images w book hash idx x ≡ ok (resp, files'))
        (ap (λ p. p.1) (ok_injective last)) e

  -- A request for a page that is answered, made again with the library as it was, gets the same
  -- answer and leaves the files of the cache as they are.
  pub book_page-again :
      (hash : Text) (n : ℤ) (one_based : Bool) (req : Request) (files files' : Files)
      (resp : Response lib.HeaderMap)
      → book_page lib images w hash n one_based req files ≡ ok (resp, files')
      → book_page lib images w hash n one_based req files' ≡ ok (resp, files')
  unfolding book_page
  book_page-again hash n one_based req files files' resp e =
      let (book, found, rest) = bind-ok (lookup_book lib images w hash) _ (resp, files') e in
      let (idx, index, last) =
        bind-ok (page_index one_based n book.page_count) _ (resp, files') rest in
      elim (Option-cases (parse_thumbnail_pref req w.page_thumb_default_width)) [
        | inl plain ↦
            rw (book_page, found, index, plain)
              (full_page-again book hash idx files files' resp (rw plain at last))
        | inr (wanted, preferred) ↦
            rw (book_page, found, index, preferred)
              (page_thumbnail-again book hash idx wanted files files' resp (rw preferred at last))
      ]
