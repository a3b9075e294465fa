-- ===== src/Scan/Made.antt =====
-- src/scan.rs, `prewarm`: what making a thumbnail does to the files of the cache.
use comic_stream.Common.{
  ℕ, suc, ◌≡◌, refl, sym, subst, Bool, true, false, List, [], ◌∷◌, arith, Bool-cases, Option-cases,
  inl, inr, All,
}
use comic_stream.Text.{Text}
use comic_stream.Http.{Outside, done, failed}
use comic_stream.Archive.Sorted.{Outside-cases, failed_not_done, done_injective}
use comic_stream.Books.Again.{path_eq_refl}
use comic_stream.Thumb.{cache_path, page_thumb_path}
use comic_stream.Thumb.Files.{
  ImageLib, Files, path_eq, put_file, resized, write_resized, ensure, ensure_thumbnail,
  ensure_page_thumbnail,
}
use comic_stream.Scan.Prewarm.{exists, made, prewarm_cover, prewarm_page, prewarm_pages}

-- A file that is there stays there.
abbrev pub Keeps : Files → Files → Type 0
Keeps files files' = (path : List Text) → exists files path ≡ true → exists files' path ≡ true

put_file-Keeps :
    (out : List Text) (bytes : List ℕ) (files : Files) → Keeps files (put_file out bytes files)
put_file-Keeps out bytes files path e = elim (Bool-cases (path_eq path out)) [
  | inl here ↦ rw (exists, here) refl
  | inr other ↦ rw (exists, other) e
]

module _ (images : ImageLib) (save : List Text → List ℕ → Outside (Unit {0})) (data_dir : List Text)
    (open_at : Text → Outside (ℕ → Outside (List ℕ × Text))) (width : ℕ) where
  write_resized-Keeps :
      (out : List Text) (bytes : List ℕ) (w : ℕ) (files files' : Files)
      → write_resized images save out bytes w files ≡ done files'
      → Keeps files files' × (exists files' out ≡ true)
  unfolding write_resized
  write_resized-Keeps out bytes w files files' e =
      elim (Outside-cases (resized images save bytes w)) [
        | inl (m, bad) ↦ absurd (failed_not_done (rw (write_resized, bad) at e))
        | inr (jpeg, good) ↦ elim (Outside-cases (save out jpeg)) [
          | inl (m, unsaved) ↦ absurd (failed_not_done (rw (write_resized, good, unsaved) at e))
          | inr (u, saved) ↦
              let same : put_file out jpeg files ≡ files' =
                done_injective (rw (write_resized, good, saved) at e) in
              subst (λ fs. Keeps files fs × (exists fs out ≡ true)) same
                (put_file-Keeps out jpeg files, rw (exists, path_eq_refl out) refl)
        ]
      ]

  ensure-Keeps :
      (out : List Text) (bytes : List ℕ) (w : ℕ) (files files' : Files)
      → ensure images save out bytes w files ≡ done files'
      → Keeps files files' × (exists files' out ≡ true)
  ensure-Keeps out bytes w files files' e = elim (Option-cases (files out)) [
    | inl absent ↦ write_resized-Keeps out bytes w files files' (rw (ensure, absent) at e)
    | inr (jpeg, there) ↦
        let same : files ≡ files' = done_injective (rw (ensure, there) at e) in
        subst (λ fs. Keeps files fs × (exists fs out ≡ true)) same
          (λ path h. h, rw (exists, there) refl)
  ]

  -- What is made keeps the files and is there.
  unfoldable pub Made : List Text → Files → Bool × Files → Type 0
  Made out files r = Keeps files r.1 × (r.0 ≡ true → exists r.1 out ≡ true)

  made-Made :
      (out : List Text) (files : Files) (o : Outside Files)
      → ((files' : Files) → o ≡ done files' → Keeps files files' × (exists files' out ≡ true))
      → Made out files (made images save data_dir open_at width files o)
  unfolding Made
  made-Made out files (failed m) h = (λ path k. k, λ e. absurd (cc e))
  made-Made out files (done files') h = ((h files' refl).0, λ _. (h files' refl).1)

  pub cover-Made :
      (arch : ℕ → Outside (List ℕ × Text)) (hash : Text) (files : Files)
      → Made
          (cache_path data_dir hash)
          files
          (prewarm_cover images save data_dir open_at width arch hash files)
  unfolding prewarm_cover ensure_thumbnail Made
  cover-Made arch hash files = elim (Outside-cases (arch 0)) [
    | inl (m, unread) ↦ rw (prewarm_cover, unread) (λ path k. k, λ e. absurd (cc e))
    | inr ((bytes, mime), page) ↦
        rw (prewarm_cover, page)
          (made-Made (cache_path data_dir hash) files
            (ensure_thumbnail images save data_dir hash bytes files)
            (ensure-Keeps (cache_path data_dir hash) bytes 400 files))
  ]

  page-Made :
      (arch : ℕ → Outside (List ℕ × Text)) (hash : Text) (n : ℕ) (files : Files)
      → Made
          (page_thumb_path data_dir hash n width)
          files
          (prewarm_page images save data_dir open_at width arch hash n files)
  unfolding prewarm_page ensure_page_thumbnail Made
  page-Made arch hash n files = elim (Outside-cases (arch n)) [
    | inl (m, unread) ↦ rw (prewarm_page, unread) (λ path k. k, λ e. absurd (cc e))
    | inr ((bytes, mime), page) ↦
        rw (prewarm_page, page)
          (made-Made (page_thumb_path data_dir hash n width) files
            (ensure_page_thumbnail images save data_dir hash n width bytes files)
            (ensure-Keeps (page_thumb_path data_dir hash n width) bytes width files))
  ]

  -- The thumbnails of some pages are there.
  abbrev pub Paged : Text → List ℕ → Files → Type 0
  Paged hash ns files = All (λ n. exists files (page_thumb_path data_dir hash n width) ≡ true) ns

  pub Paged-Keeps :
      (hash : Text) (ns : List ℕ) (files files' : Files)
      → Keeps files files'
      → Paged hash ns files
      → Paged hash ns files'
  Paged-Keeps hash [] files files' k h = tt
  Paged-Keeps hash (n ∷ ns) files files' k h =
      (k (page_thumb_path data_dir hash n width) h.0, Paged-Keeps hash ns files files' k h.1)

  abbrev pages_of : (ℕ → Outside (List ℕ × Text)) → Text → List ℕ → Files → ℕ × ℕ × Files
  pages_of = prewarm_pages images save data_dir open_at width

  step_done :
      (arch : ℕ → Outside (List ℕ × Text)) (hash : Text) (n : ℕ) (ns : List ℕ) (files : Files)
      → (prewarm_page images save data_dir open_at width arch hash n files).0 ≡ true
      → let rest =
          pages_of arch hash ns
            (prewarm_page images save data_dir open_at width arch hash n files).1 in
        pages_of arch hash (n ∷ ns) files ≡ (suc rest.0, rest.1, rest.2)
  unfolding prewarm_pages
  step_done arch hash n ns files e = rw (prewarm_pages, e) refl

  step_failed :
      (arch : ℕ → Outside (List ℕ × Text)) (hash : Text) (n : ℕ) (ns : List ℕ) (files : Files)
      → (prewarm_page images save data_dir open_at width arch hash n files).0 ≡ false
      → let rest =
          pages_of arch hash ns
            (prewarm_page images save data_dir open_at width arch hash n files).1 in
        pages_of arch hash (n ∷ ns) files ≡ (rest.0, suc rest.1, rest.2)
  unfolding prewarm_pages
  step_failed arch hash n ns files e = rw (prewarm_pages, e) refl

  pub pages-Made :
      (arch : ℕ → Outside (List ℕ × Text)) (hash : Text) (ns : List ℕ) (files : Files)
      → let r = prewarm_pages images save data_dir open_at width arch hash ns files in
        Keeps files r.2 × (r.1 ≡ 0 → Paged hash ns r.2)
  unfolding prewarm_pages Made
  pages-Made arch hash [] files = (λ path k. k, λ _. tt)
  pages-Made arch hash (n ∷ ns) files =
      let page = prewarm_page images save data_dir open_at width arch hash n files in
      let first = page-Made arch hash n files in
      let rest = pages-Made arch hash ns page.1 in
      elim (Bool-cases page.0) [
        | inl done_page ↦
            subst (λ r. Keeps files r.2 × (r.1 ≡ 0 → Paged hash (n ∷ ns) r.2))
              (sym (step_done arch hash n ns files done_page))
              (
                λ path k. rest.0 path (first.0 path k),
                λ none_failed. (
                  rest.0 (page_thumb_path data_dir hash n width) (first.1 done_page),
                  rest.1 none_failed,
                ),
              )
        | inr failed_page ↦
            subst (λ r. Keeps files r.2 × (r.1 ≡ 0 → Paged hash (n ∷ ns) r.2))
              (sym (step_failed arch hash n ns files failed_page))
              (λ path k. rest.0 path (first.0 path k), λ e. absurd (omega (arith, e)))
      ]
