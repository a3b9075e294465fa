-- ===== src/Scan/Warm.antt =====
-- src/scan.rs, `prewarm`: the thumbnails that are there when nothing has failed.
use comic_stream.Common.{
  ℕ, suc, ◌+◌, ◌-◌, ◌≡◌, ◌≤◌, refl, sym, subst, Bool, true, false, ◌&&◌, not, Option, none, some,
  List, [], ◌∷◌, length, arith, Bool-cases, inl, inr, All,
}
use comic_stream.Text.{Text, is_empty}
use comic_stream.Http.{Outside, done, failed}
use comic_stream.Archive.Sorted.{Outside-cases}
use comic_stream.Models.{Book}
use comic_stream.Thumb.{cache_path, page_thumb_path}
use comic_stream.Thumb.Files.{ImageLib, Files}
use comic_stream.Db.{filter}
use comic_stream.Scan.Prewarm.{
  Counts, no_counts, below, exists, one_if, prewarm_cover, pages_needed, prewarm_open, prewarm_book,
  prewarm_books, joined,
}
use comic_stream.Scan.Counts.{is_empty-length, cover_counted, joined-AtMost, prewarm_books-Accounts}
use comic_stream.Scan.Made.{Keeps, Made, cover-Made, Paged, Paged-Keeps, pages-Made}

module _ (images : ImageLib) (save : List Text → List ℕ → Outside (Unit {0})) (data_dir : List Text)
    (open_at : Text → Outside (ℕ → Outside (List ℕ × Text))) (width : ℕ) where
  -- The pages that were there and those that are made are all.
  all-Paged :
      (hash : Text) (ns : List ℕ) (files files' : Files)
      → Keeps files files'
      → Paged images save data_dir open_at width hash
          (filter (λ n. not (exists files (page_thumb_path data_dir hash n width))) ns)
          files'
      → Paged images save data_dir open_at width hash ns files'
  all-Paged hash [] files files' k h = tt
  all-Paged hash (n ∷ ns) files files' k h =
      elim (Bool-cases (exists files (page_thumb_path data_dir hash n width))) [
        | inl there ↦ (
          k (page_thumb_path data_dir hash n width) there,
          all-Paged hash ns files files' k (rw (filter, there) at h),
        )
        | inr absent ↦
            let both = rw (filter, absent) at h in (both.0, all-Paged hash ns files files' k both.1)
      ]

  none-Paged :
      (hash : Text) (ns : List ℕ) (files : Files)
      → length ns ≡ 0
      → Paged images save data_dir open_at width hash ns files
  none-Paged hash [] files e = tt
  none-Paged hash (n ∷ ns) files e = absurd (omega (arith, e))

  -- The cover and all pages of a book have their thumbnails.
  abbrev pub IsWarm : Files → Book → Type 0
  IsWarm files b =
      (exists files (cache_path data_dir b.hash) ≡ true)
      × Paged images save data_dir open_at width b.hash (below b.page_count) files

  Warms : Book → Files → Counts × Files → Type 0
  Warms b files r = Keeps files r.1 × (r.0.cov_f ≡ 0 → r.0.pg_f ≡ 0 → IsWarm r.1 b)

  no_failure : (cached : Bool) → one_if (not cached) ≡ 0 → cached ≡ true
  no_failure true e = refl
  no_failure false e = absurd (omega (arith, e))

  abbrev needed_of : Book → Files → List ℕ
  needed_of b files = pages_needed images save data_dir open_at width b.hash b.page_count files

  open-Warms :
      (arch : ℕ → Outside (List ℕ × Text)) (b : Book) (files : Files) (skipped : ℕ) (cached : Bool)
      → exists files (cache_path data_dir b.hash) ≡ cached
      → Warms b files (
          prewarm_open images save data_dir open_at width arch b.hash cached
            (needed_of b files)
            skipped
            files)
  unfolding prewarm_open Warms Made
  open-Warms arch b files skipped true there =
      let pages =
        pages-Made images save data_dir open_at width arch b.hash (needed_of b files) files in
      (
        pages.0,
        λ _ none_failed. (
          pages.0 (cache_path data_dir b.hash) there,
          all-Paged b.hash (below b.page_count) files _ pages.0 (pages.1 none_failed),
        ),
      )
  open-Warms arch b files skipped false there =
      let cover = prewarm_cover images save data_dir open_at width arch b.hash files in
      let covered = cover-Made images save data_dir open_at width arch b.hash files in
      let pages =
        pages-Made images save data_dir open_at width arch b.hash (needed_of b files) cover.1 in
      let keeps : Keeps files _ = λ path k. pages.0 path (covered.0 path k) in
      (
        keeps,
        λ none_failed no_page_failed. (
          pages.0 (cache_path data_dir b.hash) (covered.1 (no_failure cover.0 none_failed)),
          all-Paged b.hash (below b.page_count) files _ keeps (pages.1 no_page_failed),
        ),
      )

  skipped_of : Book → Files → ℕ
  skipped_of b files = b.page_count - length (needed_of b files)

  book_warm :
      (b : Book) (files : Files)
      → (exists files (cache_path data_dir b.hash) && is_empty (needed_of b files)) ≡ true
      → prewarm_book images save data_dir open_at width b files
        ≡ (record no_counts { cov_s = 1; pg_s = skipped_of b files }, files)
  unfolding prewarm_book skipped_of
  book_warm b files e = rw (prewarm_book, e) refl

  book_unopened :
      (b : Book) (files : Files) (m : Text)
      → (exists files (cache_path data_dir b.hash) && is_empty (needed_of b files)) ≡ false
      → open_at b.path ≡ failed m
      → let cached = exists files (cache_path data_dir b.hash) in
        prewarm_book images save data_dir open_at width b files ≡ (
          record {
            cov_g = 0;
            cov_s = one_if cached;
            cov_f = one_if (not cached);
            pg_g = 0;
            pg_s = skipped_of b files;
            pg_f = length (needed_of b files);
          },
          files,
        )
  unfolding prewarm_book skipped_of
  book_unopened b files m e unopened = rw (prewarm_book, e, unopened) refl

  book_opened :
      (b : Book) (files : Files) (arch : ℕ → Outside (List ℕ × Text))
      → (exists files (cache_path data_dir b.hash) && is_empty (needed_of b files)) ≡ false
      → open_at b.path ≡ done arch
      → prewarm_book images save data_dir open_at width b files
        ≡ prewarm_open images save data_dir open_at width arch b.hash
            (exists files (cache_path data_dir b.hash))
            (needed_of b files)
            (skipped_of b files)
            files
  unfolding prewarm_book skipped_of
  book_opened b files arch e opened = rw (prewarm_book, e, opened) refl

  prewarm_book-Warms :
      (b : Book) (files : Files)
      → Warms b files (prewarm_book images save data_dir open_at width b files)
  unfolding Warms
  prewarm_book-Warms b files =
      let cached = exists files (cache_path data_dir b.hash) in
      elim (Bool-cases (cached && is_empty (needed_of b files))) [
        | inl nothing ↦ subst (Warms b files) (sym (book_warm b files nothing)) (
          λ path k. k,
          λ _ _. (
            and_left cached (is_empty (needed_of b files)) nothing,
            all-Paged b.hash (below b.page_count) files files (λ path k. k)
                (none-Paged b.hash (needed_of b files) files (
                  is_empty-length (needed_of b files)
                    (and_right cached (is_empty (needed_of b files)) nothing))),
          ),
        )
        | inr some_left ↦ elim (Outside-cases (open_at b.path)) [
          | inl (m, unopened) ↦
              subst (Warms b files) (sym (book_unopened b files m some_left unopened)) (
                λ path k. k,
                λ cover_there none_left. (
                  no_failure cached cover_there,
                  all-Paged b.hash (below b.page_count) files files (λ path k. k)
                      (none-Paged b.hash (needed_of b files) files none_left),
                ),
              )
          | inr (arch, opened) ↦
              subst (Warms b files) (sym (book_opened b files arch some_left opened))
                (open-Warms arch b files (skipped_of b files) cached refl)
        ]
      ]
    where
      and_left : (a b : Bool) → (a && b) ≡ true → a ≡ true
      and_left a b h = ground (arith, h)

      and_right : (a b : Bool) → (a && b) ≡ true → b ≡ true
      and_right a b h = ground (arith, h)

  IsWarm-Keeps :
      (b : Book) (files files' : Files) → Keeps files files' → IsWarm files b → IsWarm files' b
  IsWarm-Keeps b files files' k w = (
    k (cache_path data_dir b.hash) w.0,
    Paged-Keeps images save data_dir open_at width b.hash (below b.page_count) files files' k w.1,
  )

  one_cover : (g s f : ℕ) → g + s + f ≡ 1 → g + s ≡ 1 → f ≡ 0
  one_cover g s f e h = omega (arith, e, h)

  -- A task whose cover is counted as generated or skipped did not panic.
  joined-Warm :
      (b : Book) (files : Files) (panicked : Option Files)
      → let r =
          joined images save data_dir open_at width panicked
            (prewarm_book images save data_dir open_at width b files) in
        r.0.cov_g + r.0.cov_s ≡ 1 → r.0.pg_f ≡ 0 → Keeps files r.1 × IsWarm r.1 b
  unfolding Warms
  joined-Warm b files none cover pages =
      let c = (prewarm_book images save data_dir open_at width b files).0 in
      let one = prewarm_book-Warms b files in
      let counted = cover_counted images save data_dir open_at width b files in
      (one.0, one.1 (one_cover c.cov_g c.cov_s c.cov_f counted cover) pages)
  joined-Warm b files (some files') cover pages = absurd (omega (arith, cover))

  all_covers :
      (g s f g' s' f' n : ℕ)
      → g + s + f ≤ 1
      → g' + s' + f' ≤ n
      → (g + g') + (s + s') ≡ suc n
      → (g + s ≡ 1) × (g' + s' ≡ n)
  all_covers g s f g' s' f' n h k e = (omega (arith, h, k, e), omega (arith, h, k, e))

  sum_none : (a b : ℕ) → a + b ≡ 0 → (a ≡ 0) × (b ≡ 0)
  sum_none a b e = (omega (arith, e), omega (arith, e))

  books-Warm :
      (panics : Book → Files → Option Files) (books : List Book) (files : Files)
      → let r = prewarm_books images save data_dir open_at width panics books files in
        r.0.cov_g + r.0.cov_s ≡ length books
        → r.0.pg_f ≡ 0
        → Keeps files r.1 × All (IsWarm r.1) books
  unfolding prewarm_books
  books-Warm panics [] files covers pages = (λ path k. k, tt)
  books-Warm panics (b ∷ books) files covers pages =
      let r = prewarm_book images save data_dir open_at width b files in
      let first = joined images save data_dir open_at width (panics b files) r in
      let others = prewarm_books images save data_dir open_at width panics books first.1 in
      let counted = joined-AtMost images save data_dir open_at width b files (panics b files) in
      let rest_counted =
        prewarm_books-Accounts images save data_dir open_at width panics books first.1 in
      let (c, cs) =
        all_covers first.0.cov_g first.0.cov_s first.0.cov_f others.0.cov_g others.0.cov_s
          others.0.cov_f (length books) counted.0 rest_counted.0 covers in
      let (p, ps) = sum_none first.0.pg_f others.0.pg_f pages in
      let one = joined-Warm b files (panics b files) c p in
      let rest = books-Warm panics books first.1 cs ps in
      (λ path k. rest.0 path (one.0 path k), (IsWarm-Keeps b first.1 others.1 rest.0 one.1, rest.1))

  -- When the covers that are counted as generated or skipped are as many as the books, and no page is
  -- counted as failed, the cover and every page of each of the books have their thumbnails, whatever a
  -- task that panics may do.
  pub prewarm_books-IsWarm :
      (panics : Book → Files → Option Files) (books : List Book) (files : Files)
      → let r = prewarm_books images save data_dir open_at width panics books files in
        r.0.cov_g + r.0.cov_s ≡ length books → r.0.pg_f ≡ 0 → All (IsWarm r.1) books
  prewarm_books-IsWarm panics books files covers pages =
      (books-Warm panics books files covers pages).1
