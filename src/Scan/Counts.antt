-- ===== src/Scan/Counts.antt =====
-- src/scan.rs, `prewarm`: what its counts add up to.
use comic_stream.Common.{
  ℕ, zero, suc, ◌+◌, ◌-◌, ◌≡◌, ◌≤◌, refl, sym, ◌∙◌, subst, Bool, true, false, ◌&&◌, not, Option,
  none, some, List, [], ◌∷◌, length, length-append, if◌then◌else◌, arith, Bool-cases, inl, inr,
}
use comic_stream.Text.{Text, is_empty}
use comic_stream.Http.{Outside}
use comic_stream.Archive.Sorted.{Outside-cases}
use comic_stream.Models.{Book}
use comic_stream.Thumb.{cache_path, page_thumb_path}
use comic_stream.Thumb.Files.{ImageLib, Files}
use comic_stream.Db.{filter}
use comic_stream.Scan.Prewarm.{
  Counts, below, exists, one_if, prewarm_cover, prewarm_page, prewarm_pages, pages_needed,
  prewarm_open, prewarm_book, prewarm_books, joined, total_pages, Accounts,
}

length-filter {ℓ} : {A : Type ℓ} (p : A → Bool) (l : List A) → length (filter p l) ≤ length l
length-filter p [] = omega arith
length-filter p (a ∷ l) = elim (Bool-cases (p a)) [
  | inl kept ↦ rw (filter, kept) (omega (arith, length-filter p l))
  | inr dropped ↦ rw (filter, dropped) (omega (arith, length-filter p l))
]

length-below : (n : ℕ) → length (below n) ≡ n
length-below zero = refl
length-below (suc n) =
    length-append (below n) (n ∷ []) ∙ add_one (length (below n)) n (length-below n)
  where
    add_one : (a n : ℕ) → a ≡ n → a + 1 ≡ suc n
    add_one a n e = omega (arith, e)

pub is_empty-length {ℓ} : {A : Type ℓ} (l : List A) → is_empty l ≡ true → length l ≡ 0
unfolding is_empty
is_empty-length [] e = refl
is_empty-length (a ∷ l) e = absurd (cc e)

module _ (images : ImageLib) (save : List Text → List ℕ → Outside (Unit {0})) (data_dir : List Text)
    (open_at : Text → Outside (ℕ → Outside (List ℕ × Text))) (width : ℕ) where
  prewarm_pages-length :
      (arch : ℕ → Outside (List ℕ × Text)) (hash : Text) (ns : List ℕ) (files : Files)
      → let r = prewarm_pages images save data_dir open_at width arch hash ns files in
        r.0 + r.1 ≡ length ns
  unfolding prewarm_pages
  prewarm_pages-length arch hash [] files = refl
  prewarm_pages-length arch hash (n ∷ ns) files =
      let page = prewarm_page images save data_dir open_at width arch hash n files in
      let rest = prewarm_pages-length arch hash ns page.1 in
      elim (Bool-cases page.0) [
        | inl made ↦ rw (prewarm_pages, made) (omega (arith, rest))
        | inr not_made ↦ rw (prewarm_pages, not_made) (omega (arith, rest))
      ]

  -- The counts of one book.
  AccountsFor : Book → Counts → Type 0
  AccountsFor b c = (c.cov_g + c.cov_s + c.cov_f ≡ 1) × (c.pg_g + c.pg_s + c.pg_f ≡ b.page_count)

  one_of : (a b : Bool) → one_if (not a && b) + one_if a + one_if (not a && not b) ≡ 1
  one_of true true = refl
  one_of true false = refl
  one_of false true = refl
  one_of false false = refl

  fill : (g f n k : ℕ) → g + f ≡ n → n ≤ k → g + (k - n) + f ≡ k
  fill g f n k e h = omega (arith, e, h)

  needed_le :
      (hash : Text) (count : ℕ) (files : Files)
      → length (pages_needed images save data_dir open_at width hash count files) ≤ count
  needed_le hash count files =
      subst (λ n. length (pages_needed images save data_dir open_at width hash count files) ≤ n)
        (length-below count)
        (length-filter (λ n. not (exists files (page_thumb_path data_dir hash n width)))
          (below count))

  prewarm_book-AccountsFor :
      (b : Book) (files : Files)
      → AccountsFor b (prewarm_book images save data_dir open_at width b files).0
  unfolding prewarm_book prewarm_open AccountsFor
  prewarm_book-AccountsFor b files =
      let cached = exists files (cache_path data_dir b.hash) in
      let needed = pages_needed images save data_dir open_at width b.hash b.page_count files in
      let small = needed_le b.hash b.page_count files in
      elim (Bool-cases (cached && is_empty needed)) [
        | inl nothing ↦
            rw (prewarm_book, nothing)
              (
                refl,
                fill 0 0 (length needed) b.page_count
                    (sym (is_empty-length needed (and_right cached (is_empty needed) nothing)))
                    small,
              )
        | inr some_left ↦ elim (Outside-cases (open_at b.path)) [
          | inl (m, unopened) ↦
              rw (prewarm_book, some_left, unopened)
                (
                  cover_of cached,
                  fill 0 (length needed) (length needed) b.page_count (omega arith) small,
                )
          | inr (arch, opened) ↦
              rw (prewarm_book, some_left, opened) (counted arch cached needed small)
        ]
      ]
    where
      counted :
          (arch : ℕ → Outside (List ℕ × Text)) (cached : Bool) (needed : List ℕ)
          → length needed ≤ b.page_count
          → AccountsFor b
              (prewarm_open images save data_dir open_at width arch b.hash cached needed
                (b.page_count - length needed)
                files).0
      counted arch cached needed small =
          let cover =
            if cached
            then (false, files)
            else prewarm_cover images save data_dir open_at width arch b.hash files in
          let pages = prewarm_pages images save data_dir open_at width arch b.hash needed cover.1 in
          (
            one_of cached cover.0,
            fill pages.0 pages.1 (length needed) b.page_count
                (prewarm_pages-length arch b.hash needed cover.1) small,
          )

      and_right : (a b : Bool) → (a && b) ≡ true → b ≡ true
      and_right a b h = ground (arith, h)

      cover_of : (a : Bool) → 0 + one_if a + one_if (not a) ≡ 1
      cover_of true = refl
      cover_of false = refl

  add_up :
      (g s f g' s' f' a b : ℕ)
      → g + s + f ≤ a
      → g' + s' + f' ≤ b
      → (g + g') + (s + s') + (f + f') ≤ a + b
  add_up g s f g' s' f' a b h k = omega (arith, h, k)

  one_more : (a n : ℕ) → a ≤ 1 + n → a ≤ suc n
  one_more a n h = omega (arith, h)

  eq_le : (a b : ℕ) → a ≡ b → a ≤ b
  eq_le a b e = omega (arith, e)

  -- A book whose task runs to its end has its cover counted.
  pub cover_counted :
      (b : Book) (files : Files)
      → let c = (prewarm_book images save data_dir open_at width b files).0 in
        c.cov_g + c.cov_s + c.cov_f ≡ 1
  unfolding AccountsFor
  cover_counted b files = (prewarm_book-AccountsFor b files).0

  pub joined-AtMost :
      (b : Book) (files : Files) (panicked : Option Files)
      → let r = prewarm_book images save data_dir open_at width b files in
        let c = (joined images save data_dir open_at width panicked r).0 in
        (c.cov_g + c.cov_s + c.cov_f ≤ 1) × (c.pg_g + c.pg_s + c.pg_f ≤ b.page_count)
  unfolding AccountsFor
  joined-AtMost b files none =
      let one = prewarm_book-AccountsFor b files in (eq_le _ _ one.0, eq_le _ _ one.1)
  joined-AtMost b files (some files') = (omega arith, omega arith)

  -- Whatever fails or panics, each book's cover is counted at most once, as generated, skipped or
  -- failed, and so is each of its pages.
  pub prewarm_books-Accounts :
      (panics : Book → Files → Option Files) (books : List Book) (files : Files)
      → Accounts books (prewarm_books images save data_dir open_at width panics books files).0
  unfolding prewarm_books
  prewarm_books-Accounts panics [] files = (omega arith, omega arith)
  prewarm_books-Accounts panics (b ∷ books) files =
      let r = prewarm_book images save data_dir open_at width b files in
      let first = joined images save data_dir open_at width (panics b files) r in
      let c = first.0 in
      let d = (prewarm_books images save data_dir open_at width panics books first.1).0 in
      let one = joined-AtMost b files (panics b files) in
      let rest = prewarm_books-Accounts panics books first.1 in
      (
        one_more _ (length books)
            (add_up c.cov_g c.cov_s c.cov_f d.cov_g d.cov_s d.cov_f 1 (length books) one.0 rest.0),
        add_up c.pg_g c.pg_s c.pg_f d.pg_g d.pg_s d.pg_f b.page_count (total_pages books) one.1
            rest.1,
      )
