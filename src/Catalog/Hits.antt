-- ===== src/Catalog/Hits.antt =====
-- src/search.rs, `run`: which rows a search answers.
use comic_stream.Common.{
  ℕ, ◌≡◌, sym, ap, subst, Bool, true, false, Option, List, [], ◌∷◌, All, take, ◌↔◌, inl, inr,
  Option-cases,
}
use mathlib.Core.List.{Perm}
use comic_stream.Text.{Text, is_empty}
use comic_stream.Catalog.Ordered.{
  IsOrderedBy, order_by-IsOrderedBy, order_by-Perm, order_by-All, All-take,
}
use comic_stream.Http.{done}
use comic_stream.Models.{Folder, Book}
use comic_stream.Search.{to_like_pattern}
use comic_stream.Search.Glob.{items, Matches, IsPlain, IsFoundIn, to_like_pattern-IsFoundIn}
use comic_stream.Archive.Sorted.{failed_not_done, done_injective}
use comic_stream.Scan.Left.{filter-All}
use comic_stream.Db.{Db, filter}
use comic_stream.Catalog.{Query, search_folders, search_books, order_by, fetch, run}

-- LIKE as SQLite documents it for patterns with the escape character `\`.
abbrev pub IsLike : (Text → Text → Bool) → Type 0
IsLike like = (pattern t : Text) → (like pattern t ≡ true) ↔ Matches (items false pattern) t

module _ {A : Type 0} (name sort_key : A → Text) where
  -- The first rows, in order, of those that a pattern matches.
  abbrev pub IsFirst : ℕ → (A → Bool) → List A → List A → Type 0
  IsFirst n p table rows =
      (l : List A) × Perm l (filter p table) × IsOrderedBy sort_key l × (rows ≡ take n l)

  limit-IsFirst :
      (n : ℕ) (p : A → Bool) (table rows : List A)
      → take n (order_by sort_key (filter p table)) ≡ rows
      → IsFirst n p table rows
  limit-IsFirst n p table rows e = (
    order_by sort_key (filter p table),
    order_by-Perm sort_key (filter p table),
    order_by-IsOrderedBy sort_key (filter p table),
    sym e,
  )

  limit-IsFoundIn :
      (like : Text → Text → Bool) (q : Text) (n : ℕ) (table rows : List A)
      → IsLike like
      → All IsPlain q
      → take n (order_by sort_key (filter (λ a. like (to_like_pattern q) (name a)) table)) ≡ rows
      → All (λ a. IsFoundIn q (name a)) rows
  limit-IsFoundIn like q n table rows law plain e =
      subst (All (λ a. IsFoundIn q (name a))) e (
        All-take _ n _
          (order_by-All sort_key _ _ (found (filter hit table) (filter-All hit table))))
    where
      hit : A → Bool
      hit a = like (to_like_pattern q) (name a)

      found : (l : List A) → All (λ a. hit a ≡ true) l → All (λ a. IsFoundIn q (name a)) l
      found [] h = tt
      found (a ∷ l) h = (
        (to_like_pattern-IsFoundIn q (name a) plain).0 ((law (to_like_pattern q) (name a)).0 h.0),
        found l h.1,
      )

module _ (refuses : Query → Option Text) (db : Db) (like : Text → Text → Bool) where
  -- For a query that is not empty and has no `*`, with LIKE as SQLite documents it: a search that succeeds
  -- answers the first 50 folders and the first 100 books, in the order of the sort keys, of those that the
  -- pattern matches, and each has the query in its name, the case of the letters aside.
  pub run-finds :
      (q : Text) (folders : List Folder) (books : List Book)
      → IsLike like
      → All IsPlain q
      → is_empty q ≡ false
      → run refuses db like q ≡ done (folders, books)
      → IsFirst
          (λ f. f.name)
          (λ f. f.sort_key)
          50
          (λ f. like (to_like_pattern q) f.name)
          db.folders
          folders
        × All (λ f. IsFoundIn q f.name) folders
        × IsFirst
            (λ b. b.name)
            (λ b. b.sort_key)
            100
            (λ b. like (to_like_pattern q) b.name)
            db.books
            books
        × All (λ b. IsFoundIn q b.name) books
  unfolding run
  run-finds q folders books law plain some_query e = elim (Option-cases (refuses search_folders)) [
    | inr (m, refused) ↦ absurd (failed_not_done (rw (run, some_query, fetch, refused) at e))
    | inl first ↦ elim (Option-cases (refuses search_books)) [
      | inr (m, refused) ↦
          absurd (failed_not_done (rw (run, some_query, fetch, first, refused) at e))
      | inl second ↦
          let both = done_injective (rw (run, some_query, fetch, first, second) at e) in
          let f = ap (λ p. p.0) both in
          let b = ap (λ p. p.1) both in
          (
            limit-IsFirst (λ f. f.name) (λ f. f.sort_key) 50 _ db.folders folders f,
            limit-IsFoundIn (λ f. f.name) (λ f. f.sort_key) like q 50 db.folders folders law plain
                f,
            limit-IsFirst (λ b. b.name) (λ b. b.sort_key) 100 _ db.books books b,
            limit-IsFoundIn (λ b. b.name) (λ b. b.sort_key) like q 100 db.books books law plain b,
          )
    ]
  ]
