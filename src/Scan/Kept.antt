-- ===== src/Scan/Kept.antt =====
-- src/scan.rs, `scan`: what holds of the table of the books after a scan, and after one that succeeds.
use comic_stream.Common.{
  ℕ, ◌≡◌, refl, ap, subst, Bool, true, not, Option, none, List, [], ◌∷◌, map, All, arith,
  Option-cases, inl, inr, ◌⊎◌, ltb,
}
use comic_stream.Text.{Text}
use comic_stream.Http.{Outside, done, failed}
use comic_stream.Archive.Sorted.{Outside-cases, failed_not_done, done_injective}
use comic_stream.Models.{Book}
use comic_stream.Db.{
  Db, Statement, removed_books, delete_books, Action, and_then, ◌>>=◌, run, query, filter,
  prune_books,
}
use comic_stream.Scan.{Disk, upsert_folder}
use comic_stream.Scan.Rows.{IsTable}
use comic_stream.Scan.Walk.{Nodes, walked, scan, prune}
use comic_stream.Scan.Found.{IsBookAmong, Holds, Holds-same, upsert_folder-books, walk_all-Holds}
use comic_stream.Scan.Left.{
  filter-All, Maintains, bind-Maintains, query-Maintains, prune_books-Holds, from_books,
  from_gone_folders, from_gone_folders-Holds, prune-Holds,
}

All-and {ℓ} :
    {A : Type ℓ} (P Q : A → Type 0) (l : List A) → All P l → All Q l → All (λ a. P a × Q a) l
All-and P Q [] h k = tt
All-and P Q (a ∷ l) h k = ((h.0, k.0), All-and P Q l h.1 k.1)

All-imply {ℓ} :
    {A : Type ℓ} (P Q : A → Type 0) (l : List A) → ((a : A) → P a → Q a) → All P l → All Q l
All-imply P Q [] f h = tt
All-imply P Q (a ∷ l) f h = (f a h.0, All-imply P Q l f h.1)

All-tt : (l : List Book) → All (λ _. Unit {0}) l
All-tt [] = tt
All-tt (b ∷ l) = (tt, All-tt l)

-- Of a sequence that succeeds, each part did.
then_done :
    {A : Type 0} {B : Type 0} (Q : Db → Type 0) (f : A → Action B) (r : Outside A × Db) (b : B)
    → (and_then f r).0 ≡ done b
    → ((a : A) → r.0 ≡ done a → (f a r.1).0 ≡ done b → Q (f a r.1).1)
    → Q (and_then f r).1
then_done Q f (failed message, db) b e h = absurd (failed_not_done e)
then_done Q f (done a, db) b e h = h a refl e

-- A statement that succeeds did what it says.
run_done :
    {A : Type 0} (refuses : Statement → Option Text) (statement : Statement)
    (f : Db → Outside (A × Db)) (db : Db) (a : A)
    → (run refuses statement f db).0 ≡ done a
    → f db ≡ done (a, (run refuses statement f db).1)
run_done refuses statement f db a e = elim (Option-cases (refuses statement)) [
  | inr (m, refused) ↦ absurd (failed_not_done (rw (run, refused) at e))
  | inl taken ↦ elim (Outside-cases (f db)) [
    | inl (m, violated) ↦ absurd (failed_not_done (rw (run, taken, violated) at e))
    | inr ((b, db'), made) ↦
        let same : b ≡ a = done_injective (rw (run, taken, made) at e) in
        rw (run, taken, made) (ap (λ x. done (x, db')) same)
  ]
]

module _ (disk : Disk) (refuses : Statement → Option Text) (started : ℕ) where
  abbrev listed : Db → Outside (List Text) × Db
  listed =
      query refuses removed_books
        (λ db. map (λ b. b.path) (filter (λ b. ltb b.seen_at started) db.books))

  abbrev deleted : Db → Outside (Unit {0}) × Db
  deleted db = run refuses delete_books (prune_books started) (listed db).1

  module _ (P : Book → Type 0) where
    abbrev Seen : Book → Type 0
    Seen b = P b × (not (ltb b.seen_at started) ≡ true)

    listed-Holds : Maintains (Holds P) listed
    listed-Holds =
        query-Maintains (Holds P) refuses removed_books
          (λ db. map (λ b. b.path) (filter (λ b. ltb b.seen_at started) db.books))

    deleted-Holds :
        (db : Db) (u : Unit {0})
        → prune_books started (listed db).1 ≡ done (u, (deleted db).1)
        → Holds P db
        → Holds Seen (deleted db).1
    unfolding prune_books
    deleted-Holds db u made h =
        let kept =
          prune_books-Holds disk refuses started P started (listed db).1 u (deleted db).1 made
            (listed-Holds db h) in
        (
          kept.0,
          All-and P (λ b. not (ltb b.seen_at started) ≡ true) (deleted db).1.books kept.1
              (subst (λ d. All (λ b. not (ltb b.seen_at started) ≡ true) d.books)
                (ap (λ p. p.1) (done_injective made))
                (filter-All (λ b. not (ltb b.seen_at started)) (listed db).1.books)),
        )

    -- After a pruning that succeeds, no book is there that the scan has not seen.
    prune-Seen :
        (db : Db)
        → (prune disk refuses started db).0 ≡ done tt
        → Holds P db
        → All Seen (prune disk refuses started db).1.books
    unfolding prune
    prune-Seen db e h =
        then_done (λ d. All Seen d.books) (λ _. from_books disk refuses started) (listed db) tt e
          (λ paths _ e1.
            then_done (λ d. All Seen d.books) (λ _. from_gone_folders disk refuses started)
              (deleted db) tt e1
              (λ u e2 _.
                (from_gone_folders-Holds disk refuses started Seen (deleted db).1 (
                  deleted-Holds db u
                    (run_done refuses delete_books (prune_books started) (listed db).1 u e2) h)).1))

    -- The walk, whatever it meets.
    walked-Holds :
        (library : Text) (tree : Nodes) (root_id : ℕ)
        → ((c : Book) → IsBookAmong library tree c.path → c.seen_at ≡ started → P c)
        → Maintains
            (Holds P)
            (λ db. (done (tt {0}), walked disk refuses started library tree root_id db))
    unfolding walked
    walked-Holds library tree root_id found db h =
        walk_all-Holds disk refuses started P library tree _ found h

  module _ (library : Text) (library_name : Option Text) (tree : Nodes) where
    abbrev rooted : Db → Outside ℕ × Db
    rooted = upsert_folder disk refuses library none library_name started

    abbrev read : ℕ → Action (Unit {0})
    read root_id db = (done (tt {0}), walked disk refuses started library tree root_id db)

    rooted-Holds : (P : Book → Type 0) → Maintains (Holds P) rooted
    rooted-Holds P db h =
        Holds-same P db _ (upsert_folder-books disk refuses library none library_name started db) h

    -- Whatever a scan meets, and wherever it stops, the ids and the paths of the books stay unique.
    scan-IsTable :
        (db : Db) → IsTable db → IsTable (scan disk refuses started library library_name tree db).1
    unfolding scan
    scan-IsTable db t =
        (bind-Maintains (Holds Any) rooted
          (λ root_id. read root_id >>= λ _. prune disk refuses started) (rooted-Holds Any)
          (λ root_id.
            bind-Maintains (Holds Any) (read root_id) (λ _. prune disk refuses started)
              (walked-Holds Any library tree root_id (λ _ _ _. tt))
              (λ _. prune-Holds disk refuses started Any))
          db (t, All-tt db.books)).0
      where
        Any : Book → Type 0
        Any b = Unit

    -- Where the ids and the paths of the books are unique, and every row was last seen before the scan
    -- starts: after a scan that succeeds, every book in the table is a file of a supported kind in the
    -- library, neither hidden nor in a directory that is hidden or ignored.
    pub scan-IsBookAmong :
        (db : Db)
        → IsTable db
        → All (λ b. ltb b.seen_at started ≡ true) db.books
        → (scan disk refuses started library library_name tree db).0 ≡ done tt
        → All
            (λ b. IsBookAmong library tree b.path)
            (scan disk refuses started library library_name tree db).1.books
    unfolding scan
    scan-IsBookAmong db t old e =
        then_done (λ d. All Found d.books)
          (λ root_id. read root_id >>= λ _. prune disk refuses started) (rooted db) tt e
          (λ root_id _ e1.
            let there = (walked disk refuses started library tree root_id (rooted db).1) in
            All-imply (Seen StaleOrFound) Found _ stays (
              prune-Seen StaleOrFound there e1 (
                walked-Holds StaleOrFound library tree root_id (λ c f _. inr f) (rooted db).1
                  (rooted-Holds StaleOrFound db
                    (t, All-imply _ StaleOrFound db.books (λ b s. inl s) old)))))
      where
        Found : Book → Type 0
        Found b = IsBookAmong library tree b.path

        StaleOrFound : Book → Type 0
        StaleOrFound b = (ltb b.seen_at started ≡ true) ⊎ IsBookAmong library tree b.path

        stays : (b : Book) → Seen StaleOrFound b → Found b
        stays b (inl stale, seen) = absurd (no_longer stale seen)
          where
            no_longer : {x : Bool} → x ≡ true → not x ≡ true → ⊥
            no_longer p q = ground (arith, p, q)
        stays b (inr found, seen) = found
