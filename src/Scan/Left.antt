-- ===== src/Scan/Left.antt =====
-- src/scan.rs, `scan`: the rows of the books that are there when a scan is through.
use comic_stream.Common.{
  ℕ, ◌<◌, ◌≡◌, sym, ap, subst, Bool, true, not, Option, none, some, List, [], ◌∷◌, map, All,
  Bool-cases, Option-cases, inl, inr, ltb, length,
}
use comic_stream.Text.{Text}
use comic_stream.Http.{Outside, done, failed}
use comic_stream.Archive.Sorted.{Outside-cases, done_injective}
use comic_stream.Models.{Book}
use comic_stream.Db.{
  Db, Statement, removed_books, delete_books, removed_folders, delete_folders, list_folders,
  direct_book, descendant_book, set_version, Action, and_then, ◌>>=◌, run, query, filter, cascade,
  has_folder, prune_books, prune_folders, direct_book_of, descendant_book_of, set_cover_version,
}
use comic_stream.Scan.{Disk}
use comic_stream.Scan.Rows.{IsNew, AreUnique}
use comic_stream.Scan.Walk.{
  prune, hash_of, descendant_if_none, version_by_books, cover_version_for, refresh_versions,
  refresh_cover_versions,
}
use comic_stream.Scan.Found.{Holds, Holds-same}

pub All-filter {ℓ} :
    {A : Type ℓ} (P : A → Type 0) (p : A → Bool) (l : List A) → All P l → All P (filter p l)
All-filter P p [] h = tt
All-filter P p (a ∷ l) h = elim (Bool-cases (p a)) [
  | inl kept ↦ rw (filter, kept) (h.0, All-filter P p l h.1)
  | inr dropped ↦ rw (filter, dropped) (All-filter P p l h.1)
]

pub filter-All {ℓ} : {A : Type ℓ} (p : A → Bool) (l : List A) → All (λ a. p a ≡ true) (filter p l)
filter-All p [] = tt
filter-All p (a ∷ l) = elim (Bool-cases (p a)) [
  | inl kept ↦ rw (filter, kept) (kept, filter-All p l)
  | inr dropped ↦ rw (filter, dropped) (filter-All p l)
]

pub filter-AreUnique : (p : Book → Bool) (l : List Book) → AreUnique l → AreUnique (filter p l)
filter-AreUnique p [] u = tt
filter-AreUnique p (b ∷ l) u = elim (Bool-cases (p b)) [
  | inl kept ↦ rw (filter, kept) (All-filter (IsNew b) p l u.0, filter-AreUnique p l u.1)
  | inr dropped ↦ rw (filter, dropped) (filter-AreUnique p l u.1)
]

-- Whatever becomes of an action, it keeps what holds of the database.
abbrev pub Maintains {ℓ} : {A : Type ℓ} → (Db → Type 0) → Action A → Type 0
Maintains I act = (db : Db) → I db → I (act db).1

module _ (I : Db → Type 0) where
  pub bind-Maintains :
      {A : Type 0} {B : Type 0} (act : Action A) (f : A → Action B)
      → Maintains I act
      → ((a : A) → Maintains I (f a))
      → Maintains I (act >>= f)
  bind-Maintains {A = A} {B = B} act f m n db h = next (act db) (m db h)
    where
      next : (r : Outside A × Db) → I r.1 → I (and_then f r).1
      next (failed message, d) k = k
      next (done a, d) k = n a d k

  pub run-Maintains :
      {A : Type 0} (refuses : Statement → Option Text) (statement : Statement)
      (f : Db → Outside (A × Db))
      → ((db : Db) (a : A) (db' : Db) → f db ≡ done (a, db') → I db → I db')
      → Maintains I (run refuses statement f)
  run-Maintains refuses statement f keeps db h = elim (Option-cases (refuses statement)) [
    | inr (m, refused) ↦ rw (run, refused) h
    | inl taken ↦ elim (Outside-cases (f db)) [
      | inl (m, violated) ↦ rw (run, taken, violated) h
      | inr ((a, db'), e) ↦ rw (run, taken, e) (keeps db a db' e h)
    ]
  ]

  pub query-Maintains :
      {A : Type 0} (refuses : Statement → Option Text) (statement : Statement) (f : Db → A)
      → Maintains I (query refuses statement f)
  query-Maintains refuses statement f =
      run-Maintains refuses statement (λ d. done (f d, d))
        (λ db a db' e h. subst I (ap (λ p. p.1) (done_injective e)) h)

module _ (disk : Disk) (refuses : Statement → Option Text) (started : ℕ) where
  -- What a filter of the books and a change to the folders keep.
  pub prune_books-Holds :
      (P : Book → Type 0) (cut : ℕ) (db : Db) (u : Unit {0}) (db' : Db)
      → prune_books cut db ≡ done (u, db')
      → Holds P db
      → Holds P db'
  unfolding prune_books
  prune_books-Holds P cut db u db' e h = subst (Holds P) (ap (λ p. p.1) (done_injective e)) (
    record {
      unique = filter-AreUnique (λ b. not (ltb b.seen_at cut)) db.books h.0.unique;
      below =
          All-filter (λ b. b.id < db.next_book) (λ b. not (ltb b.seen_at cut)) db.books h.0.below;
    },
    All-filter P (λ b. not (ltb b.seen_at cut)) db.books h.1,
  )

  prune_folders-Holds :
      (P : Book → Type 0) (cut : ℕ) (db : Db) (u : Unit {0}) (db' : Db)
      → prune_folders cut db ≡ done (u, db')
      → Holds P db
      → Holds P db'
  unfolding prune_folders
  prune_folders-Holds P cut db u db' e h =
      let kept = cascade (length db.folders) (filter (λ f. not (ltb f.seen_at cut)) db.folders) in
      subst (Holds P) (ap (λ p. p.1) (done_injective e)) (
        record {
          unique = filter-AreUnique (λ b. has_folder b.folder_id kept) db.books h.0.unique;
          below =
              All-filter (λ b. b.id < db.next_book) (λ b. has_folder b.folder_id kept) db.books
                h.0.below;
        },
        All-filter P (λ b. has_folder b.folder_id kept) db.books h.1,
      )

  set_cover_version-Holds :
      (P : Book → Type 0) (id : ℕ) (version : Option Text) (db : Db) (u : Unit {0}) (db' : Db)
      → set_cover_version id version db ≡ done (u, db')
      → Holds P db
      → Holds P db'
  unfolding set_cover_version
  set_cover_version-Holds P id version db u db' e h =
      let same = ap (λ p. p.1) (done_injective e) in
      Holds-same P db db' (ap (λ d. d.books) (sym same), ap (λ d. d.next_book) (sym same)) h

  -- The deletions, each with what follows it.
  abbrev pub from_folders : Action (Unit {0})
  from_folders = run refuses delete_folders (prune_folders started) >>= λ _.
      refresh_cover_versions disk refuses started

  abbrev pub from_gone_folders : Action (Unit {0})
  from_gone_folders =
      query refuses removed_folders
        (λ db. map (λ f. f.path) (filter (λ f. ltb f.seen_at started) db.folders))
      >>= λ _. from_folders

  abbrev pub from_books : Action (Unit {0})
  from_books = run refuses delete_books (prune_books started) >>= λ _. from_gone_folders

  module _ (P : Book → Type 0) where
    descendant_if_none-Holds :
        (id : ℕ) (o : Option Text)
        → Maintains (Holds P) (descendant_if_none disk refuses started id o)
    descendant_if_none-Holds id (some hash) db h = h
    descendant_if_none-Holds id none db h =
        query-Maintains (Holds P) refuses (descendant_book id)
          (λ db. hash_of disk refuses started (descendant_book_of id db)) db h

    version_by_books-Holds :
        (id : ℕ) → Maintains (Holds P) (version_by_books disk refuses started id)
    unfolding version_by_books
    version_by_books-Holds id =
        bind-Maintains (Holds P)
          (query refuses (direct_book id)
            (λ db. hash_of disk refuses started (direct_book_of id db)))
          (descendant_if_none disk refuses started id)
          (query-Maintains (Holds P) refuses (direct_book id)
            (λ db. hash_of disk refuses started (direct_book_of id db)))
          (descendant_if_none-Holds id)

    cover_version_for-Holds :
        (id : ℕ) (o : Option Text)
        → Maintains (Holds P) (cover_version_for disk refuses started id o)
    unfolding cover_version_for
    cover_version_for-Holds id none db h = version_by_books-Holds id db h
    cover_version_for-Holds id (some path) db h = elim (Bool-cases (disk.exists path)) [
      | inl there ↦ rw (cover_version_for, there) h
      | inr gone ↦ rw (cover_version_for, gone) (version_by_books-Holds id db h)
    ]

    refresh_versions-Holds :
        (l : List (ℕ × Option Text)) → Maintains (Holds P) (refresh_versions disk refuses started l)
    unfolding refresh_versions
    refresh_versions-Holds [] db h = h
    refresh_versions-Holds ((id, path) ∷ rest) db h =
        bind-Maintains (Holds P) (cover_version_for disk refuses started id path)
          (λ version. run refuses (set_version id) (set_cover_version id version) >>= λ _.
            refresh_versions disk refuses started rest)
          (cover_version_for-Holds id path)
          (λ version.
            bind-Maintains (Holds P) (run refuses (set_version id) (set_cover_version id version))
              (λ _. refresh_versions disk refuses started rest)
              (run-Maintains (Holds P) refuses (set_version id) (set_cover_version id version)
                (set_cover_version-Holds P id version))
              (λ _. refresh_versions-Holds rest))
          db h

    abbrev cover_paths : Action (List (ℕ × Option Text))
    cover_paths = query refuses list_folders (λ db. map (λ f. (f.id, f.cover_path)) db.folders)

    refresh_cover_versions-Holds : Maintains (Holds P) (refresh_cover_versions disk refuses started)
    unfolding refresh_cover_versions
    refresh_cover_versions-Holds =
        bind-Maintains (Holds P) cover_paths (refresh_versions disk refuses started)
          (query-Maintains (Holds P) refuses list_folders
            (λ db. map (λ f. (f.id, f.cover_path)) db.folders))
          refresh_versions-Holds

    pub from_gone_folders-Holds : Maintains (Holds P) from_gone_folders
    from_gone_folders-Holds =
        bind-Maintains (Holds P)
          (query refuses removed_folders
            (λ db. map (λ f. f.path) (filter (λ f. ltb f.seen_at started) db.folders)))
          (λ _. from_folders)
          (query-Maintains (Holds P) refuses removed_folders
            (λ db. map (λ f. f.path) (filter (λ f. ltb f.seen_at started) db.folders)))
          (λ _.
            bind-Maintains (Holds P) (run refuses delete_folders (prune_folders started))
              (λ _. refresh_cover_versions disk refuses started)
              (run-Maintains (Holds P) refuses delete_folders (prune_folders started)
                (prune_folders-Holds P started))
              (λ _. refresh_cover_versions-Holds))

    pub prune-Holds : Maintains (Holds P) (prune disk refuses started)
    unfolding prune
    prune-Holds =
        bind-Maintains (Holds P)
          (query refuses removed_books
            (λ db. map (λ b. b.path) (filter (λ b. ltb b.seen_at started) db.books)))
          (λ _. from_books)
          (query-Maintains (Holds P) refuses removed_books
            (λ db. map (λ b. b.path) (filter (λ b. ltb b.seen_at started) db.books)))
          (λ _.
            bind-Maintains (Holds P) (run refuses delete_books (prune_books started))
              (λ _. from_gone_folders)
              (run-Maintains (Holds P) refuses delete_books (prune_books started)
                (prune_books-Holds P started))
              (λ _. from_gone_folders-Holds))
