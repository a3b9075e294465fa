-- ===== src/SafePath.antt =====
-- src/safe_path.rs: which files the handlers may open. `canonicalize` is `std::fs::canonicalize`.
use comic_stream.Common.{
  ℕ, ◌≡◌, refl, sym, ap, subst, Bool, true, false, ◌&&◌, not, Option, none, some, List, [], ◌∷◌,
  ◌++◌, ◌==◌, if◌then◌else◌, list_eq, list_eq_sound, Bool-cases, Option-cases, inl, inr, arith,
  some_injective, some_not_none, fun_ext,
}
use comic_stream.Text.{Text, split, is_empty}
use comic_stream.Http.{HeaderLib, ◌>>=◌, Outside, ok_or_not_found}
use comic_stream.Models.{Book}
use comic_stream.Thumb.Files.{ImageLib}
use comic_stream.Range.{serve_file_with_range}
use comic_stream.Db.{filter}
use comic_stream.Opds.{book_mime}
use comic_stream.Books.{World, lookup_book, book_file}

-- The components of an absolute path.
unfoldable pub components : Text → List Text
components path = filter (λ c. not (is_empty c)) (split (λ c. c == b'/') path)

-- `Path::starts_with`, component by component.
abbrev pub begins : List Text → List Text → Bool
begins path [] = true
begins [] (c ∷ root) = false
begins (d ∷ path) (c ∷ root) = list_eq d c && begins path root

abbrev keep_below : Text → Option Text → Option Text
keep_below root none = none
keep_below root (some resolved) =
    if begins (components resolved) (components root) then some resolved else none

unfoldable pub under : (Text → Option Text) → Text → Text → Option Text
unfolding components
under canonicalize root candidate = keep_below root (canonicalize candidate)

-- The path is the root or below it.
abbrev pub IsBelow : Text → Text → Type 0
IsBelow root path = (rest : List Text) × (components path ≡ components root ++ rest)

begins-append :
    (path root : List Text) → begins path root ≡ true → (rest : List Text) × (path ≡ root ++ rest)
begins-append path [] e = (path, refl)
begins-append [] (c ∷ root) e = absurd (cc e)
begins-append (d ∷ path) (c ∷ root) e =
    let (same, below) = both (list_eq d c) (begins path root) e in
    let (rest, tail) = begins-append path root below in
    (rest, rw (list_eq_sound d c same, tail) refl)
  where
    both : (a b : Bool) → (a && b) ≡ true → (a ≡ true) × (b ≡ true)
    both a b e = ground (arith, e)

keep_below-IsBelow :
    (root resolved : Text) (o : Option Text)
    → keep_below root o ≡ some resolved
    → IsBelow root resolved
keep_below-IsBelow root resolved none e = absurd (cc e)
keep_below-IsBelow root resolved (some r) e =
    elim (Bool-cases (begins (components r) (components root))) [
      | inr outside ↦ absurd (some_not_none (sym (rw (keep_below, outside) at e)))
      | inl below ↦
          let same : r ≡ resolved = some_injective (rw (keep_below, below) at e) in
          subst (IsBelow root) same (begins-append (components r) (components root) below)
    ]

pub under-IsBelow :
    (canonicalize : Text → Option Text) (root candidate resolved : Text)
    → under canonicalize root candidate ≡ some resolved
    → IsBelow root resolved
unfolding under
under-IsBelow canonicalize root candidate resolved e =
    keep_below-IsBelow root resolved (canonicalize candidate) e

module _ (lib : HeaderLib) (images : ImageLib) (canonicalize : Text → Option Text)
    (root : Text) where
  -- A server with its library at the root.
  abbrev pub at_root : World → World
  at_root w = record w { under = under canonicalize root }

  -- The same server with other files.
  abbrev pub with_files : World → (Text → Outside (List ℕ)) → World
  with_files w other = record (at_root w) { file_at = other }

  serve_below :
      (w : World) (other : Text → Outside (List ℕ)) (range : Option Text)
      → ((path : Text) → IsBelow root path → w.file_at path ≡ other path)
      → (b : Book)
      → (ok_or_not_found (under canonicalize root b.path) >>= λ safe.
          serve_file_with_range lib (w.file_at safe) w.seek (book_mime b.format) range)
        ≡ (ok_or_not_found (under canonicalize root b.path) >>= λ safe.
            serve_file_with_range lib (other safe) w.seek (book_mime b.format) range)
  serve_below w other range agree b = elim (Option-cases (under canonicalize root b.path)) [
    | inl refused ↦ rw refused refl
    | inr (safe, e) ↦ rw (e, agree safe (under-IsBelow canonicalize root b.path safe e)) refl
  ]

  -- A book's file comes from the library alone: whatever path the database gives for a book, and wherever links
  -- lead, the response is the same for any two disks whose files agree below the library's root.
  pub book_file-contained :
      (w : World) (other : Text → Outside (List ℕ)) (hash : Text) (range : Option Text)
      → ((path : Text) → IsBelow root path → w.file_at path ≡ other path)
      → book_file lib images (at_root w) hash range
        ≡ book_file lib images (with_files w other) hash range
  unfolding book_file lookup_book
  book_file-contained w other hash range agree =
      ap (λ f. lookup_book lib images w hash >>= f) (fun_ext (serve_below w other range agree))
