-- ===== src/Scan/Rows.antt =====
-- src/scan.rs: what holds of the rows of the books through a scan.
use comic_stream.Common.{
  ℕ, suc, ◌<◌, ◌≡◌, refl, sym, ◌∙◌, ap, subst, Bool, true, false, none, some, List, [], ◌∷◌, ◌++◌,
  map, All, All-append, if◌then◌else◌, arith, Bool-cases, inl, inr, ◌⊎◌, list_eq, list_eq_sound,
  list_eq_refl, ◌==◌, some_injective, some_not_none, true_not_false,
}
use comic_stream.Text.{Text}
use comic_stream.Models.{Book}
use comic_stream.Db.{Db, find}
use comic_stream.Scan.Books.{Change, nothing, rewritten, added}

-- Rows have ids below the next one, no two the same id, and no two the same path.
abbrev pub IsNew : Book → Book → Type 0
IsNew b c = ((c.id == b.id) ≡ false) × (list_eq c.path b.path ≡ false)

abbrev pub AreUnique : List Book → Type 0
AreUnique [] = Unit
AreUnique (b ∷ bs) = All (IsNew b) bs × AreUnique bs

pub record IsTable (db : Db) : Type 0 where
  pub unique : AreUnique db.books
  pub below : All (λ b. b.id < db.next_book) db.books

All-map :
    (P Q : Book → Type 0) (g : Book → Book) (l : List Book)
    → ((b : Book) → P b → Q (g b))
    → All P l
    → All Q (map g l)
All-map P Q g [] h a = tt
All-map P Q g (b ∷ l) h a = (h b a.0, All-map P Q g l h a.1)

module _ (id : ℕ) (g : Book → Book)
    (keeps : (c : Book) → ((g c).id ≡ c.id) × ((g c).path ≡ c.path)) where
  abbrev at_id : Book → Book
  at_id c = if c.id == id then g c else c

  at_id-same : (c : Book) → ((at_id c).id ≡ c.id) × ((at_id c).path ≡ c.path)
  at_id-same c = elim (Bool-cases (c.id == id)) [
    | inl here ↦ rw here (keeps c)
    | inr other ↦ rw other (refl, refl)
  ]

  at_id-IsNew : (b c : Book) → IsNew b c → IsNew (at_id b) (at_id c)
  at_id-IsNew b c n = rw ((at_id-same b).0, (at_id-same b).1, (at_id-same c).0, (at_id-same c).1) n

  at_id-AreUnique : (l : List Book) → AreUnique l → AreUnique (map at_id l)
  at_id-AreUnique [] u = tt
  at_id-AreUnique (b ∷ l) u =
      (All-map (IsNew b) (IsNew (at_id b)) at_id l (at_id-IsNew b) u.0, at_id-AreUnique l u.1)

pub find-All {ℓ} :
    {A : Type ℓ} (p : A → Bool) (P : A → Type 0) (l : List A) (a : A)
    → find p l ≡ some a
    → All P l
    → P a × (p a ≡ true)
find-All p P [] a e h = absurd (cc e)
find-All p P (x ∷ l) a e h = elim (Bool-cases (p x)) [
  | inl here ↦
      let same : x ≡ a = some_injective (rw (find, here) at e) in
      subst (λ y. P y × (p y ≡ true)) same (h.0, here)
  | inr later ↦ find-All p P l a (rw (find, later) at e) h.1
]

find-none-All {ℓ} :
    {A : Type ℓ} (p : A → Bool) (l : List A) → find p l ≡ none → All (λ a. p a ≡ false) l
find-none-All p [] e = tt
find-none-All p (x ∷ l) e = elim (Bool-cases (p x)) [
  | inl here ↦ absurd (some_not_none (rw (find, here) at e))
  | inr later ↦ (later, find-none-All p l (rw (find, later) at e))
]

==_false_sym : (a b : ℕ) → (a == b) ≡ true → (b == a) ≡ false → ⊥
==_false_sym a b h k = ground arith

-- A row with the id of the one found is that row.
pub found-only :
    (p : Book → Bool) (l : List Book) (b : Book)
    → AreUnique l
    → find p l ≡ some b
    → All (λ c. (c.id == b.id) ≡ true → c ≡ b) l
found-only p [] b u e = tt
found-only p (x ∷ l) b u e = elim (Bool-cases (p x)) [
  | inl here ↦
      let same : x ≡ b = some_injective (rw (find, here) at e) in
      subst (λ y. ((x.id == y.id) ≡ true → x ≡ y) × All (λ c. (c.id == y.id) ≡ true → c ≡ y) l) same
        (λ _. refl, others x l u.0)
  | inr later ↦
      let found : find p l ≡ some b = rw (find, later) at e in
      let (fresh, _) = find-All p (IsNew x) l b found u.0 in
      (λ hit. absurd (==_false_sym x.id b.id hit fresh.0), found-only p l b u.1 found)
]
  where
    others :
        (x : Book) (l : List Book) → All (IsNew x) l → All (λ c. (c.id == x.id) ≡ true → c ≡ x) l
    others x [] h = tt
    others x (c ∷ l) h = (λ hit. absurd (true_not_false (sym hit ∙ h.0.0)), others x l h.1)

AreUnique-append :
    (l : List Book) (b : Book) → AreUnique l → All (λ c. IsNew c b) l → AreUnique (l ++ b ∷ [])
AreUnique-append [] b u h = (tt, tt)
AreUnique-append (c ∷ l) b u h =
    (All-append (IsNew c) l (b ∷ []) u.0 (h.0, tt), AreUnique-append l b u.1 h.1)

-- A new row differs from all there are: its id is the next one, and its path was not found.
fresh_row :
    (path : Text) (b : Book) (next : ℕ) (l : List Book)
    → b.id ≡ next
    → b.path ≡ path
    → All (λ c. c.id < next) l
    → All (λ c. list_eq c.path path ≡ false) l
    → All (λ c. IsNew c b) l
fresh_row path b next [] i p h k = tt
fresh_row path b next (c ∷ l) i p h k = (
  (rw i (above c.id next h.0), rw p (list_eq-swap c.path path k.0)),
  fresh_row path b next l i p h.1 k.1,
)
  where
    above : (a n : ℕ) → a < n → (n == a) ≡ false
    above a n h = ground arith

    list_eq-swap : (a b : Text) → list_eq a b ≡ false → list_eq b a ≡ false
    list_eq-swap a b h = elim (Bool-cases (list_eq b a)) [
      | inr differ ↦ differ
      | inl same ↦ absurd (
          true_not_false (
            sym (list_eq_refl b)
            ∙ subst (λ x. list_eq x b ≡ false) (sym (list_eq_sound b a same)) h))
    ]

below_suc : (n : ℕ) (l : List Book) → All (λ c. c.id < n) l → All (λ c. c.id < suc n) l
below_suc n [] h = tt
below_suc n (c ∷ l) h = (omega (arith, h.0), below_suc n l h.1)

module _ (path : Text) (seen_at : ℕ) (db db' : Db) where
  pub Change-IsTable : Change path seen_at db db' → IsTable db → IsTable db'
  Change-IsTable (nothing e) t = subst IsTable (sym e) t
  Change-IsTable (rewritten b g found keeps e) t = subst IsTable (sym e) (record {
    unique = at_id-AreUnique b.id g same db.books t.unique;
    below =
        All-map (λ c. c.id < db.next_book) (λ c. c.id < db.next_book) (at_id b.id g same) db.books
          (λ c h. rw ((at_id-same b.id g same c).0) h) t.below;
  })
    where
      same : (c : Book) → ((g c).id ≡ c.id) × ((g c).path ≡ c.path)
      same c = ((keeps c).0, (keeps c).1)
  Change-IsTable (added b absent i p s e) t = subst IsTable (sym e) (record {
    unique =
        AreUnique-append db.books b t.unique
          (fresh_row path b db.next_book db.books i p t.below (find-none-All _ db.books absent));
    below =
        All-append (λ c. c.id < suc db.next_book) db.books (b ∷ [])
          (below_suc db.next_book db.books t.below) (rw i (omega arith), tt);
  })

  -- What holds of every row, and of any row written at the path, holds of every row after a call.
  pub Change-All :
      (P : Book → Type 0)
      → ((c : Book) → c.path ≡ path → c.seen_at ≡ seen_at → P c)
      → Change path seen_at db db'
      → IsTable db
      → All P db.books
      → All P db'.books
  Change-All P at_path (nothing e) t h = subst (λ d. All P d.books) (sym e) h
  Change-All P at_path (rewritten b g found keeps e) t h =
      subst (λ d. All P d.books) (sym e)
        (map-All db.books (found-only _ db.books b t.unique found) h)
    where
      here : b.path ≡ path
      here = list_eq_sound b.path path (find-All (λ c. list_eq c.path path) P db.books b found h).1

      map-All :
          (l : List Book)
          → All (λ c. (c.id == b.id) ≡ true → c ≡ b) l
          → All P l
          → All P (map (λ c. if c.id == b.id then g c else c) l)
      map-All [] u a = tt
      map-All (c ∷ l) u a = (step (Bool-cases (c.id == b.id)), map-All l u.1 a.1)
        where
          step :
              ((c.id == b.id) ≡ true) ⊎ ((c.id == b.id) ≡ false)
              → P (if c.id == b.id then g c else c)
          step (inl hit) =
              rw hit (at_path (g c) ((keeps c).1 ∙ ap (λ d. d.path) (u.0 hit) ∙ here) (keeps c).2)
          step (inr other) = rw other a.0
  Change-All P at_path (added b absent i p s e) t h =
      subst (λ d. All P d.books) (sym e) (All-append P db.books (b ∷ []) h (at_path b p s, tt))
