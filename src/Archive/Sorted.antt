-- ===== src/Archive/Sorted.antt =====
-- src/archive/: the pages of an archive are in natural order.
use comic_stream.Common.{
  ◌≡◌, refl, sym, ◌∙◌, ap, subst, List, [], ◌∷◌, All, Ordering, inl, inr, ◌⊎◌,
}
use mathlib.Core.List.{Perm}
use mathlib.Core.List.Perm
use comic_stream.Order.{flip}
use comic_stream.Natsort.{cmp}
use comic_stream.Natsort.Tokens.{cmp-IsPreorder}
use comic_stream.Http.{Outside, done, failed}
use comic_stream.Text.{Text}
use comic_stream.Archive.{PageEntry, Entry, place, sort_pages, list_pages, open_pages}

pub Outside-cases {ℓ} :
    {A : Type ℓ} (o : Outside A)
    → ((message : Text) × (o ≡ failed message)) ⊎ ((a : A) × (o ≡ done a))
Outside-cases (failed message) = inl (message, refl)
Outside-cases (done a) = inr (a, refl)

pub failed_not_done {ℓ} : {A : Type ℓ} {message : Text} {a : A} → failed message ≡ done a → ⊥
failed_not_done e = cc

pub done_injective {ℓ} : {A : Type ℓ} {a b : A} → done a ≡ done b → a ≡ b
done_injective e = cc

-- The first page does not come after the second.
abbrev pub IsBefore : PageEntry → PageEntry → Type 0
IsBefore p q = ¬ (cmp p.name q.name ≡ Ordering.gt)

abbrev pub IsSorted : List PageEntry → Type 0
IsSorted [] = Unit
IsSorted (p ∷ ps) = All (IsBefore p) ps × IsSorted ps

Ordering-cases : (o : Ordering) → (o ≡ Ordering.lt) ⊎ (o ≡ Ordering.eq) ⊎ (o ≡ Ordering.gt)
Ordering-cases Ordering.lt = inl refl
Ordering-cases Ordering.eq = inr (inl refl)
Ordering-cases Ordering.gt = inr (inr refl)

lt_of_eq : (x y z : Text) → cmp x y ≡ Ordering.lt → cmp y z ≡ Ordering.eq → cmp x z ≡ Ordering.lt
lt_of_eq x y z h k =
    let zy : cmp z y ≡ Ordering.eq = cmp-IsPreorder.swapped y z ∙ ap flip k in
    let zx : cmp z x ≡ cmp y x = cmp-IsPreorder.same z y x zy in
    let yx : cmp y x ≡ Ordering.gt = cmp-IsPreorder.swapped x y ∙ ap flip h in
    cmp-IsPreorder.swapped z x ∙ ap flip (zx ∙ yx)

not_gt : Ordering.lt ≡ Ordering.gt → ⊥
not_gt e = cc

IsBefore-trans : (p q r : PageEntry) → IsBefore p q → IsBefore q r → IsBefore p r
IsBefore-trans p q r h k = elim (Ordering-cases (cmp p.name q.name)) [
  | inl pq ↦ elim (Ordering-cases (cmp q.name r.name)) [
    | inl qr ↦ λ e. not_gt (sym (cmp-IsPreorder.transitive p.name q.name r.name pq qr) ∙ e)
    | inr (inl qr) ↦ λ e. not_gt (sym (lt_of_eq p.name q.name r.name pq qr) ∙ e)
    | inr (inr qr) ↦ absurd (k qr)
  ]
  | inr (inl pq) ↦ λ e. k (sym (cmp-IsPreorder.same p.name q.name r.name pq) ∙ e)
  | inr (inr pq) ↦ absurd (h pq)
]

All-IsBefore :
    (p q : PageEntry) (l : List PageEntry) → IsBefore p q → All (IsBefore q) l → All (IsBefore p) l
All-IsBefore p q [] h a = tt
All-IsBefore p q (r ∷ l) h a = (IsBefore-trans p q r h a.0, All-IsBefore p q l h a.1)

eq_not_gt : Ordering.eq ≡ Ordering.gt → ⊥
eq_not_gt e = cc

-- Where a page goes, by its comparison with the first of the pages placed already.
place-cases :
    (p q : PageEntry) (l : List PageEntry)
    → ((place p (q ∷ l) ≡ p ∷ q ∷ l) × IsBefore p q)
      ⊎ ((place p (q ∷ l) ≡ q ∷ place p l) × IsBefore q p)
place-cases p q l = elim (Ordering-cases (cmp p.name q.name)) [
  | inl e ↦ inl (rw (place, e) refl, λ g. not_gt (sym e ∙ g))
  | inr (inl e) ↦ inl (rw (place, e) refl, λ g. eq_not_gt (sym e ∙ g))
  | inr (inr e) ↦
      inr (
        rw (place, e) refl,
        λ g. not_gt (sym (cmp-IsPreorder.swapped p.name q.name ∙ ap flip e) ∙ g),
      )
]

All-place :
    (P : PageEntry → Type 0) (p : PageEntry) (l : List PageEntry)
    → P p
    → All P l
    → All P (place p l)
All-place P p [] h a = (h, tt)
All-place P p (q ∷ l) h a = elim (place-cases p q l) [
  | inl (e, _) ↦ subst (All P) (sym e) (h, a)
  | inr (e, _) ↦ subst (All P) (sym e) (a.0, All-place P p l h a.1)
]

place-IsSorted : (p : PageEntry) (l : List PageEntry) → IsSorted l → IsSorted (place p l)
place-IsSorted p [] s = (tt, tt)
place-IsSorted p (q ∷ l) s = elim (place-cases p q l) [
  | inl (e, h) ↦ subst IsSorted (sym e) ((h, All-IsBefore p q l h s.0), s)
  | inr (e, h) ↦ subst IsSorted (sym e) (All-place (IsBefore q) p l h s.0, place-IsSorted p l s.1)
]

sort_pages-IsSorted : (l : List PageEntry) → IsSorted (sort_pages l)
unfolding sort_pages
sort_pages-IsSorted [] = tt
sort_pages-IsSorted (p ∷ l) = place-IsSorted p (sort_pages l) (sort_pages-IsSorted l)

sort_pages-All : (P : PageEntry → Type 0) (l : List PageEntry) → All P l → All P (sort_pages l)
unfolding sort_pages
sort_pages-All P [] a = tt
sort_pages-All P (p ∷ l) a = All-place P p (sort_pages l) a.0 (sort_pages-All P l a.1)

place-Perm : (p : PageEntry) (l : List PageEntry) → Perm (place p l) (p ∷ l)
place-Perm p [] = Perm.refl (p ∷ [])
place-Perm p (q ∷ l) = elim (place-cases p q l) [
  | inl (e, _) ↦ subst (λ x. Perm x (p ∷ q ∷ l)) (sym e) (Perm.refl (p ∷ q ∷ l))
  | inr (e, _) ↦
      subst (λ x. Perm x (p ∷ q ∷ l)) (sym e)
        (Perm.trans (Perm.cons q (place-Perm p l)) (Perm.swap p q l))
]

-- Sorting keeps the pages.
pub sort_pages-Perm : (l : List PageEntry) → Perm (sort_pages l) l
unfolding sort_pages
sort_pages-Perm [] = Perm.refl []
sort_pages-Perm (p ∷ l) = Perm.trans (place-Perm p (sort_pages l)) (Perm.cons p (sort_pages-Perm l))

-- The pages of an archive that is opened, zip or rar, are in the order of `natsort::cmp`.
pub open_pages-IsSorted :
    (format : Text) (listing : Outside (List (Outside Entry))) (pages : List PageEntry)
    → open_pages format listing ≡ done pages
    → IsSorted pages
unfolding open_pages
open_pages-IsSorted format (failed message) pages e = absurd (cc e)
open_pages-IsSorted format (done entries) pages e =
    elim (Outside-cases (list_pages format entries)) [
      | inl (message, f) ↦ absurd (failed_not_done (rw (open_pages, f) at e))
      | inr (found, f) ↦
          subst IsSorted (done_injective (rw (open_pages, f) at e)) (sort_pages-IsSorted found)
    ]
