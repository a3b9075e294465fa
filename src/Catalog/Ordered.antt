-- ===== src/Catalog/Ordered.antt =====
-- `ORDER BY sort_key` of src/routes.rs and src/search.rs, and `LIMIT`.
use comic_stream.Common.{
  ℕ, zero, suc, ◌≡◌, refl, sym, ◌∙◌, ap, subst, List, [], ◌∷◌, All, take, compare, Ordering, inl,
  inr, ◌⊎◌,
}
use mathlib.Core.List.{Perm}
use mathlib.Core.List.Perm
use comic_stream.Text.{Text}
use comic_stream.Order.{lex, flip, IsOrder, compare-IsOrder, lex-IsOrder}
use comic_stream.Catalog.{place_by, order_by}

-- The first text does not come after the second.
abbrev pub IsBefore : Text → Text → Type 0
IsBefore a b = ¬ (lex compare a b ≡ Ordering.gt)

Ordering-cases : (o : Ordering) → (o ≡ Ordering.lt) ⊎ (o ≡ Ordering.eq) ⊎ (o ≡ Ordering.gt)
Ordering-cases Ordering.lt = inl refl
Ordering-cases Ordering.eq = inr (inl refl)
Ordering-cases Ordering.gt = inr (inr refl)

texts : IsOrder (lex compare)
texts = lex-IsOrder compare compare-IsOrder

not_gt : Ordering.lt ≡ Ordering.gt → ⊥
not_gt e = cc

eq_not_gt : Ordering.eq ≡ Ordering.gt → ⊥
eq_not_gt e = cc

IsBefore-trans : (a b c : Text) → IsBefore a b → IsBefore b c → IsBefore a c
IsBefore-trans a b c h k = elim (Ordering-cases (lex compare a b)) [
  | inl ab ↦ elim (Ordering-cases (lex compare b c)) [
    | inl bc ↦ λ e. not_gt (sym (texts.transitive a b c ab bc) ∙ e)
    | inr (inl bc) ↦ λ e.
        not_gt (sym ab ∙ subst (λ x. lex compare a x ≡ Ordering.gt) (sym (texts.exact b c bc)) e)
    | inr (inr bc) ↦ absurd (k bc)
  ]
  | inr (inl ab) ↦ subst (λ x. IsBefore x c) (sym (texts.exact a b ab)) k
  | inr (inr ab) ↦ absurd (h ab)
]

module _ {A : Type 0} (sort_key : A → Text) where
  -- In the order of the key.
  abbrev pub IsOrderedBy : List A → Type 0
  IsOrderedBy [] = Unit
  IsOrderedBy (a ∷ l) = All (λ b. IsBefore (sort_key a) (sort_key b)) l × IsOrderedBy l

  place_by-cases :
      (a b : A) (l : List A)
      → ((place_by sort_key a (b ∷ l) ≡ a ∷ b ∷ l) × IsBefore (sort_key a) (sort_key b))
        ⊎ ((place_by sort_key a (b ∷ l) ≡ b ∷ place_by sort_key a l)
            × IsBefore (sort_key b) (sort_key a))
  place_by-cases a b l = elim (Ordering-cases (lex compare (sort_key a) (sort_key b))) [
    | inl e ↦ inl (rw (place_by, e) refl, λ g. not_gt (sym e ∙ g))
    | inr (inl e) ↦ inl (rw (place_by, e) refl, λ g. eq_not_gt (sym e ∙ g))
    | inr (inr e) ↦ inr (
      rw (place_by, e) refl,
      λ g. not_gt (sym (texts.swapped (sort_key a) (sort_key b) ∙ ap flip e) ∙ g),
    )
  ]

  All-place_by :
      (P : A → Type 0) (a : A) (l : List A) → P a → All P l → All P (place_by sort_key a l)
  All-place_by P a [] p h = (p, tt)
  All-place_by P a (b ∷ l) p h = elim (place_by-cases a b l) [
    | inl (e, _) ↦ subst (All P) (sym e) (p, h)
    | inr (e, _) ↦ subst (All P) (sym e) (h.0, All-place_by P a l p h.1)
  ]

  All-IsBefore :
      (a b : Text) (l : List A)
      → IsBefore a b
      → All (λ c. IsBefore b (sort_key c)) l
      → All (λ c. IsBefore a (sort_key c)) l
  All-IsBefore a b [] p h = tt
  All-IsBefore a b (c ∷ l) p h = (IsBefore-trans a b (sort_key c) p h.0, All-IsBefore a b l p h.1)

  place_by-IsOrderedBy : (a : A) (l : List A) → IsOrderedBy l → IsOrderedBy (place_by sort_key a l)
  place_by-IsOrderedBy a [] s = (tt, tt)
  place_by-IsOrderedBy a (b ∷ l) s = elim (place_by-cases a b l) [
    | inl (e, p) ↦
        subst IsOrderedBy (sym e) ((p, All-IsBefore (sort_key a) (sort_key b) l p s.0), s)
    | inr (e, p) ↦ subst IsOrderedBy (sym e) (
      All-place_by (λ c. IsBefore (sort_key b) (sort_key c)) a l p s.0,
      place_by-IsOrderedBy a l s.1,
    )
  ]

  place_by-Perm : (a : A) (l : List A) → Perm (place_by sort_key a l) (a ∷ l)
  place_by-Perm a [] = Perm.refl (a ∷ [])
  place_by-Perm a (b ∷ l) = elim (place_by-cases a b l) [
    | inl (e, _) ↦ subst (λ x. Perm x (a ∷ b ∷ l)) (sym e) (Perm.refl (a ∷ b ∷ l))
    | inr (e, _) ↦
        subst (λ x. Perm x (a ∷ b ∷ l)) (sym e)
          (Perm.trans (Perm.cons b (place_by-Perm a l)) (Perm.swap a b l))
  ]

  pub order_by-IsOrderedBy : (l : List A) → IsOrderedBy (order_by sort_key l)
  unfolding order_by
  order_by-IsOrderedBy [] = tt
  order_by-IsOrderedBy (a ∷ l) =
      place_by-IsOrderedBy a (order_by sort_key l) (order_by-IsOrderedBy l)

  pub order_by-Perm : (l : List A) → Perm (order_by sort_key l) l
  unfolding order_by
  order_by-Perm [] = Perm.refl []
  order_by-Perm (a ∷ l) =
      Perm.trans (place_by-Perm a (order_by sort_key l)) (Perm.cons a (order_by-Perm l))

  pub order_by-All : (P : A → Type 0) (l : List A) → All P l → All P (order_by sort_key l)
  unfolding order_by
  order_by-All P [] h = tt
  order_by-All P (a ∷ l) h = All-place_by P a (order_by sort_key l) h.0 (order_by-All P l h.1)

pub All-take {ℓ} : {A : Type ℓ} (P : A → Type 0) (n : ℕ) (l : List A) → All P l → All P (take n l)
All-take P zero l h = tt
All-take P (suc n) [] h = tt
All-take P (suc n) (a ∷ l) h = (h.0, All-take P n l h.1)
