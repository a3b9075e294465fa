-- ===== src/Order.antt =====
-- Comparison functions into `std::cmp::Ordering`, what a sort asks of one, and the lexicographic one.
use comic_stream.Common.{◌≡◌, refl, List, [], ◌∷◌, arith, compare, Ordering, sym, ◌⊎◌, ap₂}

-- `Ordering::then`
abbrev pub and_then : Ordering → Ordering → Ordering
and_then Ordering.eq o = o
and_then Ordering.lt o = Ordering.lt
and_then Ordering.gt o = Ordering.gt

-- `Ordering::reverse`
abbrev pub flip : Ordering → Ordering
flip Ordering.eq = Ordering.eq
flip Ordering.lt = Ordering.gt
flip Ordering.gt = Ordering.lt

-- A total order, as a comparison function.
pub record IsOrder {ℓ} {A : Type ℓ} (c : A → A → Ordering) : Type ℓ where
  pub reflexive : (x : A) → c x x ≡ Ordering.eq
  pub swapped : (x y : A) → c y x ≡ flip (c x y)
  pub exact : (x y : A) → c x y ≡ Ordering.eq → x ≡ y
  pub transitive : (x y z : A) → c x y ≡ Ordering.lt → c y z ≡ Ordering.lt → c x z ≡ Ordering.lt

-- The comparison of sequences, item by item.
abbrev pub lex {ℓ} : {A : Type ℓ} → (A → A → Ordering) → List A → List A → Ordering
lex c [] [] = Ordering.eq
lex c [] (y ∷ ys) = Ordering.lt
lex c (x ∷ xs) [] = Ordering.gt
lex c (x ∷ xs) (y ∷ ys) = and_then (c x y) (lex c xs ys)

pub and_then-eq :
    (a b : Ordering) → and_then a b ≡ Ordering.eq → (a ≡ Ordering.eq) × (b ≡ Ordering.eq)
and_then-eq a b h = ground arith

pub and_then-lt :
    (a b : Ordering)
    → and_then a b ≡ Ordering.lt
    → (a ≡ Ordering.lt) ⊎ ((a ≡ Ordering.eq) × (b ≡ Ordering.lt))
and_then-lt a b h = ground arith

pub flip-and_then : (a b : Ordering) → flip (and_then a b) ≡ and_then (flip a) (flip b)
flip-and_then a b = ground arith

pub compare-IsOrder : IsOrder compare
compare-IsOrder = record {
  reflexive = λ x. ground arith;
  swapped = λ x y. ground arith;
  exact = λ x y h. ground arith;
  transitive = λ x y z h k. ground arith;
}

module _ {ℓ} {A : Type ℓ} (c : A → A → Ordering) (o : IsOrder c) where
  lex_refl : (xs : List A) → lex c xs xs ≡ Ordering.eq
  lex_refl [] = refl
  lex_refl (x ∷ xs) = rw (o.reflexive x) (lex_refl xs)

  lex_swap : (xs ys : List A) → lex c ys xs ≡ flip (lex c xs ys)
  lex_swap [] [] = refl
  lex_swap [] (y ∷ ys) = refl
  lex_swap (x ∷ xs) [] = refl
  lex_swap (x ∷ xs) (y ∷ ys) =
      rw (o.swapped x y, lex_swap xs ys) (sym (flip-and_then (c x y) (lex c xs ys)))

  lex_exact : (xs ys : List A) → lex c xs ys ≡ Ordering.eq → xs ≡ ys
  lex_exact [] [] h = refl
  lex_exact [] (y ∷ ys) h = cc
  lex_exact (x ∷ xs) [] h = cc
  lex_exact (x ∷ xs) (y ∷ ys) h =
      let (p, q) = and_then-eq (c x y) (lex c xs ys) h in
      ap₂ ◌∷◌ (o.exact x y p) (lex_exact xs ys q)

  lex_trans :
      (xs ys zs : List A)
      → lex c xs ys ≡ Ordering.lt
      → lex c ys zs ≡ Ordering.lt
      → lex c xs zs ≡ Ordering.lt
  lex_trans [] [] [] h k = h
  lex_trans [] (y ∷ ys) [] h k = cc
  lex_trans [] ys (z ∷ zs) h k = refl
  lex_trans (x ∷ xs) [] zs h k = cc
  lex_trans (x ∷ xs) (y ∷ ys) [] h k = cc
  lex_trans (x ∷ xs) (y ∷ ys) (z ∷ zs) h k = ground (
    arith,
    and_then-lt (c x y) (lex c xs ys) h,
    and_then-lt (c y z) (lex c ys zs) k,
    o.transitive x y z,
    o.exact x y,
    o.exact y z,
    o.reflexive x,
    lex_trans xs ys zs,
  )

  pub lex-IsOrder : IsOrder (lex c)
  lex-IsOrder = record {
    reflexive = lex_refl;
    swapped = lex_swap;
    exact = lex_exact;
    transitive = lex_trans;
  }
