-- ===== src/Natsort/Keys.antt =====
-- src/natsort.rs, `key`: byte order on the keys, which is what the database sorts by, is `cmp`.
use comic_stream.Common.{
  ℕ, zero, suc, ◌≤◌, ◌<◌, ◌≡◌, refl, [], ◌∷◌, ◌++◌, arith, compare, Ordering, length, ◌&&◌, inl,
  inr, true, false, Bool-cases, ap, ap₂, sym, ◌∙◌, All,
}
use comic_stream.Text.{Text, is_ascii_digit, to_ascii_lowercase}
use native.Mathlib.Nat.{le_trans}
use Prim.Native.Nat.{suc-le-suc}
use comic_stream.Order.{and_then, lex}
use comic_stream.Natsort.{take_number, cmp_loop, cmp, take_digits, pad, key_loop, key}
use comic_stream.Natsort.Runs.{
  RunsFit, value, IsDigit, take_digits-All, take_digits-RunsFit, length-take_digits,
  take_number-take_digits, length-pad, pad-All, value-le_max, compare_padded,
}

-- A digit and another character compare in front of the keys as in the names.
mixed_key :
    (s : Text) (x y : Text) (c d : ℕ) (o : Ordering)
    → All IsDigit s
    → length s ≡ 20
    → is_ascii_digit c ≡ true
    → is_ascii_digit d ≡ false
    → (lex compare (s ++ x) (to_ascii_lowercase d ∷ y)
        ≡ and_then (compare (to_ascii_lowercase c) (to_ascii_lowercase d)) o)
      × (lex compare (to_ascii_lowercase d ∷ y) (s ++ x)
          ≡ and_then (compare (to_ascii_lowercase d) (to_ascii_lowercase c)) o)
mixed_key [] x y c d o h l p q = absurd (omega arith)
mixed_key (e ∷ s) x y c d o h l p q = (ground (arith, h.0), ground (arith, h.0))

take_number_of_digit :
    (c : ℕ) (s : Text)
    → is_ascii_digit c ≡ true
    → RunsFit 0 (c ∷ s)
    → (take_number (c ∷ s) ≡ (value 0 (take_digits (c ∷ s)).0, (take_digits (c ∷ s)).1))
      × (length (take_digits (c ∷ s)).0 ≤ 20)
      × RunsFit 0 (take_digits (c ∷ s)).1
      × (length (take_digits (c ∷ s)).1 ≤ length s)
unfolding take_number
take_number_of_digit c s p fits =
    let (short, rest) = take_digits-RunsFit 0 (c ∷ s) (omega arith) fits in
    (
      take_number-take_digits 0 (c ∷ s) (value-le_max _ (omega arith) (take_digits-All (c ∷ s))),
      omega arith,
      rest,
      unfold take_digits in rw p (length-take_digits s),
    )

key_loop-nil : (f : ℕ) → key_loop f [] ≡ []
unfolding key_loop
key_loop-nil zero = refl
key_loop-nil (suc f) = refl

key_loop_of_digit :
    (f c : ℕ) (s : Text)
    → is_ascii_digit c ≡ true
    → key_loop (suc f) (c ∷ s) ≡ pad (take_digits (c ∷ s)).0 ++ key_loop f (take_digits (c ∷ s)).1
unfolding key_loop
key_loop_of_digit f c s p = rw p

key_loop_of_letter :
    (f c : ℕ) (s : Text)
    → is_ascii_digit c ≡ false
    → key_loop (suc f) (c ∷ s) ≡ to_ascii_lowercase c ∷ key_loop f s
unfolding key_loop
key_loop_of_letter f c s p = rw p

lex-nil_left : (s u : Text) → length s ≡ 20 → lex compare [] (s ++ u) ≡ Ordering.lt
lex-nil_left [] u h = absurd (omega arith)
lex-nil_left (c ∷ s) u h = refl

lex-nil_right : (s u : Text) → length s ≡ 20 → lex compare (s ++ u) [] ≡ Ordering.gt
lex-nil_right [] u h = absurd (omega arith)
lex-nil_right (c ∷ s) u h = refl

-- The padded digits in front of a key.
module _ (c : ℕ) (s : Text) (p : is_ascii_digit c ≡ true) (fits : RunsFit 0 (c ∷ s)) where
  front-length : length (pad (take_digits (c ∷ s)).0) ≡ 20
  front-length = length-pad _ (take_number_of_digit c s p fits).1

  front-All : All IsDigit (pad (take_digits (c ∷ s)).0)
  front-All = pad-All _ (take_digits-All (c ∷ s))

RunsFit-tail : (c : ℕ) (s : Text) → is_ascii_digit c ≡ false → RunsFit 0 (c ∷ s) → RunsFit 0 s
RunsFit-tail c s p h = rw p at h

cmp_loop_of_digits :
    (h c d : ℕ) (a b : Text)
    → is_ascii_digit c ≡ true
    → is_ascii_digit d ≡ true
    → cmp_loop (suc h) (c ∷ a) (d ∷ b)
      ≡ and_then
          (compare (take_number (c ∷ a)).0 (take_number (d ∷ b)).0)
          (cmp_loop h (take_number (c ∷ a)).1 (take_number (d ∷ b)).1)
unfolding cmp_loop
cmp_loop_of_digits h c d a b p q = rw (p, q)

cmp_loop_of_letters :
    (h c d : ℕ) (a b : Text)
    → (is_ascii_digit c && is_ascii_digit d) ≡ false
    → cmp_loop (suc h) (c ∷ a) (d ∷ b)
      ≡ and_then (compare (to_ascii_lowercase c) (to_ascii_lowercase d)) (cmp_loop h a b)
unfolding cmp_loop
cmp_loop_of_letters h c d a b p = rw p

compare_keys :
    (f g h : ℕ) (a b : Text)
    → length a ≤ f
    → length b ≤ g
    → length a < h
    → RunsFit 0 a
    → RunsFit 0 b
    → lex compare (key_loop f a) (key_loop g b) ≡ cmp_loop h a b
unfolding cmp_loop
compare_keys f g zero a b i j k p q = absurd (omega arith)
compare_keys f g (suc h) [] [] i j k p q = rw (key_loop-nil f, key_loop-nil g) refl
compare_keys f zero (suc h) a (d ∷ b) i j k p q = absurd (omega arith)
compare_keys zero g (suc h) (c ∷ a) b i j k p q = absurd (omega arith)
compare_keys f (suc g) (suc h) [] (d ∷ b) i j k p q = elim (Bool-cases (is_ascii_digit d)) [
  | inl e ↦ rw (key_loop-nil f, key_loop_of_digit g d b e) (lex-nil_left _ _ (front-length d b e q))
  | inr e ↦ rw (key_loop-nil f, key_loop_of_letter g d b e) refl
]
compare_keys (suc f) g (suc h) (c ∷ a) [] i j k p q = elim (Bool-cases (is_ascii_digit c)) [
  | inl e ↦
      rw (key_loop-nil g, key_loop_of_digit f c a e) (lex-nil_right _ _ (front-length c a e p))
  | inr e ↦ rw (key_loop-nil g, key_loop_of_letter f c a e) refl
]
compare_keys (suc f) (suc g) (suc h) (c ∷ a) (d ∷ b) i j k p q =
    elim (Bool-cases (is_ascii_digit c)) [
      | inl e ↦ elim (Bool-cases (is_ascii_digit d)) [
        | inl e' ↦
            let (na, sa, ra, la) = take_number_of_digit c a e p in
            let (nb, sb, rb, lb) = take_number_of_digit d b e' q in
            let ih =
              compare_keys f g h _ _ (le_trans la (omega arith)) (le_trans lb (omega arith))
                (le_trans (suc-le-suc la) (omega arith)) ra rb in
            rw (key_loop_of_digit f c a e, key_loop_of_digit g d b e')
              (compare_padded _ _ _ _ sa sb (take_digits-All (c ∷ a)) (take_digits-All (d ∷ b))
                ∙ ap (and_then _) ih
                ∙ sym (
                    cmp_loop_of_digits h c d a b e e'
                    ∙ ap₂ (λ x y. and_then (compare x.0 y.0) (cmp_loop h x.1 y.1)) na nb))
        | inr e' ↦
            rw (key_loop_of_digit f c a e, key_loop_of_letter g d b e')
              ((mixed_key _ _ _ c d (cmp_loop h a b) (front-All c a e p) (front-length c a e p) e
                  e').0
                ∙ sym (cmp_loop_of_letters h c d a b (rw (e, e') refl)))
      ]
      | inr e ↦ elim (Bool-cases (is_ascii_digit d)) [
        | inl e' ↦
            rw (key_loop_of_letter f c a e, key_loop_of_digit g d b e')
              ((mixed_key _ _ _ d c (cmp_loop h a b) (front-All d b e' q) (front-length d b e' q) e'
                  e).1
                ∙ sym (cmp_loop_of_letters h c d a b (rw e refl)))
        | inr e' ↦
            rw
              (
                key_loop_of_letter f c a e,
                key_loop_of_letter g d b e',
                cmp_loop_of_letters h c d a b (rw e refl),
              )
              (ap (and_then _) (
                compare_keys f g h a b (omega arith) (omega arith) (omega arith)
                  (RunsFit-tail c a e p) (RunsFit-tail d b e' q)))
      ]
    ]

-- For names whose runs of digits have 20 digits at most: the keys compare code point by code point
-- as `cmp` compares the names.
pub key-cmp : (a b : Text) → RunsFit 0 a → RunsFit 0 b → lex compare (key a) (key b) ≡ cmp a b
unfolding key cmp
key-cmp a b p q =
    compare_keys (length a) (length b) (suc (length a)) a b (omega arith) (omega arith)
      (omega arith) p q
