-- ===== src/Natsort/Runs.antt =====
-- src/natsort.rs: runs of digits, their numbers, and their padding in a key.
use comic_stream.Common.{
  ℕ, zero, suc, ◌+◌, ◌-◌, ◌*◌, ◌≤◌, ◌<◌, ◌≡◌, refl, [], ◌∷◌, ◌++◌, arith, compare, length,
  if◌then◌else◌, inl, inr, true, Bool-cases, ap, ap₂, sym, ◌∙◌, subst, All, All-append, replicate,
  length-append, length-replicate,
}
use comic_stream.Text.{Text, is_ascii_digit, digit_value}
use comic_stream.Order.{and_then, lex}
use comic_stream.Natsort.{push_digit, take_number_from, take_digits, pad, u128_max}

-- Every run of digits has 20 digits at most; `n` counts those of the run that has begun.
abbrev pub RunsFit : ℕ → Text → Type 0
RunsFit n [] = Unit
RunsFit n (c ∷ s) = if is_ascii_digit c then (n < 20) × RunsFit (n + 1) s else RunsFit 0 s

pub value : ℕ → Text → ℕ
value acc [] = acc
value acc (c ∷ s) = value (acc * 10 + digit_value c) s

pub pow10 : ℕ → ℕ
pow10 zero = 1
pow10 (suc n) = 10 * pow10 n

abbrev pub IsDigit : ℕ → Type 0
IsDigit c = is_ascii_digit c ≡ true

pub value_lower : (acc : ℕ) (s : Text) → acc * pow10 (length s) ≤ value acc s
unfolding value pow10
value_lower acc [] = omega arith
value_lower acc (c ∷ s) = grind (arith, value_lower (acc * 10 + digit_value c) s)

pub scale_digit : (a m p : ℕ) → m ≤ 9 → (a * 10 + m + 1) * p ≤ (a + 1) * (10 * p)
scale_digit a m p h = grind arith

pub value_upper :
    (acc : ℕ) (s : Text) → All IsDigit s → value acc s + 1 ≤ (acc + 1) * pow10 (length s)
unfolding value pow10
value_upper acc [] h = omega arith
value_upper acc (c ∷ s) h =
    let digit : digit_value c ≤ 9 = ground (arith, h.0) in
    omega (
      arith,
      value_upper (acc * 10 + digit_value c) s h.1,
      scale_digit acc (digit_value c) (pow10 (length s)) digit,
    )

pub apart : (a b u v p : ℕ) → a < b → u + 1 ≤ (a + 1) * p → b * p ≤ v → u < v
apart a b u v p h k l = grind arith

pub value-lt :
    (a b : ℕ) (s t : Text) → length s ≡ length t → All IsDigit s → a < b → value a s < value b t
value-lt a b s t e h l =
    apart a b _ _ (pow10 (length s)) l (value_upper a s h)
      (subst (λ n. b * pow10 n ≤ value b t) (sym e) (value_lower b t))

-- Runs of digits of one length compare as texts as their numbers do.
pub compare_runs :
    (acc : ℕ) (s t : Text)
    → length s ≡ length t
    → All IsDigit s
    → All IsDigit t
    → lex compare s t ≡ compare (value acc s) (value acc t)
unfolding value
compare_runs acc [] [] e h k = ground arith
compare_runs acc [] (d ∷ t) e h k = absurd (omega arith)
compare_runs acc (c ∷ s) [] e h k = absurd (omega arith)
compare_runs acc (c ∷ s) (d ∷ t) e h k =
    let a = acc * 10 + digit_value c in
    let b = acc * 10 + digit_value d in
    let below = value-lt a b s t (omega arith) h.1 in
    let above = value-lt b a t s (omega arith) k.1 in
    ground (arith, h.0, k.0, below, above, compare_runs a s t (omega arith) h.1 k.1)

-- The padded runs in front decide, and the rest after them.
pub lex-append :
    (s t u v : Text)
    → length s ≡ length t
    → lex compare (s ++ u) (t ++ v) ≡ and_then (lex compare s t) (lex compare u v)
lex-append [] [] u v e = refl
lex-append [] (d ∷ t) u v e = absurd (omega arith)
lex-append (c ∷ s) [] u v e = absurd (omega arith)
lex-append (c ∷ s) (d ∷ t) u v e = ground (arith, lex-append s t u v (omega arith))

pub value-ge : (acc : ℕ) (s : Text) → acc ≤ value acc s
unfolding value
value-ge acc [] = omega arith
value-ge acc (c ∷ s) = omega (arith, value-ge (acc * 10 + digit_value c) s)

pub take_digits-All : (s : Text) → All IsDigit (take_digits s).0
unfolding take_digits
take_digits-All [] = tt
take_digits-All (c ∷ s) = elim (Bool-cases (is_ascii_digit c)) [
  | inl digit ↦ rw digit (digit, take_digits-All s)
  | inr other ↦ rw other tt
]

pub take_digits-RunsFit :
    (n : ℕ) (s : Text)
    → n ≤ 20
    → RunsFit n s
    → (length (take_digits s).0 + n ≤ 20) × RunsFit 0 (take_digits s).1
unfolding take_digits
take_digits-RunsFit n [] k h = (omega arith, tt)
take_digits-RunsFit n (c ∷ s) k h = elim (Bool-cases (is_ascii_digit c)) [
  | inl digit ↦
      let (fits, after) = rw digit at h in
      let (len, rest) = take_digits-RunsFit (n + 1) s (omega arith) after in
      rw digit (omega arith, rest)
  | inr other ↦ rw other (omega arith, rw other (rw other at h))
]

pub length-take_digits : (s : Text) → length (take_digits s).1 ≤ length s
unfolding take_digits
length-take_digits [] = omega arith
length-take_digits (c ∷ s) = elim (Bool-cases (is_ascii_digit c)) [
  | inl digit ↦ rw digit (omega (arith, length-take_digits s))
  | inr other ↦ rw other (omega arith)
]

-- Below the bound of `u128` nothing saturates.
pub push_digit-eq :
    (n c : ℕ) → n * 10 + digit_value c ≤ u128_max → push_digit n c ≡ n * 10 + digit_value c
unfolding push_digit
push_digit-eq n c h = omega arith

pub take_number-take_digits :
    (n : ℕ) (s : Text)
    → value n (take_digits s).0 ≤ u128_max
    → take_number_from n s ≡ (value n (take_digits s).0, (take_digits s).1)
unfolding take_number_from take_digits value
take_number-take_digits n [] h = refl
take_number-take_digits n (c ∷ s) h = elim (Bool-cases (is_ascii_digit c)) [
  | inl digit ↦
      let small : value (n * 10 + digit_value c) (take_digits s).0 ≤ u128_max = rw digit at h in
      let pushed =
        push_digit-eq n c (omega (arith, value-ge (n * 10 + digit_value c) (take_digits s).0)) in
      rw (digit, pushed) (take_number-take_digits (n * 10 + digit_value c) s small)
  | inr other ↦ rw other refl
]

pub value-zeros : (n : ℕ) (s : Text) → value 0 (replicate n b'0' ++ s) ≡ value 0 s
unfolding value
value-zeros zero s = refl
value-zeros (suc n) s = value-zeros n s

pub replicate-All : (n : ℕ) → All IsDigit (replicate n b'0')
replicate-All zero = tt
replicate-All (suc n) = (refl, replicate-All n)

pub length-pad : (s : Text) → length s ≤ 20 → length (pad s) ≡ 20
unfolding pad
length-pad s h = omega (
  arith,
  length-append (replicate (20 - length s) b'0') s,
  length-replicate {A = ℕ} (20 - length s) b'0',
)

pub pad-All : (s : Text) → All IsDigit s → All IsDigit (pad s)
unfolding pad
pad-All s h = All-append IsDigit (replicate (20 - length s) b'0') s (replicate-All _) h

pub value-pad : (s : Text) → value 0 (pad s) ≡ value 0 s
unfolding pad
value-pad s = value-zeros (20 - length s) s

pub value-le_max : (s : Text) → length s ≤ 20 → All IsDigit s → value 0 s ≤ u128_max
unfolding pow10
value-le_max s h d =
    let top : pow10 (length (pad s)) ≡ 100_000_000_000_000_000_000 = ap pow10 (length-pad s h) in
    omega (arith, value_upper 0 (pad s) (pad-All s d), value-pad s)

pub compare_padded :
    (s t : Text) (u v : Text)
    → length s ≤ 20
    → length t ≤ 20
    → All IsDigit s
    → All IsDigit t
    → lex compare (pad s ++ u) (pad t ++ v)
      ≡ and_then (compare (value 0 s) (value 0 t)) (lex compare u v)
compare_padded s t u v hs ht ds dt =
    let e = length-pad s hs ∙ sym (length-pad t ht) in
    lex-append (pad s) (pad t) u v e
    ∙ ap (λ o. and_then o (lex compare u v))
        (compare_runs 0 (pad s) (pad t) e (pad-All s ds) (pad-All t dt)
          ∙ ap₂ compare (value-pad s) (value-pad t))
