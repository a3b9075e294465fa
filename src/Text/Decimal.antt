-- ===== src/Text/Decimal.antt =====
-- Decimal numbers: what `format!("{}", n)` prints, and that `str::parse` reads it back.
use comic_stream.Common.{
  ℕ, zero, suc, ◌+◌, ◌*◌, ◌/◌, ◌%◌, ◌≤◌, ◌<◌, ◌≡◌, ◌≢◌, refl, true, [], ◌∷◌, ◌++◌, some, arith, ap,
  ◌∙◌, inl, inr, Bool-cases, ltb, if◌then◌else◌, All, All-append, length, length-append,
}
use comic_stream.Text.{Text, parse_digits, parse_uint, is_ascii_digit, digit_value}

-- The digits of `n`, by fuel: `n < 10 ^ fuel` is enough.
unfoldable pub show_fuel : ℕ → ℕ → Text
show_fuel zero n = []
show_fuel (suc f) n =
    let rest = show_fuel f (n / 10) in
    if ltb n 10 then (b'0' + n) ∷ [] else rest ++ (b'0' + n % 10) ∷ []

-- `n.to_string()`
unfoldable pub show : ℕ → Text
unfolding show_fuel
show n = show_fuel (suc n) n

abbrev pub IsDigit : ℕ → Type 0
IsDigit c = is_ascii_digit c ≡ true

pub show_fuel-All : (f n : ℕ) → All IsDigit (show_fuel f n)
unfolding show_fuel
show_fuel-All zero n = tt
show_fuel-All (suc f) n = elim (Bool-cases (ltb n 10)) [
  | inl small ↦ rw small (ground arith, tt)
  | inr large ↦
      rw large
        (All-append IsDigit (show_fuel f (n / 10)) _ (show_fuel-All f (n / 10)) (ground arith, tt))
]

pub parse_digits-append :
    (most acc : ℕ) (s : Text) (c n : ℕ)
    → parse_digits most acc s ≡ some n
    → is_ascii_digit c ≡ true
    → n * 10 + digit_value c ≤ most
    → parse_digits most acc (s ++ c ∷ []) ≡ some (n * 10 + digit_value c)
unfolding parse_digits
parse_digits-append most acc [] c n e d h = ground arith
parse_digits-append most acc (x ∷ s) c n e d h =
    ground (arith, parse_digits-append most (acc * 10 + digit_value x) s c n)

pub parse_digits-show_fuel :
    (most f n : ℕ) → n < f → n ≤ most → parse_digits most 0 (show_fuel f n) ≡ some n
unfolding show_fuel
parse_digits-show_fuel most zero n h k = absurd (omega arith)
parse_digits-show_fuel most (suc f) n h k = elim (Bool-cases (ltb n 10)) [
  | inl small ↦ rw small (unfold parse_digits in ground arith)
  | inr large ↦
      let part : n / 10 < f = ground arith in
      rw large (
        parse_digits-append most 0 (show_fuel f (n / 10)) (b'0' + n % 10) (n / 10)
          (parse_digits-show_fuel most f (n / 10) part (omega arith)) (ground arith) (omega arith)
        ∙ ap some (omega arith))
]

-- No printed digit is the sign `+`, which `parse_uint` would skip.
parse_uint-digits :
    (most : ℕ) (s : Text) → All IsDigit s → s ≢ [] → parse_uint most s ≡ parse_digits most 0 s
unfolding parse_uint
parse_uint-digits most [] h k = absurd (k refl)
parse_uint-digits most (c ∷ []) h k = refl
parse_uint-digits most (c ∷ d ∷ s) h k = ground arith

pub show_fuel-ne-nil : (f n : ℕ) → show_fuel (suc f) n ≢ []
unfolding show_fuel
show_fuel-ne-nil f n = elim (Bool-cases (ltb n 10)) [
  | inl small ↦ rw small (λ e. cc)
  | inr large ↦
      rw large (λ e. absurd (omega (arith, ap length e, length-append (show_fuel f (n / 10)))))
]

-- A number within the type's range is read back from its decimal digits.
pub parse_uint-show : (most n : ℕ) → n ≤ most → parse_uint most (show n) ≡ some n
unfolding show
parse_uint-show most n h =
    parse_uint-digits most _ (show_fuel-All (suc n) n) (show_fuel-ne-nil n n)
    ∙ parse_digits-show_fuel most (suc n) n (omega arith) h

pub show-All : (n : ℕ) → All IsDigit (show n)
unfolding show
show-All n = show_fuel-All (suc n) n

pub show-ne-nil : (n : ℕ) → show n ≢ []
unfolding show
show-ne-nil n = show_fuel-ne-nil n n
