-- ===== src/Text/Laws.antt =====
-- Trimming and splitting texts of which the characters are known.
use comic_stream.Common.{ℕ, ◌≡◌, refl, false, none, some, [], ◌∷◌, ◌++◌, arith, ◌==◌, All}
use comic_stream.Text.{
  Text, is_whitespace, trim, trim_start, trim_end, is_empty, split_once, contains, split_at_byte,
  is_ascii_digit,
}
use comic_stream.Text.Decimal.{IsDigit, show, show-ne-nil}

abbrev pub IsSolid : ℕ → Type 0
IsSolid c = is_whitespace c ≡ false

abbrev pub Lacks : ℕ → Text → Type 0
Lacks q s = All (λ c. (c == q) ≡ false) s

trim_start_solid : (s : Text) → All IsSolid s → trim_start s ≡ s
unfolding trim_start
trim_start_solid [] h = refl
trim_start_solid (c ∷ s) h = rw h.0

trim_end_solid : (s : Text) → All IsSolid s → trim_end s ≡ s
unfolding trim_end
trim_end_solid [] h = refl
trim_end_solid (c ∷ s) h = rw (h.0, trim_end_solid s h.1)

-- A text without white space is left as it is.
pub trim_solid : (s : Text) → All IsSolid s → trim s ≡ s
unfolding trim
trim_solid s h = rw (trim_start_solid s h) (trim_end_solid s h)

pub split_once_first : (q : ℕ) (s t : Text) → Lacks q s → split_once q (s ++ q ∷ t) ≡ some (s, t)
unfolding split_once
split_once_first q [] t h = ground arith
split_once_first q (c ∷ s) t h = rw (h.0, split_once_first q s t h.1)

pub split_once-none : (q : ℕ) (s : Text) → Lacks q s → split_once q s ≡ none
unfolding split_once
split_once-none q [] h = refl
split_once-none q (c ∷ s) h = rw (h.0, split_once-none q s h.1)

pub contains-Lacks : (q : ℕ) (s : Text) → Lacks q s → contains q s ≡ false
unfolding contains
contains-Lacks q [] h = refl
contains-Lacks q (c ∷ s) h = rw (h.0, contains-Lacks q s h.1)

pub split_at_byte-zero : (s : Text) → split_at_byte 0 s ≡ some ([], s)
unfolding split_at_byte
split_at_byte-zero [] = refl
split_at_byte-zero (c ∷ s) = refl

digit-IsSolid : (c : ℕ) → IsDigit c → IsSolid c
unfolding is_whitespace
digit-IsSolid c h = ground arith

pub digits-IsSolid : (s : Text) → All IsDigit s → All IsSolid s
digits-IsSolid [] h = tt
digits-IsSolid (c ∷ s) h = (digit-IsSolid c h.0, digits-IsSolid s h.1)

pub digits-Lacks : (q : ℕ) (s : Text) → is_ascii_digit q ≡ false → All IsDigit s → Lacks q s
digits-Lacks q [] p h = tt
digits-Lacks q (c ∷ s) p h = (ground (arith, h.0), digits-Lacks q s p h.1)

pub is_empty-show : (n : ℕ) → is_empty (show n) ≡ false
is_empty-show n = elim_nil (show n) (show-ne-nil n)
  where
    elim_nil : (s : Text) → ¬ (s ≡ []) → is_empty s ≡ false
    elim_nil [] h = absurd (h refl)
    elim_nil (c ∷ s) h = unfold is_empty in refl
