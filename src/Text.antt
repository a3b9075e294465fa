-- ===== src/Text.antt =====
-- The parts of Rust's `str` and `char` that the program calls. A `&str` is the list of its Unicode
-- scalar values; where the program slices by bytes, the bytes are counted from the UTF-8 lengths.
pub mod Decimal
pub mod Laws
pub mod Utf8
use Prim.Native.Char.{code}
use Prim.Native.String.{String}
use comic_stream.Common.{
  ℕ, zero, suc, ◌+◌, ◌-◌, ◌*◌, Bool, true, false, ◌&&◌, ◌||◌, Option, none, some, List, [], ◌∷◌,
  reverse, ltb, leb, ◌==◌, if◌then◌else◌, list_eq,
}
use mathlib.Core.Option

abbrev pub Text : Type 0
Text = List ℕ

-- The code points of a literal.
abbrev pub codes : String → Text
codes String.[] = []
codes (String.◌∷◌ c s) = code c ∷ codes s

unfoldable pub is_empty {ℓ} : {A : Type ℓ} → List A → Bool
is_empty [] = true
is_empty (_ ∷ _) = false

-- `char::is_ascii_digit`
abbrev pub is_ascii_digit : ℕ → Bool
is_ascii_digit c = leb b'0' c && leb c b'9'

-- `char::to_ascii_lowercase`
abbrev pub to_ascii_lowercase : ℕ → ℕ
to_ascii_lowercase c = if leb b'A' c && leb c b'Z' then c + 32 else c

-- `str::to_ascii_lowercase`
unfoldable pub lowercase : Text → Text
lowercase [] = []
lowercase (c ∷ s) = to_ascii_lowercase c ∷ lowercase s

-- `str::eq_ignore_ascii_case`
unfoldable pub eq_ignore_ascii_case : Text → Text → Bool
unfolding lowercase
eq_ignore_ascii_case s t = list_eq (lowercase s) (lowercase t)

-- `char::is_control`, the category Cc
abbrev pub is_control : ℕ → Bool
is_control c = ltb c 0x20 || leb 0x7f c && leb c 0x9f

-- `char::is_whitespace`, the property White_Space
unfoldable pub is_whitespace : ℕ → Bool
is_whitespace c =
    leb 9 c && leb c 13
    || c == 0x20
    || c == 0x85
    || c == 0xa0
    || c == 0x1680
    || leb 0x2000 c && leb c 0x200a
    || c == 0x2028
    || c == 0x2029
    || c == 0x202f
    || c == 0x205f
    || c == 0x3000

unfoldable pub trim_start : Text → Text
trim_start [] = []
trim_start (c ∷ s) = if is_whitespace c then trim_start s else c ∷ s

unfoldable pub trim_end : Text → Text
trim_end [] = []
trim_end (c ∷ s) =
    let rest = trim_end s in if is_whitespace c && is_empty rest then [] else c ∷ rest

-- `str::trim`
unfoldable pub trim : Text → Text
unfolding trim_start trim_end is_whitespace is_empty
trim s = trim_end (trim_start s)

-- `str::trim_matches` at one character
unfoldable pub strip_start : ℕ → Text → Text
strip_start q [] = []
strip_start q (c ∷ s) = if c == q then strip_start q s else c ∷ s

unfoldable pub strip_end : ℕ → Text → Text
strip_end q [] = []
strip_end q (c ∷ s) = let rest = strip_end q s in if c == q && is_empty rest then [] else c ∷ rest

unfoldable pub trim_matches : ℕ → Text → Text
unfolding strip_start strip_end is_empty
trim_matches q s = strip_end q (strip_start q s)

-- `str::split_once` at one character
unfoldable pub split_once : ℕ → Text → Option (Text × Text)
split_once q [] = none
split_once q (c ∷ s) =
    if c == q then some ([], s) else Option.map (λ p. (c ∷ p.0, p.1)) (split_once q s)

abbrev pub cons_first : ℕ → List Text → List Text
cons_first c [] = (c ∷ []) ∷ []
cons_first c (t ∷ ts) = (c ∷ t) ∷ ts

-- `str::split` at the characters that a test accepts: never the empty list
unfoldable pub split : (ℕ → Bool) → Text → List Text
split p [] = [] ∷ []
split p (c ∷ s) = let rest = split p s in if p c then [] ∷ rest else cons_first c rest

-- `str::contains` at one character
unfoldable pub contains : ℕ → Text → Bool
contains q [] = false
contains q (c ∷ s) = c == q || contains q s

-- The bytes of a scalar value in UTF-8.
abbrev pub utf8_len : ℕ → ℕ
utf8_len c = if ltb c 0x80 then 1 else if ltb c 0x800 then 2 else if ltb c 0x10000 then 3 else 4

-- `s.get(..n)` with the rest `&s[n..]`: `none` where byte `n` is past the end or inside a character.
unfoldable pub split_at_byte : ℕ → Text → Option (Text × Text)
split_at_byte n [] = if n == 0 then some ([], []) else none
split_at_byte n (c ∷ s) =
    if n == 0
    then some ([], c ∷ s)
    else if ltb n (utf8_len c)
    then none
    else Option.map (λ p. (c ∷ p.0, p.1)) (split_at_byte (n - utf8_len c) s)

abbrev pub u32_max : ℕ
u32_max = 0xffff_ffff

abbrev pub u64_max : ℕ
u64_max = 0xffff_ffff_ffff_ffff

abbrev pub digit_value : ℕ → ℕ
digit_value c = c - b'0'

unfoldable pub parse_digits : ℕ → ℕ → Text → Option ℕ
parse_digits most acc [] = some acc
parse_digits most acc (c ∷ s) =
    let next = acc * 10 + digit_value c in
    let rest = parse_digits most next s in if is_ascii_digit c && leb next most then rest else none

-- `str::parse` at an unsigned type whose greatest value is `most`: one leading `+` is accepted.
unfoldable pub parse_uint : ℕ → Text → Option ℕ
unfolding parse_digits
parse_uint most [] = none
parse_uint most (c ∷ []) = parse_digits most 0 (c ∷ [])
parse_uint most (c ∷ d ∷ s) =
    if c == b'+' then parse_digits most 0 (d ∷ s) else parse_digits most 0 (c ∷ d ∷ s)
