-- ===== src/Range/Bounds.antt =====
-- src/routes.rs, `parse_range`: what it resolves to is inside the file.
use comic_stream.Common.{ℕ, ◌≤◌, ◌<◌, Option, none, some, arith, Option-cases, Bool-cases, inl, inr}
use comic_stream.Text.{
  Text, split_once, contains, trim, is_empty, split_at_byte, eq_ignore_ascii_case, codes,
}
use comic_stream.Range.{
  RangeSpec, full, partial, unsatisfiable, suffix_range, position_range, byte_range, parse_range,
}

-- The first and the last position lie inside the file, in order.
abbrev pub IsWithin : RangeSpec → ℕ → Type 0
IsWithin full len = Unit
IsWithin (partial s e) len = (s ≤ e) × (e < len)
IsWithin unsatisfiable len = Unit

suffix_range-IsWithin : (to : Text) (len : ℕ) → IsWithin (suffix_range to len) len
unfolding suffix_range
suffix_range-IsWithin to len = ground arith

position_range-IsWithin : (from to : Text) (len : ℕ) → IsWithin (position_range from to len) len
unfolding position_range
position_range-IsWithin from to len = ground arith

byte_range-IsWithin : (spec : Text) (len : ℕ) → IsWithin (byte_range spec len) len
unfolding byte_range
byte_range-IsWithin spec len = elim (Bool-cases (contains b',' spec)) [
  | inl several ↦ rw (byte_range, several) tt
  | inr single ↦
      rw (byte_range, single)
        (elim (Option-cases (split_once b'-' spec)) [
          | inl whole ↦ rw whole tt
          | inr ((f, t), parts) ↦ rw parts (elim (Bool-cases (is_empty (trim f))) [
            | inl suffix ↦ rw suffix (suffix_range-IsWithin (trim t) len)
            | inr given ↦ rw given (position_range-IsWithin (trim f) (trim t) len)
          ])
        ])
]

-- Whatever the header and the length: a partial range is not empty and ends inside the file.
pub parse_range-IsWithin : (raw : Option Text) (len : ℕ) → IsWithin (parse_range raw len) len
unfolding parse_range
parse_range-IsWithin none len = tt
parse_range-IsWithin (some raw) len = elim (Option-cases (split_at_byte 6 (trim raw))) [
  | inl short ↦ rw (parse_range, short) tt
  | inr ((unit, rest), cut) ↦
      rw (parse_range, cut)
        (elim (Bool-cases (eq_ignore_ascii_case unit (codes "bytes="))) [
          | inl bytes ↦ rw bytes (byte_range-IsWithin (trim rest) len)
          | inr other ↦ rw other tt
        ])
]
