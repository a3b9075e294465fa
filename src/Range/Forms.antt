-- ===== src/Range/Forms.antt =====
-- src/routes.rs, `parse_range` on the well-formed single ranges of RFC 7233, and on several ranges.
use comic_stream.Common.{
  ℕ, ◌-◌, ◌≤◌, ◌≡◌, refl, true, false, none, some, arith, [], ◌∷◌, ◌++◌, ltb, leb, ◌==◌, ◌||◌, min,
  if◌then◌else◌, All, All-append, ◌∙◌,
}
use comic_stream.Text.{
  Text, codes, u64_max, is_empty, split_at_byte, eq_ignore_ascii_case, is_whitespace,
}
use comic_stream.Text.Decimal.{show, show-All, parse_uint-show, IsDigit}
use comic_stream.Text.Laws.{
  IsSolid, trim_solid, split_once_first, contains-Lacks, split_at_byte-zero, digits-IsSolid,
  digits-Lacks, is_empty-show,
}
use comic_stream.Range.{
  full, partial, unsatisfiable, suffix_range, end_position, position_range, byte_range, parse_range,
}

unit-IsSolid : All IsSolid (codes "bytes=")
unfolding is_whitespace
unit-IsSolid = (refl, (refl, (refl, (refl, (refl, (refl, tt))))))

cut_unit : (s : Text) → split_at_byte 6 (codes "bytes=" ++ s) ≡ some (codes "bytes=", s)
unfolding split_at_byte
cut_unit s = rw (split_at_byte-zero s)

unit_accepted : eq_ignore_ascii_case (codes "bytes=") (codes "bytes=") ≡ true
unfolding eq_ignore_ascii_case
unit_accepted = refl

-- `bytes=` in front of a text without white space.
parse_range-bytes :
    (s : Text) (len : ℕ)
    → All IsSolid s
    → parse_range (some (codes "bytes=" ++ s)) len ≡ byte_range s len
unfolding parse_range
parse_range-bytes s len h =
    rw
      (
        parse_range,
        trim_solid (codes "bytes=" ++ s) (All-append IsSolid (codes "bytes=") s unit-IsSolid h),
        cut_unit s,
        unit_accepted,
        trim_solid s h,
      )
      refl

dash-IsSolid : IsSolid b'-'
unfolding is_whitespace
dash-IsSolid = refl

-- A dash between two texts of digits, either of which may be empty.
byte_range-dash :
    (f t : Text) (len : ℕ)
    → All IsDigit f
    → All IsDigit t
    → byte_range (f ++ b'-' ∷ t) len
      ≡ (if is_empty f then suffix_range t len else position_range f t len)
unfolding byte_range
byte_range-dash f t len hf ht =
    let no_comma = contains-Lacks b',' (f ++ b'-' ∷ t) (
      All-append (λ c. (c == b',') ≡ false) f (b'-' ∷ t) (digits-Lacks b',' f refl hf)
        (refl, digits-Lacks b',' t refl ht)) in
    rw
      (
        byte_range,
        no_comma,
        split_once_first b'-' f t (digits-Lacks b'-' f refl hf),
        trim_solid f (digits-IsSolid f hf),
        trim_solid t (digits-IsSolid t ht),
      )
      refl

parse_range-dash :
    (f t : Text) (len : ℕ)
    → All IsDigit f
    → All IsDigit t
    → parse_range (some (codes "bytes=" ++ (f ++ b'-' ∷ t))) len
      ≡ (if is_empty f then suffix_range t len else position_range f t len)
parse_range-dash f t len hf ht =
    parse_range-bytes (f ++ b'-' ∷ t) len
      (All-append IsSolid f (b'-' ∷ t) (digits-IsSolid f hf) (dash-IsSolid, digits-IsSolid t ht))
    ∙ byte_range-dash f t len hf ht

position_range-show :
    (a : ℕ) (t : Text) (len : ℕ)
    → a ≤ u64_max
    → position_range (show a) t len ≡ (
        if leb len a then unsatisfiable else elim (end_position t len) [
          | none ↦ full
          | some end ↦ if ltb end a then unsatisfiable else partial a end
        ])
unfolding position_range
position_range-show a t len h = rw (position_range, parse_uint-show u64_max a h) refl

end_position-show : (b len : ℕ) → b ≤ u64_max → end_position (show b) len ≡ some (min b (len - 1))
unfolding end_position
end_position-show b len h = rw (is_empty-show b, parse_uint-show u64_max b h) refl

end_position-nil : (len : ℕ) → end_position [] len ≡ some (len - 1)
unfolding end_position is_empty
end_position-nil len = refl

closed_end :
    (a b len : ℕ)
    → b ≤ u64_max
    → (if leb len a then unsatisfiable else elim (end_position (show b) len) [
      | none ↦ full
      | some end ↦ if ltb end a then unsatisfiable else partial a end
    ])
      ≡ (if leb len a || ltb b a then unsatisfiable else partial a (min b (len - 1)))
closed_end a b len h = rw (end_position-show b len h) (ground arith)

open_end :
    (a len : ℕ)
    → (if leb len a then unsatisfiable else elim (end_position [] len) [
      | none ↦ full
      | some end ↦ if ltb end a then unsatisfiable else partial a end
    ])
      ≡ (if leb len a then unsatisfiable else partial a (len - 1))
open_end a len = rw (end_position-nil len) (ground arith)

suffix_range-show :
    (b len : ℕ)
    → b ≤ u64_max
    → suffix_range (show b) len
      ≡ (if b == 0 || len == 0 then unsatisfiable else partial (len - b) (len - 1))
unfolding suffix_range
suffix_range-show b len h = rw (suffix_range, parse_uint-show u64_max b h) refl

is_empty-nil : is_empty {A = ℕ} [] ≡ true
unfolding is_empty
is_empty-nil = refl

-- The forms `A-B`, `A-` and `-N` for numbers that fit a `u64`: the positions from A to B as far as
-- the file goes, those from A on, and the last N; unsatisfiable where that holds no position.
pub parse_range-forms :
    (a b len : ℕ)
    → a ≤ u64_max
    → b ≤ u64_max
    → (parse_range (some (codes "bytes=" ++ (show a ++ b'-' ∷ show b))) len
        ≡ (if leb len a || ltb b a then unsatisfiable else partial a (min b (len - 1))))
      × (parse_range (some (codes "bytes=" ++ (show a ++ b'-' ∷ []))) len
          ≡ (if leb len a then unsatisfiable else partial a (len - 1)))
      × (parse_range (some (codes "bytes=" ++ b'-' ∷ show b)) len
          ≡ (if b == 0 || len == 0 then unsatisfiable else partial (len - b) (len - 1)))
parse_range-forms a b len ha hb = (
  parse_range-dash (show a) (show b) len (show-All a) (show-All b)
      ∙ rw (is_empty-show a) (position_range-show a (show b) len ha ∙ closed_end a b len hb),
  parse_range-dash (show a) [] len (show-All a) tt
      ∙ rw (is_empty-show a) (position_range-show a [] len ha ∙ open_end a len),
  parse_range-dash [] (show b) len tt (show-All b) ∙ rw is_empty-nil (suffix_range-show b len hb),
)
