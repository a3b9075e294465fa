-- ===== src/Range.antt =====
-- src/routes.rs: `Range` headers, and the files that are streamed to a client.
pub mod Bounds
pub mod Resume
pub mod Forms
use comic_stream.Common.{
  ℕ, ◌+◌, ◌-◌, Bool, true, false, ◌||◌, Option, none, some, List, ◌++◌, ltb, leb, ◌==◌, min,
  if◌then◌else◌, length, take, drop,
}
use comic_stream.Text.{
  Text, codes, trim, split_at_byte, eq_ignore_ascii_case, contains, split_once, is_empty,
  parse_uint, u64_max,
}
use comic_stream.Text.Decimal.{show}
use comic_stream.Http.{
  HeaderLib, Response, Result, ok, err, ◌>>=◌, Outside, or_internal, content_type, content_length,
  content_range, accept_ranges, content_type_value, apply_immutable_response_headers,
}

pub data RangeSpec : Type 0 where
  full : RangeSpec
  partial : ℕ → ℕ → RangeSpec
  unsatisfiable : RangeSpec

-- The suffix form `-N`: the last N bytes.
unfoldable pub suffix_range : Text → ℕ → RangeSpec
suffix_range to len = elim (parse_uint u64_max to) [
  | none ↦ full
  | some n ↦ if n == 0 || len == 0 then unsatisfiable else partial (len - n) (len - 1)
]

-- The last position of the form `A-` or `A-B`, `none` where B is malformed.
unfoldable pub end_position : Text → ℕ → Option ℕ
end_position to len =
    if is_empty to
    then some (len - 1)
    else elim (parse_uint u64_max to) [ none ↦ none | some e ↦ some (min e (len - 1)) ]

unfoldable pub position_range : Text → Text → ℕ → RangeSpec
unfolding end_position
position_range from to len = elim (parse_uint u64_max from) [
  | none ↦ full
  | some start ↦ if leb len start then unsatisfiable else elim (end_position to len) [
    | none ↦ full
    | some end ↦ if ltb end start then unsatisfiable else partial start end
  ]
]

-- What stands behind `bytes=`.
unfoldable pub byte_range : Text → ℕ → RangeSpec
unfolding suffix_range position_range
byte_range spec len = if contains b',' spec then full else elim (split_once b'-' spec) [
  | none ↦ full
  | some (f, t) ↦
      if is_empty (trim f) then suffix_range (trim t) len else position_range (trim f) (trim t) len
]

unfoldable pub parse_range : Option Text → ℕ → RangeSpec
unfolding byte_range
parse_range none len = full
parse_range (some raw) len = elim (split_at_byte 6 (trim raw)) [
  | none ↦ full
  | some (unit, rest) ↦
      if eq_ignore_ascii_case unit (codes "bytes=") then byte_range (trim rest) len else full
]

module _ (lib : HeaderLib) where
  open lib use {HeaderMap, empty, insert, remove, accepts}

  -- `if let Ok(v) = HeaderValue::from_str(…) { headers.insert(CONTENT_RANGE, v); }`
  unfoldable pub insert_content_range : Text → HeaderMap → HeaderMap
  insert_content_range value headers =
      if accepts value then insert content_range value headers else headers

  -- The streamed body is the list of the file's bytes from the position of the handle. `opened` is
  -- what opening the file and reading its length answers, `seek` what `file.seek` does.
  unfoldable pub serve_file : Outside (List ℕ) → Text → Result (Response HeaderMap)
  unfolding content_type_value apply_immutable_response_headers
  serve_file opened mime = do
    file ← or_internal opened
    let len = length file
    ok (record {
      status = 200;
      headers = apply_immutable_response_headers lib (
          insert content_length (show len)
            (insert content_type (content_type_value lib mime) empty));
      body = file;
    })

  unfoldable pub partial_response : ℕ → ℕ → List ℕ → HeaderMap → Response HeaderMap
  unfolding insert_content_range
  partial_response start end file headers =
      let count = end - start + 1 in
      let value =
        codes "bytes "
        ++ (show start ++ (codes "-" ++ (show end ++ (codes "/" ++ show (length file))))) in
      record {
        status = 206;
        headers = insert content_length (show count) (insert_content_range value headers);
        body = take count (drop start file);
      }

  unfoldable pub respond :
      RangeSpec → List ℕ → (ℕ → Outside (Unit {0})) → HeaderMap → Result (Response HeaderMap)
  unfolding insert_content_range partial_response
  respond full file seek headers = ok (record {
    status = 200;
    headers = insert content_length (show (length file)) headers;
    body = file;
  })
  respond (partial start end) file seek headers = do
    _ ← or_internal (seek start)
    ok (partial_response start end file headers)
  respond unsatisfiable file seek headers = ok (record {
    status = 416;
    headers =
        insert_content_range (codes "bytes */" ++ show (length file)) (remove content_type headers);
    body = codes "";
  })

  unfoldable pub serve_file_with_range :
      Outside (List ℕ) → (ℕ → Outside (Unit {0})) → Text → Option Text → Result (Response HeaderMap)
  unfolding respond parse_range content_type_value apply_immutable_response_headers
  serve_file_with_range opened seek mime range = do
    file ← or_internal opened
    respond (parse_range range (length file)) file seek (
        apply_immutable_response_headers lib (
          insert accept_ranges (codes "bytes")
            (insert content_type (content_type_value lib mime) empty)))
