-- ===== src/LogSafe.antt =====
-- src/logsafe.rs: user-controlled text on its way into a log.
use comic_stream.Common.{
  ℕ, ◌≤◌, ◌≡◌, refl, false, map, [], ◌∷◌, take, All, All-take, length, length-take, if◌then◌else◌,
  arith, Bool-cases, inl, inr, ap,
}
use comic_stream.Text.{Text, is_control}

abbrev pub max_logged_chars : ℕ
max_logged_chars = 256

abbrev pub mask : ℕ → ℕ
mask c = if is_control c then b'?' else c

unfoldable pub sanitize : Text → Text
sanitize s = take max_logged_chars (map mask s)

abbrev pub IsPrintable : ℕ → Type 0
IsPrintable c = is_control c ≡ false

mask-IsPrintable : (c : ℕ) → IsPrintable (mask c)
mask-IsPrintable c = elim (Bool-cases (is_control c)) [ inl e ↦ rw e refl | inr e ↦ rw (e, e) refl ]

map-mask-IsPrintable : (s : Text) → All IsPrintable (map mask s)
map-mask-IsPrintable [] = tt
map-mask-IsPrintable (c ∷ s) = (mask-IsPrintable c, map-mask-IsPrintable s)

map-mask-id : (s : Text) → All IsPrintable s → map mask s ≡ s
map-mask-id [] _ = refl
map-mask-id (c ∷ s) (h, hs) = rw (h, map-mask-id s hs) refl

-- What is written to the log for any text has no control character, so no line break, and at
-- most 256 characters.
pub sanitize-IsPrintable : (s : Text) → All IsPrintable (sanitize s) × (length (sanitize s) ≤ 256)
unfolding sanitize
sanitize-IsPrintable s = (
  All-take IsPrintable 256 (map mask s) (map-mask-IsPrintable s),
  rw (length-take 256 (map mask s)) (omega arith),
)

-- A text without control characters is written as it is, up to its 256th character.
pub sanitize-printable : (s : Text) → All IsPrintable s → sanitize s ≡ take 256 s
unfolding sanitize
sanitize-printable s h = ap (take 256) (map-mask-id s h)
