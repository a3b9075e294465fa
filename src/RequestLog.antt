-- ===== src/RequestLog.antt =====
-- src/routes.rs, `log_request`, `display_header_value` and `is_sensitive_header`: the line that is logged for
-- a request when the log of requests is on.
use comic_stream.Common.{
  arith, ◌≡◌, refl, ap, ap₂, Bool, false, ◌||◌, Option, none, some, List, [], ◌∷◌, ◌++◌, map, All,
  All-append, if◌then◌else◌, list_eq, Bool-cases, inl, inr,
}
use comic_stream.Text.{Text, codes}
use comic_stream.LogSafe.{IsPrintable, sanitize, sanitize-IsPrintable}

-- A header of a request: its name, which the `http` package keeps in lower case, and its value, if
-- that is visible ASCII (`to_str`).
pub record Header : Type 0 where
  pub name : Text
  pub value : Option Text

unfoldable pub is_sensitive_header : Text → Bool
is_sensitive_header name =
    list_eq name (codes "authorization")
    || list_eq name (codes "proxy-authorization")
    || list_eq name (codes "cookie")
    || list_eq name (codes "set-cookie")

abbrev or_binary : Option Text → Text
or_binary none = codes "<binary>"
or_binary (some t) = t

unfoldable pub display_header_value : Header → Text
unfolding is_sensitive_header sanitize
display_header_value h =
    if is_sensitive_header h.name then codes "<redacted>" else sanitize (or_binary h.value)

-- `{}={}`
abbrev pub shown : Header → Text
shown h = h.name ++ b'=' ∷ display_header_value h

-- `headers.join(" | ")`
abbrev pub joined : List Text → Text
joined [] = []
joined (t ∷ []) = t
joined (t ∷ u ∷ ts) = t ++ (codes " | " ++ joined (u ∷ ts))

-- The headers that `log_request` writes.
unfoldable pub log_request : List Header → Text
unfolding display_header_value
log_request headers = joined (map shown headers)

-- The headers that carry credentials and cookies.
abbrev pub secret_names : List Text
secret_names =
    codes "authorization" ∷ codes "proxy-authorization" ∷ codes "cookie" ∷ codes "set-cookie" ∷ []

-- A header by another name.
abbrev pub IsPublic : Text → Type 0
IsPublic name = All (λ secret. list_eq name secret ≡ false) secret_names

-- Two requests whose headers differ in the values of these alone.
abbrev pub SameButSecrets : List Header → List Header → Type 0
SameButSecrets [] [] = Unit
SameButSecrets (h ∷ hs) (k ∷ ks) =
    (h.name ≡ k.name) × (IsPublic h.name → h.value ≡ k.value) × SameButSecrets hs ks
SameButSecrets [] (k ∷ ks) = ⊥
SameButSecrets (h ∷ hs) [] = ⊥

none_of :
    (a b c d : Bool)
    → (a || b || c || d) ≡ false
    → (a ≡ false) × (b ≡ false) × (c ≡ false) × (d ≡ false)
none_of a b c d e = ground (arith, e)

sensitive-IsPublic : (name : Text) → is_sensitive_header name ≡ false → IsPublic name
unfolding is_sensitive_header
sensitive-IsPublic name e =
    let (a, b, c, d) =
      none_of (list_eq name (codes "authorization")) (list_eq name (codes "proxy-authorization"))
        (list_eq name (codes "cookie")) (list_eq name (codes "set-cookie")) e in
    (a, (b, (c, (d, tt))))

display-same :
    (h k : Header) → h.name ≡ k.name → (IsPublic h.name → h.value ≡ k.value) → shown h ≡ shown k
unfolding display_header_value
display-same h k same value = elim (Bool-cases (is_sensitive_header h.name)) [
  | inl secret ↦ rw (display_header_value, secret, ← same, secret) refl
  | inr open_text ↦
      rw
        (
          display_header_value,
          open_text,
          ← same,
          open_text,
          value (sensitive-IsPublic h.name open_text),
        )
        refl
]

shown-same : (hs ks : List Header) → SameButSecrets hs ks → map shown hs ≡ map shown ks
shown-same [] [] s = refl
shown-same (h ∷ hs) (k ∷ ks) (same, value, rest) =
    ap₂ ◌∷◌ (display-same h k same value) (shown-same hs ks rest)
shown-same [] (k ∷ ks) s = absurd s
shown-same (h ∷ hs) [] s = absurd s

-- The log of requests does not tell secrets: requests that differ in their credentials or cookies alone
-- leave the same line.
pub log_request-secrets :
    (hs ks : List Header) → SameButSecrets hs ks → log_request hs ≡ log_request ks
unfolding log_request
log_request-secrets hs ks s = ap joined (shown-same hs ks s)

display-IsPrintable : (h : Header) → All IsPrintable (display_header_value h)
unfolding display_header_value
display-IsPrintable h = elim (Bool-cases (is_sensitive_header h.name)) [
  | inl secret ↦ rw (display_header_value, secret) redacted
  | inr open_text ↦
      rw (display_header_value, open_text) (sanitize-IsPrintable (or_binary h.value)).0
]
  where
    redacted : All IsPrintable (codes "<redacted>")
    redacted = (refl, (refl, (refl, (refl, (refl, (refl, (refl, (refl, (refl, (refl, tt))))))))))

joined-IsPrintable : (ts : List Text) → All (All IsPrintable) ts → All IsPrintable (joined ts)
joined-IsPrintable [] h = tt
joined-IsPrintable (t ∷ []) h = h.0
joined-IsPrintable (t ∷ u ∷ ts) h = All-append IsPrintable t (codes " | " ++ joined (u ∷ ts)) h.0 (
    All-append IsPrintable (codes " | ") (joined (u ∷ ts)) (refl, (refl, (refl, tt)))
      (joined-IsPrintable (u ∷ ts) h.1))

-- Whatever the values of the headers are, the line has no control character, so no line break, where
-- their names have none.
pub log_request-IsPrintable :
    (hs : List Header) → All (λ h. All IsPrintable h.name) hs → All IsPrintable (log_request hs)
unfolding log_request
log_request-IsPrintable hs names = joined-IsPrintable (map shown hs) (every hs names)
  where
    every :
        (hs : List Header)
        → All (λ h. All IsPrintable h.name) hs
        → All (All IsPrintable) (map shown hs)
    every [] names = tt
    every (h ∷ hs) names = (
      All-append IsPrintable h.name (b'=' ∷ display_header_value h) names.0
          (refl, display-IsPrintable h),
      every hs names.1,
    )
