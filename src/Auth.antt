-- ===== src/Auth.antt =====
-- src/auth.rs: HTTP Basic authentication in front of the protected routes.
-- BLAKE3, base64 and the constant-time comparison are external: the fields of `CryptoLib`.
pub mod Verify
pub mod Gate
use comic_stream.Common.{
  ℕ, ◌/◌, ◌≡◌, ◌↔◌, Bool, true, false, Option, none, some, List, [], ◌∷◌, ◌++◌, max, if◌then◌else◌,
  All,
}
use comic_stream.Ip.{IpAddr}
use comic_stream.Text.{Text, codes, split_at_byte, eq_ignore_ascii_case, trim, split_once}
use comic_stream.Text.Decimal.{show}
use comic_stream.Text.Laws.{IsSolid}
use comic_stream.Text.Utf8.{as_bytes, from_utf8}
use comic_stream.Http.{
  HeaderLib, Request, Response, HeaderName, retry_after, cache_control, www_authenticate, vary,
  x_content_type_options,
}

-- `keyed_hash` is BLAKE3's under the fixed key of the file, `digest_eq` is `ct_eq`; `b64_encode` is
-- what a client applies and the program never calls.
pub record CryptoLib : Type 1 where
  pub Digest : Type 0
  pub keyed_hash : List ℕ → Digest
  pub digest_eq : Digest → Digest → Bool
  pub b64_decode : Text → Option (List ℕ)
  pub b64_encode : List ℕ → Text
  pub digest_eq_iff : (a b : Digest) → (digest_eq a b ≡ true) ↔ (a ≡ b)
  pub b64_decode-encode : (bytes : List ℕ) → b64_decode (b64_encode bytes) ≡ some bytes
  pub b64_encode-IsSolid : (bytes : List ℕ) → All IsSolid (b64_encode bytes)

-- The header's payload behind `Basic `, whose case does not matter.
unfoldable pub payload_of : Text → Option Text
payload_of raw = elim (split_at_byte 6 raw) [
  | none ↦ none
  | some (scheme, rest) ↦
      if eq_ignore_ascii_case scheme (codes "Basic ") then some (trim rest) else none
]

infixl 5 ◌>>=◌
abbrev ◌>>=◌ {ℓ κ} : {A : Type ℓ} {B : Type κ} → Option A → (A → Option B) → Option B
none >>= f = none
some a >>= f = f a

module _ (crypto : CryptoLib) where
  open crypto use {Digest, keyed_hash, digest_eq, b64_decode}

  unfoldable pub cred_digest : Text → Text → Digest
  cred_digest user pass = keyed_hash (as_bytes user ++ 0 ∷ as_bytes pass)

  -- The user and the password of a well-formed header.
  unfoldable pub presented : Option Text → Option (Text × Text)
  presented header_value = do
    raw ← header_value
    payload ← payload_of raw
    decoded ← b64_decode payload
    s ← from_utf8 decoded
    split_once b':' s

  unfoldable pub verify : Digest → Option Text → Bool
  verify creds header_value = elim (presented header_value) [
    | none ↦ false
    | some (user, pass) ↦ digest_eq (cred_digest user pass) creds
  ]

  unfoldable pub attempted_username : Option Text → Option Text
  attempted_username header_value = do (user, _) ← presented header_value; some user

module _ (lib : HeaderLib) where
  open lib use {HeaderMap, empty, insert, accepts}

  abbrev realm : Text
  realm = codes "Basic realm=\"ComicStream\""

  unfoldable pub rate_limited : ℕ → Response HeaderMap
  rate_limited wait =
      let secs = show (max (wait / 1_000_000_000) 1) in
      let retry = if accepts secs then insert retry_after secs empty else empty in
      record {
        status = 429;
        headers =
            insert x_content_type_options (codes "nosniff")
              (insert www_authenticate realm (insert cache_control (codes "no-store") retry));
        body = codes "too many failed authentication attempts; try again later\n";
      }

  unfoldable pub unauthorized : Response HeaderMap
  unauthorized = record {
    status = 401;
    headers = insert x_content_type_options (codes "nosniff") (
        insert vary (codes "Authorization")
          (insert cache_control (codes "no-store") (insert www_authenticate realm empty)));
    body = codes "authentication required\n";
  }
