-- ===== src/Tests/Crypto.antt =====
-- A hash, an equality and an encoding that meet the interface `CryptoLib`, for the tests: the hash
-- is the text itself, the encoding shifts each byte out of the white space.
use comic_stream.Common.{
  ℕ, ◌+◌, ◌-◌, ◌≡◌, refl, false, some, List, [], ◌∷◌, map, All, arith, list_eq, list_eq_iff, ap,
  ap₂,
}
use comic_stream.Text.{is_whitespace}
use comic_stream.Text.Laws.{IsSolid}
use comic_stream.Auth.{CryptoLib}

pub encode_byte-IsSolid : (b : ℕ) → is_whitespace (b + 0x10000) ≡ false
unfolding is_whitespace
encode_byte-IsSolid b = ground arith

pub encode-IsSolid : (bytes : List ℕ) → All IsSolid (map (λ b. b + 0x10000) bytes)
encode-IsSolid [] = tt
encode-IsSolid (b ∷ bytes) = (encode_byte-IsSolid b, encode-IsSolid bytes)

pub decode-encode : (bytes : List ℕ) → map (λ c. c - 0x10000) (map (λ b. b + 0x10000) bytes) ≡ bytes
decode-encode [] = refl
decode-encode (b ∷ bytes) = ap₂ ◌∷◌ (omega arith) (decode-encode bytes)

abbrev pub shifted : CryptoLib
shifted = record {
  Digest = List ℕ;
  keyed_hash = λ bytes. bytes;
  digest_eq = list_eq;
  b64_decode = λ text. some (map (λ c. c - 0x10000) text);
  b64_encode = λ bytes. map (λ b. b + 0x10000) bytes;
  digest_eq_iff = list_eq_iff;
  b64_decode-encode = λ bytes. ap some (decode-encode bytes);
  b64_encode-IsSolid = encode-IsSolid;
}
