-- ===== src/Auth/Verify.antt =====
-- src/auth.rs, `verify`: which headers are accepted.
use comic_stream.Common.{
  ℕ, ◌≡◌, refl, ◌↔◌, true, Option, some, List, [], ◌∷◌, ◌++◌, All, arith, sym, ap₂, ◌∙◌, subst,
  All-append,
}
use mathlib.Core.Option
use comic_stream.Text.{Text, codes, split_at_byte, eq_ignore_ascii_case}
use comic_stream.Text.Laws.{IsSolid, Lacks, trim_solid, split_once_first, split_at_byte-zero}
use comic_stream.Text.Utf8.{
  as_bytes, IsScalar, from_utf8-as_bytes, as_bytes-Lacks, as_bytes-injective,
}
use comic_stream.Auth.{CryptoLib, payload_of, cred_digest, presented, verify}

-- The header that RFC 7617 prescribes for a user and a password.
abbrev pub basic_header : CryptoLib → Text → Text → Text
basic_header crypto user pass = codes "Basic " ++ crypto.b64_encode (as_bytes (user ++ b':' ∷ pass))

-- A Rust string; one without NUL, as arguments and environment variables are.
abbrev pub IsText : Text → Type 0
IsText s = All IsScalar s

abbrev pub HasNoNul : List ℕ → Type 0
HasNoNul s = Lacks 0 s

nul_within : (xs ys : List ℕ) → HasNoNul (xs ++ 0 ∷ ys) → ⊥
nul_within [] ys h = ground (arith, h.0)
nul_within (x ∷ xs) ys h = nul_within xs ys h.1

-- The digest's input determines the user and the password if those configured hold no NUL.
split_nul :
    (xs ys us ps : List ℕ)
    → HasNoNul us
    → HasNoNul ps
    → xs ++ 0 ∷ ys ≡ us ++ 0 ∷ ps
    → (xs ≡ us) × (ys ≡ ps)
split_nul [] ys [] ps hu hp e = (refl, cc)
split_nul [] ys (u ∷ us) ps hu hp e =
    let zero_head : u ≡ 0 = cc in absurd (ground (arith, hu.0, zero_head))
split_nul (x ∷ xs) ys [] ps hu hp e =
    let tails : xs ++ 0 ∷ ys ≡ ps = cc in absurd (nul_within xs ys (subst HasNoNul (sym tails) hp))
split_nul (x ∷ xs) ys (u ∷ us) ps hu hp e =
    let tails : xs ++ 0 ∷ ys ≡ us ++ 0 ∷ ps = cc in
    let heads : x ≡ u = cc in
    let (same, rest) = split_nul xs ys us ps hu.1 hp tails in (ap₂ ◌∷◌ heads same, rest)

cut_scheme : (s : Text) → split_at_byte 6 (codes "Basic " ++ s) ≡ some (codes "Basic ", s)
unfolding split_at_byte
cut_scheme s = rw (split_at_byte-zero s)

scheme_accepted : eq_ignore_ascii_case (codes "Basic ") (codes "Basic ") ≡ true
unfolding eq_ignore_ascii_case
scheme_accepted = refl

payload-basic : (s : Text) → All IsSolid s → payload_of (codes "Basic " ++ s) ≡ some s
unfolding payload_of
payload-basic s h = rw (payload_of, cut_scheme s, scheme_accepted, trim_solid s h) refl

module _ (crypto : CryptoLib) where
  open crypto use {Digest, keyed_hash, digest_eq, b64_decode, b64_encode}

  -- What such a header presents, for a user without a colon.
  pub presented-basic :
      (user pass : Text)
      → IsText user
      → IsText pass
      → Lacks b':' user
      → presented crypto (some (basic_header crypto user pass)) ≡ some (user, pass)
  unfolding presented
  presented-basic user pass hu hp colon =
      let s = user ++ b':' ∷ pass in
      let text = All-append IsScalar user (b':' ∷ pass) hu (refl, hp) in
      rw
        (
          presented,
          payload-basic _ (crypto.b64_encode-IsSolid (as_bytes s)),
          crypto.b64_decode-encode (as_bytes s),
          from_utf8-as_bytes s text,
        )
        (split_once_first b':' user pass colon)

  verify-presented :
      (creds : Digest) (header_value : Option Text) {user pass : Text}
      → presented crypto header_value ≡ some (user, pass)
      → verify crypto creds header_value ≡ digest_eq (cred_digest crypto user pass) creds
  unfolding verify
  verify-presented creds header_value e = rw (verify, e) refl

  -- The hash is taken to have no collisions.
  module _ (collision_free : (a b : List ℕ) → keyed_hash a ≡ keyed_hash b → a ≡ b) where
    cred_digest-input :
        (user pass user' pass' : Text)
        → HasNoNul user
        → HasNoNul pass
        → cred_digest crypto user' pass' ≡ cred_digest crypto user pass
        → (as_bytes user' ≡ as_bytes user) × (as_bytes pass' ≡ as_bytes pass)
    unfolding cred_digest
    cred_digest-input user pass user' pass' nu np e =
        split_nul (as_bytes user') (as_bytes pass') (as_bytes user) (as_bytes pass)
          (as_bytes-Lacks 0 (omega arith) user nu) (as_bytes-Lacks 0 (omega arith) pass np)
          (collision_free _ _ e)

    cred_digest-injective :
        (user pass user' pass' : Text)
        → IsText user
        → IsText pass
        → IsText user'
        → IsText pass'
        → HasNoNul user
        → HasNoNul pass
        → cred_digest crypto user' pass' ≡ cred_digest crypto user pass
        → (user' ≡ user) × (pass' ≡ pass)
    cred_digest-injective user pass user' pass' hu hp hu' hp' nu np e =
        let (us, ps) = cred_digest-input user pass user' pass' nu np e in
        (as_bytes-injective user' user hu' hu us, as_bytes-injective pass' pass hp' hp ps)

    -- For credentials without NUL and a hash without collisions: a well-formed header is accepted
    -- exactly if its user, which has no colon, and its password are those configured.
    pub verify_iff :
        (user pass user' pass' : Text)
        → IsText user
        → IsText pass
        → IsText user'
        → IsText pass'
        → HasNoNul user
        → HasNoNul pass
        → Lacks b':' user'
        → (verify crypto (cred_digest crypto user pass) (some (basic_header crypto user' pass'))
            ≡ true)
          ↔ ((user' ≡ user) × (pass' ≡ pass))
    verify_iff user pass user' pass' hu hp hu' hp' nu np colon =
        let shown =
          verify-presented (cred_digest crypto user pass) _
            (presented-basic user' pass' hu' hp' colon) in
        (
          λ e.
              cred_digest-injective user pass user' pass' hu hp hu' hp' nu np
                ((crypto.digest_eq_iff _ _).0 (sym shown ∙ e)),
          λ e. shown ∙ (crypto.digest_eq_iff _ _).1 (ap₂ (cred_digest crypto) e.0 e.1),
        )
