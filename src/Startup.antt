-- ===== src/Startup.antt =====
-- src/main.rs: whether authentication is on.
use comic_stream.Common.{◌≡◌, refl, Bool, true, false, not, Option, none, some, [], ◌∷◌}
use comic_stream.Text.{Text, is_empty}
use comic_stream.Auth.{CryptoLib, cred_digest}

module _ (crypto : CryptoLib) where
  open crypto use {Digest}

  -- What the options lead to: authentication with credentials, none, or an error that ends the program.
  pub data AuthSetup : Type 0 where
    enabled : Digest → AuthSetup
    disabled : AuthSetup
    rejected : AuthSetup

  -- The `match` on the user name and the password.
  unfoldable pub auth_setup : Option Text → Option Text → AuthSetup
  unfolding cred_digest
  auth_setup (some (c ∷ u)) (some (d ∷ p)) = enabled (cred_digest crypto (c ∷ u) (d ∷ p))
  auth_setup none none = disabled
  auth_setup (some []) none = disabled
  auth_setup none (some []) = disabled
  auth_setup (some []) (some []) = disabled
  auth_setup (some (c ∷ u)) none = rejected
  auth_setup (some (c ∷ u)) (some []) = rejected
  auth_setup none (some (d ∷ p)) = rejected
  auth_setup (some []) (some (d ∷ p)) = rejected

  -- An option that holds a text that is not empty.
  abbrev pub is_set : Option Text → Bool
  is_set none = false
  is_set (some t) = not (is_empty t)

  abbrev text_of : Option Text → Text
  text_of none = []
  text_of (some t) = t

  -- Both options set turn authentication on with them, none set turns it off, and one alone, with the
  -- other missing or empty, ends the program: a server never starts open when one of them is set.
  abbrev pub Decides : Option Text → Option Text → AuthSetup → Type 0
  Decides u p (enabled d) =
      (is_set u ≡ true) × (is_set p ≡ true) × (d ≡ cred_digest crypto (text_of u) (text_of p))
  Decides u p disabled = (is_set u ≡ false) × (is_set p ≡ false)
  Decides u p rejected = is_set u ≡ not (is_set p)

  pub auth_setup-Decides : (u p : Option Text) → Decides u p (auth_setup u p)
  unfolding auth_setup is_empty
  auth_setup-Decides (some (c ∷ u)) (some (d ∷ p)) = (refl, refl, refl)
  auth_setup-Decides none none = (refl, refl)
  auth_setup-Decides (some []) none = (refl, refl)
  auth_setup-Decides none (some []) = (refl, refl)
  auth_setup-Decides (some []) (some []) = (refl, refl)
  auth_setup-Decides (some (c ∷ u)) none = refl
  auth_setup-Decides (some (c ∷ u)) (some []) = refl
  auth_setup-Decides none (some (d ∷ p)) = refl
  auth_setup-Decides (some []) (some (d ∷ p)) = refl
