-- ===== src/Auth/Gate/Laws.antt =====
-- src/auth.rs, `require_basic`: nothing passes without the credentials, and what is logged.
use comic_stream.Common.{
  ℕ, ◌≡◌, refl, Bool, false, Option, some, List, [], ◌∷◌, ◌⊎◌, inl, inr, sym, ◌∙◌,
}
use comic_stream.Ip.{IpAddr}
use comic_stream.Text.{Text, codes}
use comic_stream.Text.Laws.{Lacks}
use comic_stream.Http.{HeaderLib, Request, Response}
use comic_stream.PeerIp.{client_ip}
use comic_stream.RateLimit.{Limiter, Verdict, allow, blocked}
use comic_stream.Auth.{CryptoLib, verify, attempted_username, rate_limited, unauthorized}
use comic_stream.Auth.Verify.{basic_header, IsText, presented-basic}
use comic_stream.Auth.Gate.{
  Outcome, check_client, client_failure, failure_entry, authenticate, require_basic,
}

pub Verdict-cases : (v : Verdict) → (v ≡ allow) ⊎ ((wait : ℕ) × (v ≡ blocked wait))
Verdict-cases allow = inl refl
Verdict-cases (blocked wait) = inr (wait, refl)

module _ (crypto : CryptoLib) (lib : HeaderLib) (show_peer : IpAddr × ℕ → Text) where
  open crypto use {Digest}
  open lib use {HeaderMap}

  pub authenticate-refused :
      (creds : Digest) (ip : Option IpAddr) (l : Limiter) (now : ℕ) (req : Request)
      (next : Request → Response HeaderMap)
      → verify crypto creds (req.header (codes "authorization")) ≡ false
      → authenticate crypto lib show_peer creds ip l now req next ≡ record {
        limiter = client_failure ip l now;
        response = unauthorized lib;
        log = failure_entry crypto lib show_peer req ∷ [];
      }
  unfolding authenticate
  authenticate-refused creds ip l now req next h = rw (authenticate, h) refl

  module _ {Net : Type 0} (contains : Net → IpAddr → Bool) (parse_ip : Text → Option IpAddr) where
    abbrev pub gate :
        Digest
        → List Net
        → Limiter
        → ℕ
        → ℕ
        → Request
        → (Request → Response HeaderMap)
        → Outcome HeaderMap
    gate = require_basic crypto lib show_peer contains parse_ip

    pub require_basic-allowed :
        (creds : Digest) (trusted : List Net) (l : Limiter) (checked noted : ℕ) (req : Request)
        (next : Request → Response HeaderMap)
        → (check_client (client_ip contains parse_ip trusted req) l checked).0 ≡ allow
        → gate creds trusted l checked noted req next
          ≡ authenticate crypto lib show_peer creds
              (client_ip contains parse_ip trusted req)
              (check_client (client_ip contains parse_ip trusted req) l checked).1
              noted
              req
              next
    unfolding require_basic
    require_basic-allowed creds trusted l checked noted req next e = rw (require_basic, e) refl

    pub require_basic-blocked :
        (creds : Digest) (trusted : List Net) (l : Limiter) (checked noted wait : ℕ) (req : Request)
        (next : Request → Response HeaderMap)
        → (check_client (client_ip contains parse_ip trusted req) l checked).0 ≡ blocked wait
        → gate creds trusted l checked noted req next ≡ record {
          limiter = (check_client (client_ip contains parse_ip trusted req) l checked).1;
          response = rate_limited lib wait;
          log = [];
        }
    unfolding require_basic
    require_basic-blocked creds trusted l checked noted wait req next e = rw (require_basic, e) refl

    -- Without the credentials the handler is not consulted: the outcome is the same for any two.
    pub require_basic-refused :
        (creds : Digest) (trusted : List Net) (l : Limiter) (checked noted : ℕ) (req : Request)
        (next other : Request → Response HeaderMap)
        → verify crypto creds (req.header (codes "authorization")) ≡ false
        → (gate creds trusted l checked noted req next
            ≡ gate creds trusted l checked noted req other)
          × (((gate creds trusted l checked noted req next).response.status ≡ 401)
              ⊎ ((gate creds trusted l checked noted req next).response.status ≡ 429))
    require_basic-refused creds trusted l checked noted req next other h =
        elim (Verdict-cases (check_client (client_ip contains parse_ip trusted req) l checked).0) [
          | inr (wait, e) ↦
              let p = require_basic-blocked creds trusted l checked noted wait req next e in
              let q = require_basic-blocked creds trusted l checked noted wait req other e in
              (p ∙ sym q, inr (unfold rate_limited in rw p refl))
          | inl e ↦
              let p =
                require_basic-allowed creds trusted l checked noted req next e
                ∙ authenticate-refused creds _ _ noted req next h in
              let q =
                require_basic-allowed creds trusted l checked noted req other e
                ∙ authenticate-refused creds _ _ noted req other h in
              (p ∙ sym q, inl (unfold unauthorized in rw p refl))
        ]

  -- Two requests with well-formed headers that differ in the password alone, for a user without a
  -- colon, leave the same entry in the log.
  pub failure_entry-password :
      (req req' : Request) (user pass pass' : Text)
      → IsText user
      → IsText pass
      → IsText pass'
      → Lacks b':' user
      → req.header (codes "authorization") ≡ some (basic_header crypto user pass)
      → req'.header (codes "authorization") ≡ some (basic_header crypto user pass')
      → req.peer ≡ req'.peer
      → req.path ≡ req'.path
      → failure_entry crypto lib show_peer req ≡ failure_entry crypto lib show_peer req'
  unfolding failure_entry attempted_username
  failure_entry-password req req' user pass pass' hu hp hp' colon h h' same_peer same_path =
      rw
        (
          failure_entry,
          h,
          h',
          same_peer,
          same_path,
          presented-basic crypto user pass hu hp colon,
          presented-basic crypto user pass' hu hp' colon,
        )
        refl
