-- ===== src/Auth/Gate.antt =====
-- src/auth.rs, `require_basic`: the middleware of every protected route, with the rate limiter's
-- state passed through.
pub mod Laws
pub mod Blocked
pub mod BruteForce
use comic_stream.Common.{ℕ, Bool, Option, none, some, List, [], ◌∷◌, if◌then◌else◌}
use mathlib.Core.Option
use comic_stream.Ip.{IpAddr}
use comic_stream.Text.{Text, codes}
use comic_stream.Http.{HeaderLib, Request, Response}
use comic_stream.PeerIp.{client_ip}
use comic_stream.RateLimit.{
  Limiter, Verdict, allow, blocked, check_at, record_failure_at, record_success,
}
use comic_stream.LogSafe.{sanitize}
use comic_stream.Auth.{CryptoLib, verify, attempted_username, rate_limited, unauthorized}

-- The fields of the warning about a failed attempt.
pub record LogEntry : Type 0 where
  pub peer : Text
  pub path : Text
  pub attempted_user : Text
  pub reason : Text

pub record Outcome (H : Type 0) : Type 0 where
  pub limiter : Limiter
  pub response : Response H
  pub log : List LogEntry

-- The limiter is asked only if the client's address is known.
unfoldable pub check_client : Option IpAddr → Limiter → ℕ → Verdict × Limiter
check_client none l now = (allow, l)
check_client (some ip) l now = check_at l ip now

unfoldable pub client_success : Option IpAddr → Limiter → Limiter
client_success none l = l
client_success (some ip) l = record_success l ip

unfoldable pub client_failure : Option IpAddr → Limiter → ℕ → Limiter
client_failure none l now = l
client_failure (some ip) l now = record_failure_at l ip now

abbrev reason_of : Option Text → Text
reason_of none = codes "missing credentials"
reason_of (some _) = codes "invalid credentials"

abbrev text_or : Text → Option Text → Text
text_or default none = default
text_or default (some t) = t

module _ (crypto : CryptoLib) (lib : HeaderLib) where
  open crypto use {Digest}
  open lib use {HeaderMap}

  module _ (show_peer : IpAddr × ℕ → Text) where
    unfoldable pub failure_entry : Request → LogEntry
    failure_entry req =
        let header_value = req.header (codes "authorization") in
        record {
          peer = text_or (codes "<unknown>") (Option.map show_peer req.peer);
          path = req.path;
          attempted_user =
              text_or (codes "<none>")
                (Option.map sanitize (attempted_username crypto header_value));
          reason = reason_of header_value;
        }

    -- What follows a check that let the request through; `now` is read when the failure is noted.
    unfoldable pub authenticate :
        Digest
        → Option IpAddr
        → Limiter
        → ℕ
        → Request
        → (Request → Response HeaderMap)
        → Outcome HeaderMap
    unfolding client_success client_failure failure_entry
    authenticate creds ip l now req next =
        if verify crypto creds (req.header (codes "authorization"))
        then record { limiter = client_success ip l; response = next req; log = [] }
        else record {
          limiter = client_failure ip l now;
          response = unauthorized lib;
          log = failure_entry req ∷ [];
        }

    module _ {Net : Type 0} (contains : Net → IpAddr → Bool) (parse_ip : Text → Option IpAddr) where
      -- `checked` and `noted` are the times that `check` and `record_failure` read.
      unfoldable pub require_basic :
          Digest
          → List Net
          → Limiter
          → ℕ
          → ℕ
          → Request
          → (Request → Response HeaderMap)
          → Outcome HeaderMap
      unfolding check_client authenticate
      require_basic creds trusted l checked noted req next =
          let ip = client_ip contains parse_ip trusted req in
          let (verdict, l') = check_client ip l checked in
          elim verdict [
            | allow ↦ authenticate creds ip l' noted req next
            | blocked wait ↦ record { limiter = l'; response = rate_limited lib wait; log = [] }
          ]
