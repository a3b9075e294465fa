-- ===== src/Tests/Gate.antt =====
-- src/auth.rs on concrete requests, with the test hash and a header map of functions.
use comic_stream.Common.{
  ℕ, ◌+◌, ◌-◌, ◌≤◌, ◌<◌, ◌≡◌, ◌↔◌, refl, Bool, true, false, Option, none, some, List, [], ◌∷◌,
  arith, list_eq, if◌then◌else◌,
}
use comic_stream.Ip.{IpAddr, v4, ip_eq}
use comic_stream.Text.{
  Text, codes, split_at_byte, eq_ignore_ascii_case, lowercase, trim, trim_start, trim_end,
  is_whitespace, split_once, is_empty,
}
use comic_stream.Text.Utf8.{from_utf8, as_bytes, encode}
use comic_stream.Http.{Request, Response}
use comic_stream.Http.Instance.{function_headers}
use comic_stream.PeerIp.{client_ip, client_ip_of}
use comic_stream.RateLimit.{Limiter, new, bucket}
use comic_stream.RateLimit.Entry.{HasAttempts}
use comic_stream.Auth.{cred_digest, verify, presented, payload_of, rate_limited}
use comic_stream.Auth.Verify.{basic_header, IsText, HasNoNul, verify_iff}
use comic_stream.Auth.Gate.{require_basic, failure_entry}
use comic_stream.Auth.Gate.Laws.{failure_entry-password}
use comic_stream.Auth.Gate.Blocked.{Attempt, after_attempts, IsFrom}
use comic_stream.Auth.Gate.BruteForce.{IsGuess, guesses-blocked}
use comic_stream.Tests.Crypto.{shifted}

abbrev client : IpAddr
client = v4 (10 ∷ 0 ∷ 0 ∷ 7 ∷ [])

abbrev pub show_peer : IpAddr × ℕ → Text
show_peer _ = codes "10.0.0.7:5000"

abbrev pub contains : IpAddr → IpAddr → Bool
contains = ip_eq

abbrev pub parse_ip : Text → Option IpAddr
parse_ip _ = none

-- A request with an Authorization header.
abbrev with_header : Option Text → Request
with_header value = record {
  peer = some (client, 5000);
  path = codes "/opds";
  header = λ name. if list_eq name (codes "authorization") then value else none;
}

abbrev pub guess : Request
guess = with_header (some (basic_header shifted (codes "ann") (codes "no")))

abbrev other_guess : Request
other_guess = with_header (some (basic_header shifted (codes "ann") (codes "maybe")))

abbrev pub creds : List ℕ
unfolding cred_digest
creds = cred_digest shifted (codes "ann") (codes "secret")

abbrev page : Request → Response function_headers.HeaderMap
page _ = record { status = 200; headers = function_headers.empty; body = codes "page" }

ann-IsText : IsText (codes "ann")
ann-IsText = (refl, (refl, (refl, tt)))

secret-IsText : IsText (codes "secret")
secret-IsText = (refl, (refl, (refl, (refl, (refl, (refl, tt))))))

no_nul : HasNoNul (codes "secret")
no_nul = (refl, (refl, (refl, (refl, (refl, (refl, tt))))))

verify_iff_example :
    (verify shifted
        (cred_digest shifted (codes "ann") (codes "secret"))
        (some (basic_header shifted (codes "ann") (codes "no")))
      ≡ true)
    ↔ ((codes "ann" ≡ codes "ann") × (codes "no" ≡ codes "secret"))
verify_iff_example =
    verify_iff shifted (λ a b e. e) (codes "ann") (codes "secret") (codes "ann") (codes "no")
      ann-IsText secret-IsText ann-IsText (refl, (refl, tt)) (refl, (refl, (refl, tt))) no_nul
      (refl, (refl, (refl, tt)))

pub guess_refused : verify shifted creds (guess.header (codes "authorization")) ≡ false
unfolding verify presented payload_of split_at_byte eq_ignore_ascii_case lowercase trim trim_start
    trim_end is_whitespace from_utf8 split_once as_bytes encode cred_digest
guess_refused = refl

failure_entry-password_example :
    failure_entry shifted function_headers show_peer guess
    ≡ failure_entry shifted function_headers show_peer other_guess
failure_entry-password_example =
    failure_entry-password shifted function_headers show_peer guess other_guess (codes "ann")
      (codes "no") (codes "maybe") ann-IsText (refl, (refl, tt))
      (refl, (refl, (refl, (refl, (refl, tt))))) (refl, (refl, (refl, tt))) refl refl refl refl

new_two : HasAttempts (new 2 60 300)
unfolding new
new_two = record { positive = omega arith; fits = omega arith }

guess-IsFrom :
    IsFrom shifted function_headers show_peer contains parse_ip creds [] page client guess
unfolding client_ip client_ip_of is_empty bucket
guess-IsFrom = (client, refl, refl)

abbrev at : ℕ → Attempt
at t = record { checked = t; noted = t + 1; req = guess }

at-IsGuess :
    (t : ℕ)
    → 5 ≤ t
    → t ≤ 60
    → IsGuess shifted function_headers show_peer contains parse_ip creds [] page
        (new 2 60 300)
        client
        6
        (at t)
unfolding new
at-IsGuess t h k = record {
  from = guess-IsFrom;
  wrong = guess_refused;
  soon = omega arith;
  begun = omega arith;
  within = omega arith;
}

limits :
    (0 < (new 2 60 300).block_duration)
    × ((new 2 60 300).inner client ≡ none)
    × (2 ≡ (new 2 60 300).max_attempts)
    × (9 < 8 + (new 2 60 300).block_duration)
    × (20 < 8 + (new 2 60 300).block_duration)
    × (99 < 8 + (new 2 60 300).block_duration)
    × (100 < 8 + (new 2 60 300).block_duration)
unfolding new
limits = (omega arith, refl, refl, omega arith, omega arith, omega arith, omega arith)

-- A right password from another address.
abbrev neighbour : Attempt
neighbour = record {
  checked = 20;
  noted = 20;
  req = record (with_header (some (basic_header shifted (codes "ann") (codes "secret")))) {
    peer = some (v4 (10 ∷ 0 ∷ 0 ∷ 8 ∷ []), 5000);
  };
}

abbrev after_two : Limiter
after_two =
    after_attempts shifted function_headers show_peer contains parse_ip creds [] page (new 2 60 300)
      (at 5 ∷ at 7 ∷ [])

-- Two more guesses and another's request while the block lasts.
abbrev after_four : Limiter
after_four =
    after_attempts shifted function_headers show_peer contains parse_ip creds [] page after_two
      (at 9 ∷ neighbour ∷ at 99 ∷ [])

guesses-blocked_example :
    (require_basic shifted function_headers show_peer contains parse_ip creds [] after_four 100 101
      guess page).response
    ≡ rate_limited function_headers (8 + (new 2 60 300).block_duration - 100)
guesses-blocked_example =
    guesses-blocked shifted function_headers show_peer contains parse_ip creds [] page
      (new 2 60 300) client (at 5) (at 7 ∷ []) (at 9 ∷ neighbour ∷ at 99 ∷ []) (at 100) new_two
      limits.0 limits.1 limits.2
      (at-IsGuess 5 (omega arith) (omega arith), (at-IsGuess 7 (omega arith) (omega arith), tt))
      (limits.3, (limits.4, (limits.5, tt))) guess-IsFrom limits.6
