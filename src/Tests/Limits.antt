-- ===== src/Tests/Limits.antt =====
-- src/rate_limit.rs and src/auth.rs on concrete calls.
use comic_stream.Common.{
  ℕ, ◌≤◌, ◌<◌, ◌≡◌, refl, none, List, [], ◌∷◌, replicate, ◌++◌, arith, ◌+◌, ◌-◌, if◌then◌else◌, ltb,
}
use comic_stream.Ip.{IpAddr, v4, v6, ip_eq}
use comic_stream.RateLimit.{
  allow, blocked, new, bucket, check_at, insert, retained, verdict, keeps, fresh, fail_entry, roll,
  count, entry_or_fresh, record_failure_at,
}
use comic_stream.RateLimit.Entry.{HasAttempts}
use comic_stream.RateLimit.Events.{
  Event, check, failure, success, IsOrdered, after, after_all, verdicts, ideal_verdicts,
}
use comic_stream.RateLimit.Forgets.{verdicts-new}
use comic_stream.RateLimit.Threshold.{burst-blocked, failures}
use comic_stream.RateLimit.Tally.{allow-new, recent_failures}
use comic_stream.RateLimit.Isolation.{check-own, own}

abbrev here : IpAddr
here = v4 (10 ∷ 0 ∷ 0 ∷ 7 ∷ [])

abbrev there : IpAddr
there = v6 (replicate 16 1)

abbrev calls : List Event
calls =
    failure here 5
    ∷ failure there 6
    ∷ failure here 7
    ∷ check here 8
    ∷ success there 90
    ∷ check here 400
    ∷ []

calls-IsOrdered : IsOrdered 0 calls
calls-IsOrdered =
    (omega arith, (omega arith, (omega arith, (omega arith, (omega arith, (omega arith, tt))))))

verdicts-new_example : verdicts (new 2 60 300) calls ≡ ideal_verdicts (new 2 60 300) calls
verdicts-new_example = verdicts-new 2 60 300 calls (omega arith) (omega arith) calls-IsOrdered

new_two : HasAttempts (new 2 60 300)
unfolding new
new_two = record { positive = omega arith; fits = omega arith }

no_entry : (new 2 60 300).inner (bucket here) ≡ none
unfolding new
no_entry = refl

threshold_two : 2 ≡ (new 2 60 300).max_attempts
unfolding new
threshold_two = refl

in_window : 7 ≤ 5 + (new 2 60 300).window
unfolding new
in_window = omega arith

burst-blocked_example :
    (check_at (after_all (new 2 60 300) (failures here (5 ∷ 7 ∷ []))) here 100).0 ≡ (
      let end = 7 + (new 2 60 300).block_duration in
      if ltb 100 end then blocked (end - 100) else allow)
burst-blocked_example =
    burst-blocked (new 2 60 300) here 5 (7 ∷ []) 100 new_two no_entry (in_window, tt) threshold_two

few : recent_failures here 0 (failure here 5 ∷ failure there 6 ∷ failure here 900 ∷ []) < 3
unfolding recent_failures bucket ip_eq
few = omega arith

allow-new_example :
    (check_at
      (after_all (new 3 60 300) (failure here 5 ∷ failure there 6 ∷ failure here 900 ∷ []))
      here
      901).0
    ≡ allow
allow-new_example =
    allow-new 3 60 300 here 901 (failure here 5 ∷ failure there 6 ∷ failure here 900 ∷ []) few

check-own_example :
    (check_at (after_all (new 2 60 300) calls) here 401).0
    ≡ (check_at (after_all (new 2 60 300) (own here calls)) here 401).0
check-own_example =
    check-own 2 60 300 here 401 calls (omega arith) (omega arith) calls-IsOrdered (omega arith)

abbrev two_failures : List Event
two_failures = failure here 5 ∷ failure here 7 ∷ []

blocks_at_8 : (check_at (after_all (new 2 60 300) two_failures) here 8).0 ≡ blocked 299
unfolding check_at after after_all new bucket record_failure_at fail_entry roll count fresh insert
    entry_or_fresh ip_eq retained verdict keeps
blocks_at_8 = refl

abbrev ones : List ℕ
ones = replicate 16 1

abbrev mixed : List ℕ
mixed = replicate 8 1 ++ replicate 8 2
