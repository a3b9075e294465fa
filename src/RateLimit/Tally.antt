-- ===== src/RateLimit/Tally.antt =====
-- src/rate_limit.rs: an address is not blocked before its failures reach the threshold.
use comic_stream.Common.{
  ℕ, ◌+◌, ◌≤◌, ◌<◌, ◌≡◌, refl, Option, none, some, arith, List, [], ◌∷◌, max, if◌then◌else◌, inl,
  inr, Bool-cases, subst, sym,
}
use comic_stream.Ip.{IpAddr, ip_eq, ip_eq_iff}
use comic_stream.RateLimit.{
  IpState, StateMap, Limiter, bucket, insert, remove, keeps, retained, verdict, check_at, new,
  fail_entry, entry_or_fresh, allow,
}
use comic_stream.RateLimit.Events.{Event, check, failure, success, after_all, with_map, map_after}
use comic_stream.RateLimit.Forgets.{check_at-with_map, after-map_after}

-- Failures of the bucket of `ip` since its last success; `n` counts those before the calls.
unfoldable pub tally : IpAddr → ℕ → Event → ℕ
tally ip n (check _ _) = n
tally ip n (failure j _) = if ip_eq (bucket ip) (bucket j) then n + 1 else n
tally ip n (success j _) = if ip_eq (bucket ip) (bucket j) then 0 else n

unfoldable pub recent_failures : IpAddr → ℕ → List Event → ℕ
unfolding tally
recent_failures ip n [] = n
recent_failures ip n (e ∷ es) = recent_failures ip (tally ip n e) es

abbrev IsOpen : Option IpState → ℕ → Type 0
IsOpen none n = Unit
IsOpen (some st) n = (st.blocked_until ≡ none) × (st.failures_in_window ≤ n)

fail_entry-IsOpen :
    (c : Limiter) (now n : ℕ) (o : Option IpState)
    → (n < c.max_attempts → IsOpen o n)
    → n + 1 < c.max_attempts
    → IsOpen (some (fail_entry c now (entry_or_fresh now o))) (n + 1)
unfolding fail_entry entry_or_fresh
fail_entry-IsOpen c now n none h k = ground arith
fail_entry-IsOpen c now n (some st) h k = let p = h (omega arith) in ground arith

retained-IsOpen :
    (c : Limiter) (now n : ℕ) (o : Option IpState) → IsOpen o n → IsOpen (retained c now o) n
unfolding retained
retained-IsOpen c now n none h = tt
retained-IsOpen c now n (some st) h = elim (Bool-cases (keeps c now st)) [
  | inl kept ↦ rw kept h
  | inr dropped ↦ rw dropped tt
]

map_after-IsOpen :
    (c : Limiter) (m : StateMap) (ip : IpAddr) (n : ℕ) (e : Event)
    → (n < c.max_attempts → IsOpen (m (bucket ip)) n)
    → tally ip n e < c.max_attempts
    → IsOpen (map_after c m e (bucket ip)) (tally ip n e)
unfolding tally insert remove
map_after-IsOpen c m ip n (check _ now) h k = retained-IsOpen c now n _ (h k)
map_after-IsOpen c m ip n (failure j now) h k = elim (Bool-cases (ip_eq (bucket ip) (bucket j))) [
  | inl same ↦ rw same (
      fail_entry-IsOpen c now n (m (bucket j))
        (subst (λ b. n < c.max_attempts → IsOpen (m b) n) ((ip_eq_iff _ _).0 same) h)
        (rw same at k))
  | inr other ↦ rw other (h (rw other at k))
]
map_after-IsOpen c m ip n (success j now) h k = elim (Bool-cases (ip_eq (bucket ip) (bucket j))) [
  | inl same ↦ rw same tt
  | inr other ↦ rw other (h (rw other at k))
]

allow_of_IsOpen : (now : ℕ) (o : Option IpState) (n : ℕ) → IsOpen o n → verdict now o ≡ allow
unfolding verdict
allow_of_IsOpen now none n h = refl
allow_of_IsOpen now (some st) n h = ground arith

-- A tally that stays below the threshold to the end was below it all along, or was reset.
allow-recent :
    (c : Limiter) (m : StateMap) (ip : IpAddr) (n now : ℕ) (es : List Event)
    → (n < c.max_attempts → IsOpen (m (bucket ip)) n)
    → recent_failures ip n es < c.max_attempts
    → (check_at (after_all (with_map c m) es) ip now).0 ≡ allow
unfolding recent_failures after_all
allow-recent c m ip n now [] h k =
    rw (check_at-with_map c m ip now) (allow_of_IsOpen now _ n (retained-IsOpen c now n _ (h k)))
allow-recent c m ip n now (e ∷ es) h k =
    subst (λ l. (check_at (after_all l es) ip now).0 ≡ allow) (sym (after-map_after c m e))
      (allow-recent c (map_after c m e) ip (tally ip n e) now es (map_after-IsOpen c m ip n e h) k)

-- However the calls fall in time, an address whose bucket has had fewer failures since its last
-- success than the threshold is let through.
pub allow-new :
    (attempts window block_duration : ℕ) (ip : IpAddr) (now : ℕ) (es : List Event)
    → recent_failures ip 0 es < max attempts 1
    → (check_at (after_all (new attempts window block_duration) es) ip now).0 ≡ allow
unfolding new
allow-new attempts window block_duration ip now es h =
    allow-recent (new attempts window block_duration) (λ _. none) ip 0 now es (λ _. tt) h
