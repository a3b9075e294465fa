-- ===== src/RateLimit/Threshold.antt =====
-- src/rate_limit.rs: when an address is blocked, and for how long.
use comic_stream.Common.{
  ℕ, suc, ◌+◌, ◌-◌, ◌≤◌, ◌<◌, ◌≡◌, refl, none, some, arith, List, [], ◌∷◌, length, All, ◌∙◌, ap,
  subst, sym, if◌then◌else◌, ltb,
}
use comic_stream.Ip.{IpAddr, ip_eq_refl}
use comic_stream.RateLimit.{
  IpState, StateMap, Limiter, bucket, insert, retained, verdict, check_at, fresh, fail_entry,
  entry_or_fresh, blocked, allow,
}
use comic_stream.RateLimit.Entry.{HasAttempts}
use comic_stream.RateLimit.Events.{Event, failure, after_all, with_map, failed}
use comic_stream.RateLimit.Forgets.{check_at-with_map, after-map_after}

-- Failures of one address in a row, on its entry.
fail_all : Limiter → IpState → List ℕ → IpState
fail_all l st [] = st
fail_all l st (t ∷ ts) = fail_all l (fail_entry l t st) ts

abbrev pub last_of : ℕ → List ℕ → ℕ
last_of t [] = t
last_of t (u ∷ us) = last_of u us

pub fail_entry_counts :
    (l : Limiter) (st : IpState) (t : ℕ)
    → HasAttempts l
    → st.blocked_until ≡ none
    → t ≤ st.window_start + l.window
    → st.failures_in_window + 1 < l.max_attempts
    → ((fail_entry l t st).blocked_until ≡ none)
      × ((fail_entry l t st).window_start ≡ st.window_start)
      × ((fail_entry l t st).failures_in_window ≡ st.failures_in_window + 1)
unfolding fail_entry
fail_entry_counts l st t a b w n = ground arith

pub fail_entry_blocks :
    (l : Limiter) (st : IpState) (t : ℕ)
    → HasAttempts l
    → st.blocked_until ≡ none
    → t ≤ st.window_start + l.window
    → st.failures_in_window + 1 ≡ l.max_attempts
    → (fail_entry l t st).blocked_until ≡ some (t + l.block_duration)
unfolding fail_entry
fail_entry_blocks l st t a b w n = ground arith

fail_all_blocks :
    (l : Limiter) (st : IpState) (t : ℕ) (ts : List ℕ)
    → HasAttempts l
    → st.blocked_until ≡ none
    → All (λ u. u ≤ st.window_start + l.window) (t ∷ ts)
    → st.failures_in_window + length (t ∷ ts) ≡ l.max_attempts
    → (fail_all l st (t ∷ ts)).blocked_until ≡ some (last_of t ts + l.block_duration)
unfolding fail_all
fail_all_blocks l st t [] a b w n = fail_entry_blocks l st t a b w.0 (omega arith)
fail_all_blocks l st t (u ∷ us) a b w n =
    let (open_, start, counted) = fail_entry_counts l st t a b w.0 (omega arith) in
    fail_all_blocks l (fail_entry l t st) u us a open_
      (subst (λ s. All (λ v. v ≤ s + l.window) (u ∷ us)) (sym start) w.1) (omega arith)

abbrev pub failures : IpAddr → List ℕ → List Event
failures ip [] = []
failures ip (t ∷ ts) = failure ip t ∷ failures ip ts

after_all-fail_all :
    (c : Limiter) (m : StateMap) (ip : IpAddr) (st : IpState) (ts : List ℕ)
    → m (bucket ip) ≡ some st
    → (m' : StateMap) × (after_all (with_map c m) (failures ip ts) ≡ with_map c m')
      × (m' (bucket ip) ≡ some (fail_all c st ts))
unfolding after_all fail_all
after_all-fail_all c m ip st [] e = (m, refl, e)
after_all-fail_all c m ip st (t ∷ ts) e =
    rw (after_all, after-map_after c m (failure ip t))
      (after_all-fail_all c (failed c (bucket ip) t m) ip (fail_entry c t st) ts
        (unfold insert entry_or_fresh in rw (ip_eq_refl (bucket ip), e)))

pub verdict-with_map :
    (c : Limiter) (m : StateMap) (ip : IpAddr) (now t : ℕ) (st : IpState)
    → m (bucket ip) ≡ some st
    → st.blocked_until ≡ some t
    → now < t
    → (check_at (with_map c m) ip now).0 ≡ blocked (t - now)
unfolding verdict retained
verdict-with_map c m ip now t st e b h = rw (check_at-with_map c m ip now, e) (ground arith)

-- An entry's block answers a check until it ends, and no check after that.
verdict_of_block :
    (c : Limiter) (m : StateMap) (ip : IpAddr) (now t : ℕ) (st : IpState)
    → m (bucket ip) ≡ some st
    → st.blocked_until ≡ some t
    → (check_at (with_map c m) ip now).0 ≡ (if ltb now t then blocked (t - now) else allow)
unfolding verdict retained
verdict_of_block c m ip now t st e b = rw (check_at-with_map c m ip now, e) (ground arith)

fresh_blocks :
    (l : Limiter) (t : ℕ) (ts : List ℕ)
    → HasAttempts l
    → All (λ u. u ≤ t + l.window) ts
    → suc (length ts) ≡ l.max_attempts
    → (fail_all l (fail_entry l t (fresh t)) ts).blocked_until
      ≡ some (last_of t ts + l.block_duration)
unfolding fresh fail_all
fresh_blocks l t ts a w n = fail_all_blocks l (fresh t) t ts a refl (omega arith, w) (omega arith)

-- For a threshold that is positive and fits a `u32`: as many failures in a row from an address with
-- no entry, all within `window` of the first, block it from the last one for exactly
-- `block_duration`: whenever it is made, a check answers the time left before that end, and lets the
-- address through from the end on.
pub burst-blocked :
    (l : Limiter) (ip : IpAddr) (t : ℕ) (ts : List ℕ) (now : ℕ)
    → HasAttempts l
    → l.inner (bucket ip) ≡ none
    → All (λ u. u ≤ t + l.window) ts
    → suc (length ts) ≡ l.max_attempts
    → (check_at (after_all l (failures ip (t ∷ ts))) ip now).0 ≡ (
        let end = last_of t ts + l.block_duration in
        if ltb now end then blocked (end - now) else allow)
unfolding after_all
burst-blocked l ip t ts now a e w n =
    let first = failed l (bucket ip) t l.inner in
    let st = fail_entry l t (fresh t) in
    let found : first (bucket ip) ≡ some st =
      unfold insert entry_or_fresh in rw (ip_eq_refl (bucket ip), e) in
    let (m, ran, entry) = after_all-fail_all l first ip st ts found in
    let whole : after_all l (failures ip (t ∷ ts)) ≡ with_map l m =
      ap (λ x. after_all x (failures ip ts)) (after-map_after l l.inner (failure ip t)) ∙ ran in
    ap (λ x. (check_at x ip now).0) whole
    ∙ verdict_of_block l m ip now _ _ entry (fresh_blocks l t ts a w n)

-- A failure during a block does not extend it.
pub fail_entry-blocked_until :
    (l : Limiter) (now t : ℕ) (st : IpState)
    → st.blocked_until ≡ some t
    → now < t
    → (fail_entry l now st).blocked_until ≡ some t
unfolding fail_entry
fail_entry-blocked_until l now t st e h = ground arith
