-- ===== src/RateLimit/Entry.antt =====
-- src/rate_limit.rs, one entry of the map: what is kept of it over time, and when it is forgotten.
use comic_stream.Common.{ℕ, ◌+◌, ◌≤◌, ◌<◌, ◌≡◌, false, Option, none, some, arith}
use comic_stream.RateLimit.{IpState, Limiter, keeps, fresh, fail_entry, verdict, blocked, allow}
use comic_stream.Text.{u32_max}

abbrev pub BlockedWithin : Option ℕ → ℕ → Type 0
BlockedWithin none b = Unit
BlockedWithin (some t) b = t ≤ b

abbrev pub BelowUnlessBlocked : Option ℕ → ℕ → ℕ → Type 0
BelowUnlessBlocked none n m = n < m
BelowUnlessBlocked (some t) n m = Unit

-- What holds of every entry at time `now`, the clock having run forward.
pub record IsEntry (l : Limiter) (now : ℕ) (st : IpState) : Type 0 where
  pub started : st.window_start ≤ st.last_seen
  pub seen : st.last_seen ≤ now
  pub bounded : BlockedWithin st.blocked_until (st.last_seen + l.block_duration)
  pub below : BelowUnlessBlocked st.blocked_until st.failures_in_window l.max_attempts

-- `max_attempts` is a `u32` of at least 1, as `new` makes it.
pub record HasAttempts (l : Limiter) : Type 0 where
  pub positive : 1 ≤ l.max_attempts
  pub fits : l.max_attempts ≤ u32_max

pub fresh-IsEntry : (l : Limiter) (now : ℕ) → HasAttempts l → IsEntry l now (fresh now)
unfolding fresh
fresh-IsEntry l now a = ground arith

pub IsEntry-later :
    (l : Limiter) (now later : ℕ) (st : IpState)
    → now ≤ later
    → IsEntry l now st
    → IsEntry l later st
IsEntry-later l now later st h v = record {
  started = v.started;
  seen = omega arith;
  bounded = v.bounded;
  below = v.below;
}

pub fail_entry-IsEntry :
    (l : Limiter) (now : ℕ) (st : IpState)
    → HasAttempts l
    → IsEntry l now st
    → IsEntry l now (fail_entry l now st)
unfolding fail_entry
fail_entry-IsEntry l now st a v = ground arith

-- An entry that `gc` drops is one that the next failure would start afresh.
pub fail_entry_of_dropped :
    (l : Limiter) (now later : ℕ) (st : IpState)
    → 0 < l.block_duration
    → now ≤ later
    → IsEntry l now st
    → keeps l now st ≡ false
    → fail_entry l later st ≡ fail_entry l later (fresh later)
unfolding fail_entry keeps fresh
fail_entry_of_dropped l now later st p h v dropped = ground arith

-- It blocks nobody, then or later, and stays dropped.
pub verdict_of_dropped :
    (l : Limiter) (now later : ℕ) (st : IpState)
    → now ≤ later
    → keeps l now st ≡ false
    → verdict later (some st) ≡ allow
unfolding verdict keeps
verdict_of_dropped l now later st h dropped = ground arith

pub keeps_later :
    (l : Limiter) (now later : ℕ) (st : IpState)
    → now ≤ later
    → keeps l now st ≡ false
    → keeps l later st ≡ false
unfolding keeps
keeps_later l now later st h dropped = ground arith

-- A block lasts for `block_duration` at most, and is never over when it is reported.
pub verdict_bounds :
    (l : Limiter) (now wait : ℕ) (st : IpState)
    → IsEntry l now st
    → verdict now (some st) ≡ blocked wait
    → (0 < wait) × (wait ≤ l.block_duration)
unfolding verdict
verdict_bounds l now wait st v e = ground arith
