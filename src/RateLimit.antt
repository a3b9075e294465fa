-- ===== src/RateLimit.antt =====
-- src/rate_limit.rs: the limiter of failed authentication attempts.
-- An `Instant` is a number of nanoseconds since an origin, a `Duration` a number of nanoseconds;
-- `duration_since` stops at 0 as `-` does. The hash map behind the mutex is a function from keys;
-- a method returns the limiter that it leaves.
pub mod Entry
pub mod Events
pub mod Forgets
pub mod Threshold
pub mod Tally
pub mod Isolation
use comic_stream.Common.{
  ℕ, ◌+◌, ◌-◌, Bool, true, Option, none, some, ◌++◌, take, replicate, ltb, leb, min, max,
  if◌then◌else◌,
}
use comic_stream.Ip.{IpAddr, v4, v6, ip_eq}
use comic_stream.Text.{u32_max}

-- IPv6 addresses are keyed by their /64 prefix, IPv4 addresses exactly.
unfoldable pub bucket : IpAddr → IpAddr
bucket (v4 octets) = v4 octets
bucket (v6 octets) = v6 (take 8 octets ++ replicate 8 0)

pub data Verdict : Type 0 where
  allow : Verdict
  blocked : ℕ → Verdict

pub record IpState : Type 0 where
  pub window_start : ℕ
  pub failures_in_window : ℕ
  pub blocked_until : Option ℕ
  pub last_seen : ℕ

abbrev pub StateMap : Type 0
StateMap = IpAddr → Option IpState

pub record Limiter : Type 0 where
  pub inner : StateMap
  pub max_attempts : ℕ
  pub window : ℕ
  pub block_duration : ℕ

unfoldable pub new : ℕ → ℕ → ℕ → Limiter
new max_attempts window block_duration = record {
  inner = λ _. none;
  max_attempts = max max_attempts 1;
  window = window;
  block_duration = block_duration;
}

unfoldable pub insert : IpAddr → IpState → StateMap → StateMap
insert ip st m = λ k. if ip_eq k ip then some st else m k

unfoldable pub remove : IpAddr → StateMap → StateMap
remove ip m = λ k. if ip_eq k ip then none else m k

-- The test of `retain` in `gc`.
unfoldable pub keeps : Limiter → ℕ → IpState → Bool
keeps l now st =
    let recent = ltb (now - st.last_seen) (l.window + l.block_duration) in
    elim st.blocked_until [ none ↦ recent | some t ↦ if ltb now t then true else recent ]

unfoldable pub retained : Limiter → ℕ → Option IpState → Option IpState
unfolding keeps
retained l now none = none
retained l now (some st) = if keeps l now st then some st else none

unfoldable pub gc : Limiter → ℕ → Limiter
unfolding retained
gc l now = record l { inner = λ k. retained l now (l.inner k) }

-- The `match` of `check_at` on the entry that was found.
unfoldable pub verdict : ℕ → Option IpState → Verdict
verdict now none = allow
verdict now (some st) = elim st.blocked_until [
  | none ↦ allow
  | some t ↦ if ltb now t then blocked (t - now) else allow
]

unfoldable pub check_at : Limiter → IpAddr → ℕ → Verdict × Limiter
unfolding gc verdict
check_at l ip now = let l' = gc l now in (verdict now (l'.inner (bucket ip)), l')

-- The entry that `or_insert_with` makes.
unfoldable pub fresh : ℕ → IpState
fresh now = record {
  window_start = now;
  failures_in_window = 0;
  blocked_until = none;
  last_seen = now;
}

-- Roll the window if the previous one is stale.
unfoldable pub roll : Limiter → ℕ → IpState → IpState
roll l now st =
    if ltb l.window (now - st.window_start)
    then record st { window_start = now; failures_in_window = 0 }
    else st

-- Count the failure, with `u32::saturating_add`, and block at the threshold.
unfoldable pub count : Limiter → ℕ → IpState → IpState
count l now st =
    let failures = min (st.failures_in_window + 1) u32_max in
    record st {
      failures_in_window = failures;
      last_seen = now;
      blocked_until =
          if leb l.max_attempts failures then some (now + l.block_duration) else st.blocked_until;
    }

-- `record_failure_at` on the entry: an active block is only touched, an expired one starts afresh.
unfoldable pub fail_entry : Limiter → ℕ → IpState → IpState
unfolding roll count
fail_entry l now st = elim st.blocked_until [
  | none ↦ count l now (roll l now st)
  | some t ↦
      if ltb now t
      then record st { last_seen = now }
      else count l now (
          roll l now
            (record st { blocked_until = none; window_start = now; failures_in_window = 0 }))
]

-- `map.entry(bucket(ip)).or_insert_with(…)`
unfoldable pub entry_or_fresh : ℕ → Option IpState → IpState
unfolding fresh
entry_or_fresh now none = fresh now
entry_or_fresh now (some st) = st

unfoldable pub record_failure_at : Limiter → IpAddr → ℕ → Limiter
unfolding fail_entry entry_or_fresh
record_failure_at l ip now =
    let k = bucket ip in
    record l { inner = insert k (fail_entry l now (entry_or_fresh now (l.inner k))) l.inner }

unfoldable pub record_success : Limiter → IpAddr → Limiter
record_success l ip = record l { inner = remove (bucket ip) l.inner }
