-- ===== src/RateLimit/Events.antt =====
-- src/rate_limit.rs under a sequence of calls, and the limiter that never forgets as a specification.
use comic_stream.Common.{ℕ, ◌≤◌, List, [], ◌∷◌}
use comic_stream.Ip.{IpAddr}
use comic_stream.RateLimit.{
  StateMap, Limiter, Verdict, bucket, insert, remove, verdict, check_at, retained, fail_entry,
  entry_or_fresh, record_failure_at, record_success,
}

-- A call of the limiter, with the time that it reads.
pub data Event : Type 0 where
  check : IpAddr → ℕ → Event
  failure : IpAddr → ℕ → Event
  success : IpAddr → ℕ → Event

abbrev pub time : Event → ℕ
time (check _ t) = t
time (failure _ t) = t
time (success _ t) = t

-- The clock does not run backwards.
abbrev pub IsOrdered : ℕ → List Event → Type 0
IsOrdered now [] = Unit
IsOrdered now (e ∷ es) = (now ≤ time e) × IsOrdered (time e) es

unfoldable pub after : Limiter → Event → Limiter
after l (check ip now) = (check_at l ip now).1
after l (failure ip now) = record_failure_at l ip now
after l (success ip now) = record_success l ip

unfoldable pub after_all : Limiter → List Event → Limiter
after_all l [] = l
after_all l (e ∷ es) = after_all (after l e) es

-- The answers of the checks, in order.
unfoldable pub verdicts : Limiter → List Event → List Verdict
verdicts l [] = []
verdicts l (check ip now ∷ es) = (check_at l ip now).0 ∷ verdicts (check_at l ip now).1 es
verdicts l (failure ip now ∷ es) = verdicts (record_failure_at l ip now) es
verdicts l (success ip now ∷ es) = verdicts (record_success l ip) es

-- The specification: the same calls on a limiter that keeps every entry for ever.
unfoldable pub ideal_verdicts : Limiter → List Event → List Verdict
ideal_verdicts l [] = []
ideal_verdicts l (check ip now ∷ es) = verdict now (l.inner (bucket ip)) ∷ ideal_verdicts l es
ideal_verdicts l (failure ip now ∷ es) = ideal_verdicts (record_failure_at l ip now) es
ideal_verdicts l (success ip now ∷ es) = ideal_verdicts (record_success l ip) es

abbrev pub with_map : Limiter → StateMap → Limiter
with_map c m = record c { inner = m }

abbrev pub failed : Limiter → IpAddr → ℕ → StateMap → StateMap
failed c k now m = insert k (fail_entry c now (entry_or_fresh now (m k))) m

-- The map after a call, for the limits of `c`.
abbrev pub map_after : Limiter → StateMap → Event → StateMap
map_after c m (check ip now) = λ j. retained c now (m j)
map_after c m (failure ip now) = failed c (bucket ip) now m
map_after c m (success ip now) = remove (bucket ip) m

-- The same if nothing is ever dropped.
abbrev pub ideal_after : Limiter → StateMap → Event → StateMap
ideal_after c m (check ip now) = m
ideal_after c m (failure ip now) = failed c (bucket ip) now m
ideal_after c m (success ip now) = remove (bucket ip) m

unfoldable pub ideal_all : Limiter → StateMap → List Event → StateMap
ideal_all c m [] = m
ideal_all c m (e ∷ es) = ideal_all c (ideal_after c m e) es

abbrev pub source : Event → IpAddr
source (check ip _) = ip
source (failure ip _) = ip
source (success ip _) = ip

-- The time of the last call, `now` if there is none.
abbrev pub end_time : ℕ → List Event → ℕ
end_time now [] = now
end_time now (e ∷ es) = end_time (time e) es
