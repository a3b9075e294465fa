-- ===== src/RateLimit/Forgets.antt =====
-- src/rate_limit.rs: forgetting stale entries (`gc`) changes no answer.
use comic_stream.Common.{
  ℕ, ◌≤◌, ◌<◌, ◌≡◌, refl, false, Option, none, some, arith, List, [], ◌∷◌, ap, ap₂, Bool-cases, inl,
  inr, ◌∙◌, sym,
}
use comic_stream.Ip.{IpAddr, ip_eq}
use comic_stream.Text.{u32_max}
use comic_stream.RateLimit.{
  IpState, StateMap, Limiter, bucket, insert, remove, keeps, retained, verdict, check_at, new,
  fail_entry, entry_or_fresh, record_failure_at, record_success, allow,
}
use comic_stream.RateLimit.Entry.{
  IsEntry, HasAttempts, fresh-IsEntry, IsEntry-later, fail_entry-IsEntry, fail_entry_of_dropped,
  verdict_of_dropped, keeps_later,
}
use comic_stream.RateLimit.Events.{
  Event, check, failure, success, time, IsOrdered, after, after_all, verdicts, ideal_verdicts,
  with_map, failed, map_after, ideal_after, ideal_all, end_time,
}

-- An entry of the limiter and the entry that the ideal one has for the same key.
abbrev pub Matches : Limiter → ℕ → Option IpState → Option IpState → Type 0
Matches l now none none = Unit
Matches l now none (some b) = IsEntry l now b × (keeps l now b ≡ false)
Matches l now (some a) none = ⊥
Matches l now (some a) (some b) = IsEntry l now b × (a ≡ b)

module _ (l : Limiter) (now later : ℕ) (h : now ≤ later) where
  Matches-later : (o i : Option IpState) → Matches l now o i → Matches l later o i
  Matches-later none none m = tt
  Matches-later none (some b) m =
      (IsEntry-later l now later b h m.0, keeps_later l now later b h m.1)
  Matches-later (some a) (some b) m = (IsEntry-later l now later b h m.0, m.1)
  Matches-later (some a) none m = m

  pub Matches-retained :
      (o i : Option IpState) → Matches l now o i → Matches l later (retained l later o) i
  unfolding retained
  Matches-retained none i m = Matches-later none i m
  Matches-retained (some a) (some b) m = elim (Bool-cases (keeps l later a)) [
    | inl kept ↦ rw kept (IsEntry-later l now later b h m.0, m.1)
    | inr dropped ↦
        rw dropped (IsEntry-later l now later b h m.0, ap (keeps l later) (sym m.1) ∙ dropped)
  ]
  Matches-retained (some a) none m = absurd m

verdict-none : (now : ℕ) → verdict now none ≡ allow
unfolding verdict
verdict-none now = refl

pub verdict-Matches :
    (l : Limiter) (now : ℕ) (o i : Option IpState)
    → Matches l now o i
    → verdict now o ≡ verdict now i
verdict-Matches l now none none m = refl
verdict-Matches l now none (some b) m =
    verdict-none now ∙ sym (verdict_of_dropped l now now b (omega arith) m.1)
verdict-Matches l now (some a) (some b) m = ap (λ s. verdict now (some s)) m.1
verdict-Matches l now (some a) none m = absurd m

fail-Matches :
    (l : Limiter) (now later : ℕ) (o i : Option IpState)
    → now ≤ later
    → HasAttempts l
    → 0 < l.block_duration
    → Matches l now o i
    → Matches l later
        (some (fail_entry l later (entry_or_fresh later o)))
        (some (fail_entry l later (entry_or_fresh later i)))
unfolding entry_or_fresh
fail-Matches l now later none none h a p m =
    (fail_entry-IsEntry l later _ a (fresh-IsEntry l later a), refl)
fail-Matches l now later none (some b) h a p m = (
  fail_entry-IsEntry l later b a (IsEntry-later l now later b h m.0),
  sym (fail_entry_of_dropped l now later b p h m.0 m.1),
)
fail-Matches l now later (some x) (some b) h a p m = (
  fail_entry-IsEntry l later b a (IsEntry-later l now later b h m.0),
  ap (fail_entry l later) m.1,
)
fail-Matches l now later (some x) none h a p m = absurd m

-- `c` gives the limits; `m` and `ideal` are the two maps.
pub record Simulates (c : Limiter) (now : ℕ) (m ideal : StateMap) : Type 0 where
  pub entries : (k : IpAddr) → Matches c now (m k) (ideal k)

module _ (c : Limiter) (m ideal : StateMap) (k : IpAddr) (now later : ℕ) (h : now ≤ later) where
  pub gc-Simulates : Simulates c now m ideal → Simulates c later (λ j. retained c later (m j)) ideal
  gc-Simulates s = record {
    entries = λ j. Matches-retained c now later h (m j) (ideal j) (s.entries j);
  }

  failed-Simulates :
      HasAttempts c
      → 0 < c.block_duration
      → Simulates c now m ideal
      → Simulates c later (failed c k later m) (failed c k later ideal)
  unfolding insert
  failed-Simulates a p s = record {
    entries = λ j. elim (Bool-cases (ip_eq j k)) [
      | inl same ↦ rw same (fail-Matches c now later (m k) (ideal k) h a p (s.entries k))
      | inr other ↦ rw other (Matches-later c now later h (m j) (ideal j) (s.entries j))
    ];
  }

  remove-Simulates : Simulates c now m ideal → Simulates c later (remove k m) (remove k ideal)
  unfolding remove
  remove-Simulates s = record {
    entries = λ j. elim (Bool-cases (ip_eq j k)) [
      | inl same ↦ rw same tt
      | inr other ↦ rw other (Matches-later c now later h (m j) (ideal j) (s.entries j))
    ];
  }

-- The operations on a limiter with the limits of `c` and the map `m`.
pub check_at-with_map :
    (c : Limiter) (m : StateMap) (ip : IpAddr) (now : ℕ)
    → check_at (with_map c m) ip now
      ≡ (verdict now (retained c now (m (bucket ip))), with_map c (λ j. retained c now (m j)))
unfolding check_at retained
check_at-with_map c m ip now = refl

pub failure-with_map :
    (c : Limiter) (m : StateMap) (ip : IpAddr) (now : ℕ)
    → record_failure_at (with_map c m) ip now ≡ with_map c (failed c (bucket ip) now m)
unfolding record_failure_at fail_entry
failure-with_map c m ip now = refl

pub after-map_after :
    (c : Limiter) (m : StateMap) (e : Event) → after (with_map c m) e ≡ with_map c (map_after c m e)
unfolding after record_success
after-map_after c m (check ip now) = ap (λ p. p.1) (check_at-with_map c m ip now)
after-map_after c m (failure ip now) = failure-with_map c m ip now
after-map_after c m (success ip now) = refl

module _ (c : Limiter) (a : HasAttempts c) (p : 0 < c.block_duration) where
  verdicts-Simulates :
      (m ideal : StateMap) (now : ℕ) (es : List Event)
      → IsOrdered now es
      → Simulates c now m ideal
      → verdicts (with_map c m) es ≡ ideal_verdicts (with_map c ideal) es
  unfolding verdicts ideal_verdicts record_success
  verdicts-Simulates m ideal now [] o s = refl
  verdicts-Simulates m ideal now (check ip t ∷ es) o s =
      let s' = gc-Simulates c m ideal (bucket ip) now t o.0 s in
      rw (check_at-with_map c m ip t) (
        ap₂ ◌∷◌ (verdict-Matches c t _ _ (s'.entries (bucket ip)))
          (verdicts-Simulates (λ j. retained c t (m j)) ideal t es o.1 s'))
  verdicts-Simulates m ideal now (failure ip t ∷ es) o s =
      rw (failure-with_map c m ip t, failure-with_map c ideal ip t)
        (verdicts-Simulates (failed c (bucket ip) t m) (failed c (bucket ip) t ideal) t es o.1
          (failed-Simulates c m ideal (bucket ip) now t o.0 a p s))
  verdicts-Simulates m ideal now (success ip t ∷ es) o s =
      verdicts-Simulates (remove (bucket ip) m) (remove (bucket ip) ideal) t es o.1
        (remove-Simulates c m ideal (bucket ip) now t o.0 s)

  pub map_after-Simulates :
      (m ideal : StateMap) (now : ℕ) (e : Event)
      → now ≤ time e
      → Simulates c now m ideal
      → Simulates c (time e) (map_after c m e) (ideal_after c ideal e)
  map_after-Simulates m ideal now (check ip t) o s = gc-Simulates c m ideal (bucket ip) now t o s
  map_after-Simulates m ideal now (failure ip t) o s =
      failed-Simulates c m ideal (bucket ip) now t o a p s
  map_after-Simulates m ideal now (success ip t) o s =
      remove-Simulates c m ideal (bucket ip) now t o s

  -- The map that a run leaves agrees with the ideal one.
  pub after_all-Simulates :
      (m ideal : StateMap) (now : ℕ) (es : List Event)
      → IsOrdered now es
      → Simulates c now m ideal
      → (m' : StateMap) × (after_all (with_map c m) es ≡ with_map c m')
        × Simulates c (end_time now es) m' (ideal_all c ideal es)
  unfolding after_all ideal_all
  after_all-Simulates m ideal now [] o s = (m, refl, s)
  after_all-Simulates m ideal now (e ∷ es) o s = rw (after-map_after c m e) (
      after_all-Simulates (map_after c m e) (ideal_after c ideal e) (time e) es o.1
        (map_after-Simulates m ideal now e o.0 s))

pub new-HasAttempts :
    (attempts window block_duration : ℕ)
    → attempts ≤ u32_max
    → HasAttempts (new attempts window block_duration)
unfolding new
new-HasAttempts attempts window block_duration h = omega arith

-- For a `u32` number of attempts and a block of at least a nanosecond: from a new limiter, under
-- any calls in the order of the clock, the checks answer as if no entry were ever dropped by `gc`.
pub verdicts-new :
    (attempts window block_duration : ℕ) (es : List Event)
    → attempts ≤ u32_max
    → 0 < block_duration
    → IsOrdered 0 es
    → verdicts (new attempts window block_duration) es
      ≡ ideal_verdicts (new attempts window block_duration) es
unfolding new
verdicts-new attempts window block_duration es fits p o =
    let c = new attempts window block_duration in
    verdicts-Simulates c (new-HasAttempts attempts window block_duration fits) p (λ _. none)
      (λ _. none) 0 es o (record { entries = λ _. tt })
