-- ===== src/RateLimit/Isolation.antt =====
-- src/rate_limit.rs: the bounds of a block, and which addresses share a fate.
use comic_stream.Common.{
  ℕ, ◌≤◌, ◌<◌, ◌≡◌, ◌↔◌, refl, false, Option, none, some, arith, List, [], ◌∷◌, ◌++◌, if◌then◌else◌,
  take, replicate, inl, inr, Bool-cases, ◌∙◌, ap, sym,
}
use mathlib.Core.List.{append_cancel_right}
use comic_stream.Ip.{IpAddr, v4, v6, ip_eq, ip_eq_iff, ip_eq_refl}
use comic_stream.Text.{u32_max}
use comic_stream.RateLimit.{
  IpState, StateMap, Limiter, bucket, insert, remove, verdict, check_at, new, blocked,
}
use comic_stream.RateLimit.Entry.{IsEntry-later, verdict_bounds}
use comic_stream.RateLimit.Events.{
  Event, check, failure, success, time, source, IsOrdered, after_all, with_map, ideal_after,
  ideal_all, end_time,
}
use comic_stream.RateLimit.Forgets.{
  check_at-with_map, new-HasAttempts, Matches, Simulates, after_all-Simulates, verdict-Matches,
  Matches-retained,
}

-- The calls about the bucket of `ip`.
unfoldable pub own : IpAddr → List Event → List Event
own ip [] = []
own ip (e ∷ es) = if ip_eq (bucket ip) (bucket (source e)) then e ∷ own ip es else own ip es

own-IsOrdered :
    (ip : IpAddr) (now : ℕ) (es : List Event) → IsOrdered now es → IsOrdered now (own ip es)
unfolding own
own-IsOrdered ip now [] o = tt
own-IsOrdered ip now (e ∷ es) o = elim (Bool-cases (ip_eq (bucket ip) (bucket (source e)))) [
  | inl same ↦ rw same (o.0, own-IsOrdered ip (time e) es o.1)
  | inr other ↦
      rw other (IsOrdered-earlier now (time e) (own ip es) o.0 (own-IsOrdered ip (time e) es o.1))
]
  where
    IsOrdered-earlier : (a b : ℕ) (xs : List Event) → a ≤ b → IsOrdered b xs → IsOrdered a xs
    IsOrdered-earlier a b [] h k = tt
    IsOrdered-earlier a b (x ∷ xs) h k = (omega arith, k.1)

end_time_mono : (a b : ℕ) (es : List Event) → a ≤ b → end_time a es ≤ end_time b es
end_time_mono a b [] h = h
end_time_mono a b (e ∷ es) h = omega arith

end_time-own-le :
    (ip : IpAddr) (now : ℕ) (es : List Event)
    → IsOrdered now es
    → (now ≤ end_time now es) × (end_time now (own ip es) ≤ end_time now es)
unfolding own
end_time-own-le ip now [] o = omega arith
end_time-own-le ip now (e ∷ es) o =
    let (first, ih) = end_time-own-le ip (time e) es o.1 in
    elim (Bool-cases (ip_eq (bucket ip) (bucket (source e)))) [
      | inl same ↦ rw same (omega arith, ih)
      | inr other ↦ rw other (omega arith, omega (arith, end_time_mono now (time e) (own ip es)))
    ]

-- Only the calls about a bucket change what the ideal limiter has for it.
ideal_after-other :
    (c : Limiter) (m : StateMap) (k : IpAddr) (e : Event)
    → ip_eq k (bucket (source e)) ≡ false
    → ideal_after c m e k ≡ m k
unfolding insert remove
ideal_after-other c m k (check ip now) h = refl
ideal_after-other c m k (failure ip now) h = rw h
ideal_after-other c m k (success ip now) h = rw h

ideal_after-same :
    (c : Limiter) (m n : StateMap) (k : IpAddr) (e : Event)
    → k ≡ bucket (source e)
    → m k ≡ n k
    → ideal_after c m e k ≡ ideal_after c n e k
unfolding insert remove
ideal_after-same c m n k (check ip now) h s = s
ideal_after-same c m n k (failure ip now) h s = rw (← h, s)
ideal_after-same c m n k (success ip now) h s = rw (← h, ip_eq_refl k)

ideal_all-own :
    (c : Limiter) (m n : StateMap) (ip : IpAddr) (es : List Event)
    → m (bucket ip) ≡ n (bucket ip)
    → ideal_all c m es (bucket ip) ≡ ideal_all c n (own ip es) (bucket ip)
unfolding ideal_all own
ideal_all-own c m n ip [] s = s
ideal_all-own c m n ip (e ∷ es) s = elim (Bool-cases (ip_eq (bucket ip) (bucket (source e)))) [
  | inl same ↦ rw same (
      ideal_all-own c (ideal_after c m e) (ideal_after c n e) ip es
        (ideal_after-same c m n (bucket ip) e ((ip_eq_iff _ _).0 same) s))
  | inr other ↦
      rw other (
        ideal_all-own c (ideal_after c m e) n ip es (ideal_after-other c m (bucket ip) e other ∙ s))
]

-- The answer of a check after a run, from the ideal limiter.
check-ideal :
    (c : Limiter) (m : StateMap) (ip : IpAddr) (last now : ℕ) (ideal : StateMap)
    → last ≤ now
    → Simulates c last m ideal
    → (check_at (with_map c m) ip now).0 ≡ verdict now (ideal (bucket ip))
check-ideal c m ip last now ideal h s =
    ap (λ p. p.0) (check_at-with_map c m ip now)
    ∙ verdict-Matches c now _ _ (Matches-retained c last now h _ _ (s.entries (bucket ip)))

check-after_all :
    (attempts window block_duration : ℕ) (ip : IpAddr) (now : ℕ) (es : List Event)
    → attempts ≤ u32_max
    → 0 < block_duration
    → IsOrdered 0 es
    → end_time 0 es ≤ now
    → (check_at (after_all (new attempts window block_duration) es) ip now).0
      ≡ verdict now (ideal_all (new attempts window block_duration) (λ _. none) es (bucket ip))
unfolding new
check-after_all attempts window block_duration ip now es fits p o late =
    let c = new attempts window block_duration in
    let (m, ran, s) =
      after_all-Simulates c (new-HasAttempts attempts window block_duration fits) p (λ _. none)
        (λ _. none) 0 es o (record { entries = λ _. tt }) in
    ap (λ l. (check_at l ip now).0) ran ∙ check-ideal c m ip (end_time 0 es) now _ late s

-- With a `u32` threshold and a block of at least a nanosecond, calls in the order of the clock:
-- what a check of `ip` answers depends on the calls about its own bucket alone.
pub check-own :
    (attempts window block_duration : ℕ) (ip : IpAddr) (now : ℕ) (es : List Event)
    → attempts ≤ u32_max
    → 0 < block_duration
    → IsOrdered 0 es
    → end_time 0 es ≤ now
    → (check_at (after_all (new attempts window block_duration) es) ip now).0
      ≡ (check_at (after_all (new attempts window block_duration) (own ip es)) ip now).0
check-own attempts window block_duration ip now es fits p o late =
    check-after_all attempts window block_duration ip now es fits p o late
    ∙ ap (verdict now) (ideal_all-own _ (λ _. none) (λ _. none) ip es refl)
    ∙ sym (
        check-after_all attempts window block_duration ip now (own ip es) fits p
          (own-IsOrdered ip 0 es o) (omega (arith, end_time-own-le ip 0 es o)))

Matches-bounds :
    (c : Limiter) (last now wait : ℕ) (o i : Option IpState)
    → last ≤ now
    → Matches c last o i
    → verdict now i ≡ blocked wait
    → (0 < wait) × (wait ≤ c.block_duration)
Matches-bounds c last now wait none none h m e = unfold verdict in cc
Matches-bounds c last now wait none (some b) h m e =
    verdict_bounds c now wait b (IsEntry-later c last now b h m.0) e
Matches-bounds c last now wait (some a) (some b) h m e =
    verdict_bounds c now wait b (IsEntry-later c last now b h m.0) e
Matches-bounds c last now wait (some a) none h m e = absurd m

-- At or after the last of calls in the order of the clock, from a new limiter with a `u32` threshold:
-- a check that blocks asks to wait for more than no time and at most `block_duration`.
pub check_bounds :
    (attempts window block_duration : ℕ) (ip : IpAddr) (now wait : ℕ) (es : List Event)
    → attempts ≤ u32_max
    → 0 < block_duration
    → IsOrdered 0 es
    → end_time 0 es ≤ now
    → (check_at (after_all (new attempts window block_duration) es) ip now).0 ≡ blocked wait
    → (0 < wait) × (wait ≤ block_duration)
unfolding new
check_bounds attempts window block_duration ip now wait es fits p o late e =
    let c = new attempts window block_duration in
    let (m, ran, s) =
      after_all-Simulates c (new-HasAttempts attempts window block_duration fits) p (λ _. none)
        (λ _. none) 0 es o (record { entries = λ _. tt }) in
    Matches-bounds c (end_time 0 es) now wait _ _ late (s.entries (bucket ip))
      (sym (check-after_all attempts window block_duration ip now es fits p o late) ∙ e)

-- IPv6 addresses share a bucket exactly if their first eight octets agree, an IPv4 address has its
-- own, and a bucket is its own bucket.
pub bucket_iff :
    (a b : List ℕ)
    → ((bucket (v6 a) ≡ bucket (v6 b)) ↔ (take 8 a ≡ take 8 b))
      × ((bucket (v4 a) ≡ bucket (v4 b)) ↔ (a ≡ b))
      × (¬ (bucket (v4 a) ≡ bucket (v6 b)))
unfolding bucket
bucket_iff a b = (
  (
    λ e. append_cancel_right (take 8 a) (take 8 b) (replicate 8 0) (cc),
    λ e. ap (λ t. v6 (t ++ replicate 8 0)) e,
  ),
  (λ e. cc, λ e. ap v4 e),
  λ e. cc,
)
