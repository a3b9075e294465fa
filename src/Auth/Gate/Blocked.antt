-- ===== src/Auth/Gate/Blocked.antt =====
-- src/auth.rs with src/rate_limit.rs: what happens to a blocked entry while its block lasts.
use comic_stream.Common.{
  ℕ, ◌-◌, ◌<◌, ◌≡◌, refl, Bool, false, Option, none, some, List, [], ◌∷◌, arith, ap, sym, ◌∙◌, All,
  Bool-cases, Option-cases, inl, inr,
}
use comic_stream.Ip.{IpAddr, ip_eq, ip_eq_iff}
use comic_stream.Text.{Text, codes}
use comic_stream.Http.{HeaderLib, Request, Response}
use comic_stream.PeerIp.{client_ip}
use comic_stream.RateLimit.{
  IpState, StateMap, Limiter, blocked, bucket, insert, remove, retained, verdict, record_success,
}
use comic_stream.RateLimit.Events.{with_map, failed}
use comic_stream.RateLimit.Forgets.{check_at-with_map, failure-with_map}
use comic_stream.RateLimit.Threshold.{verdict-with_map}
use comic_stream.Auth.{CryptoLib, verify, rate_limited}
use comic_stream.Auth.Gate.{
  check_client, client_success, client_failure, authenticate, require_basic,
}
use comic_stream.Auth.Gate.Laws.{
  Verdict-cases, require_basic-allowed, require_basic-blocked, authenticate-refused,
}

-- A request with the times at which the limiter is asked and at which a failure is noted.
pub record Attempt : Type 0 where
  pub checked : ℕ
  pub noted : ℕ
  pub req : Request

-- A blocked entry answers a check with the time left and is kept by it.
kept_in_block :
    (c : Limiter) (checked end : ℕ) (st : IpState)
    → st.blocked_until ≡ some end
    → checked < end
    → (retained c checked (some st) ≡ some st)
      × (verdict checked (some st) ≡ blocked (end - checked))
unfolding retained verdict
kept_in_block c checked end st b early = (ground arith, ground arith)

module _ (crypto : CryptoLib) (lib : HeaderLib) (show_peer : IpAddr × ℕ → Text) {Net : Type 0}
    (contains : Net → IpAddr → Bool) (parse_ip : Text → Option IpAddr) (creds : crypto.Digest)
    (trusted : List Net) (next : Request → Response lib.HeaderMap) where
  -- The limiter after a sequence of requests.
  unfoldable pub after_attempts : Limiter → List Attempt → Limiter
  after_attempts l [] = l
  after_attempts l (a ∷ more) =
      after_attempts
        (require_basic crypto lib show_peer contains parse_ip creds trusted l a.checked a.noted
          a.req next).limiter
        more

  -- A request from the bucket `k`.
  abbrev pub IsFrom : IpAddr → Request → Type 0
  IsFrom k req =
      (ip : IpAddr) × (client_ip contains parse_ip trusted req ≡ some ip) × (bucket ip ≡ k)

  -- What a check of an address asks of the limiter with the map `m`.
  pub asked :
      (c : Limiter) (m : StateMap) (k : IpAddr) (checked : ℕ) (ip : IpAddr)
      → bucket ip ≡ k
      → check_client (some ip) (with_map c m) checked
        ≡ (verdict checked (retained c checked (m k)), with_map c (λ j. retained c checked (m j)))
  unfolding check_client
  asked c m k checked ip b =
      check_at-with_map c m ip checked
      ∙ ap
          (λ i. (
            verdict checked (retained c checked (m i)),
            with_map c (λ j. retained c checked (m j)),
          ))
          b

  -- The limiter that a request leaves still has the entry `st` under `k`.
  Leaves : Limiter → StateMap → IpAddr → IpState → Attempt → Type 0
  Leaves c m k st a =
      (m' : StateMap) × ((require_basic crypto lib show_peer contains parse_ip creds trusted
          (with_map c m) a.checked a.noted a.req next).limiter
        ≡ with_map c m')
      × (m' k ≡ some st)

  -- A request of the blocked bucket leaves its entry as it is.
  own_step :
      (c : Limiter) (m : StateMap) (k : IpAddr) (end : ℕ) (st : IpState) (a : Attempt)
      → m k ≡ some st
      → st.blocked_until ≡ some end
      → IsFrom k a.req
      → a.checked < end
      → Leaves c m k st a
  unfolding Leaves
  own_step c m k end st a found b from early =
      let (ip, client, same) = from in
      let told =
        ap (λ i. check_client i (with_map c m) a.checked) client ∙ asked c m k a.checked ip same in
      let (kept, blocks) = kept_in_block c a.checked end st b early in
      let here = ap (retained c a.checked) found ∙ kept in
      let answered = ap (λ p. p.0) told ∙ ap (verdict a.checked) here ∙ blocks in
      (
        λ j. retained c a.checked (m j),
        ap (λ o. o.limiter)
              (require_basic-blocked crypto lib show_peer contains parse_ip creds trusted
                (with_map c m) a.checked a.noted (end - a.checked) a.req next answered)
            ∙ ap (λ p. p.1) told,
        here,
      )

  -- What follows a check does nothing to the entry of another bucket.
  authenticate-others :
      (c : Limiter) (m : StateMap) (k : IpAddr) (ip : IpAddr) (now : ℕ) (req : Request)
      → ip_eq k (bucket ip) ≡ false
      → (m' : StateMap) × ((authenticate crypto lib show_peer creds
            (some ip)
            (with_map c m)
            now
            req
            next).limiter
          ≡ with_map c m')
        × (m' k ≡ m k)
  unfolding authenticate client_success client_failure record_success remove insert
  authenticate-others c m k ip now req other =
      elim (Bool-cases (verify crypto creds (req.header (codes "authorization")))) [
        | inl right ↦ (remove (bucket ip) m, rw (authenticate, right) refl, rw other refl)
        | inr wrong ↦ (
          failed c (bucket ip) now m,
          ap (λ o. o.limiter)
                (authenticate-refused crypto lib show_peer creds (some ip) (with_map c m) now req
                  next wrong)
              ∙ failure-with_map c m ip now,
          rw other refl,
        )
      ]

  authenticate-unknown :
      (l : Limiter) (now : ℕ) (req : Request)
      → (authenticate crypto lib show_peer creds none l now req next).limiter ≡ l
  unfolding authenticate client_success client_failure
  authenticate-unknown l now req =
      elim (Bool-cases (verify crypto creds (req.header (codes "authorization")))) [
        | inl right ↦ rw (authenticate, right) refl
        | inr wrong ↦ rw (authenticate, wrong) refl
      ]

  -- A request of another bucket leaves the blocked entry as it is.
  other_step :
      (c : Limiter) (m : StateMap) (k : IpAddr) (end : ℕ) (st : IpState) (a : Attempt) (ip : IpAddr)
      → m k ≡ some st
      → st.blocked_until ≡ some end
      → client_ip contains parse_ip trusted a.req ≡ some ip
      → ip_eq k (bucket ip) ≡ false
      → a.checked < end
      → Leaves c m k st a
  unfolding Leaves
  other_step c m k end st a ip found b client other early =
      let m1 : StateMap = λ j. retained c a.checked (m j) in
      let told =
        ap (λ i. check_client i (with_map c m) a.checked) client
        ∙ asked c m (bucket ip) a.checked ip refl in
      let here = ap (retained c a.checked) found ∙ (kept_in_block c a.checked end st b early).0 in
      elim (Verdict-cases
        (check_client (client_ip contains parse_ip trusted a.req) (with_map c m) a.checked).0) [
          | inr (wait, blocks) ↦ (
            m1,
            ap (λ o. o.limiter)
                  (require_basic-blocked crypto lib show_peer contains parse_ip creds trusted
                    (with_map c m) a.checked a.noted wait a.req next blocks)
                ∙ ap (λ p. p.1) told,
            here,
          )
          | inl open_ ↦
              let (m', ran, same) = authenticate-others c m1 k ip a.noted a.req other in
              (
                m',
                ap (λ o. o.limiter)
                      (require_basic-allowed crypto lib show_peer contains parse_ip creds trusted
                        (with_map c m) a.checked a.noted a.req next open_)
                    ∙ ap
                        (λ p.
                          (authenticate crypto lib show_peer creds
                            (client_ip contains parse_ip trusted a.req) p.1 a.noted a.req
                            next).limiter)
                        told
                    ∙ ap
                        (λ i.
                          (authenticate crypto lib show_peer creds i (with_map c m1) a.noted a.req
                            next).limiter)
                        client
                    ∙ ran,
                same ∙ here,
              )
        ]

  -- A request whose client is not known asks nothing of the limiter.
  unknown_step :
      (c : Limiter) (m : StateMap) (k : IpAddr) (st : IpState) (a : Attempt)
      → m k ≡ some st
      → client_ip contains parse_ip trusted a.req ≡ none
      → Leaves c m k st a
  unfolding Leaves check_client
  unknown_step c m k st a found client =
      let told = ap (λ i. check_client i (with_map c m) a.checked) client in
      (
        m,
        ap (λ o. o.limiter)
              (require_basic-allowed crypto lib show_peer contains parse_ip creds trusted
                (with_map c m) a.checked a.noted a.req next (ap (λ p. p.0) told))
            ∙ ap
                (λ i.
                  (authenticate crypto lib show_peer creds i
                    (check_client i (with_map c m) a.checked).1 a.noted a.req next).limiter)
                client
            ∙ authenticate-unknown (with_map c m) a.noted a.req,
        found,
      )

  -- Whoever sends it, a request during the block leaves the entry as it is.
  early_step :
      (c : Limiter) (m : StateMap) (k : IpAddr) (end : ℕ) (st : IpState) (a : Attempt)
      → m k ≡ some st
      → st.blocked_until ≡ some end
      → a.checked < end
      → Leaves c m k st a
  early_step c m k end st a found b early =
      elim (Option-cases (client_ip contains parse_ip trusted a.req)) [
        | inl unknown ↦ unknown_step c m k st a found unknown
        | inr (ip, client) ↦ elim (Bool-cases (ip_eq k (bucket ip))) [
          | inl same ↦
              own_step c m k end st a found b (ip, client, sym ((ip_eq_iff k (bucket ip)).0 same))
                early
          | inr other ↦ other_step c m k end st a ip found b client other early
        ]
      ]

  pub early_steps :
      (c : Limiter) (m : StateMap) (k : IpAddr) (end : ℕ) (st : IpState) (tries : List Attempt)
      → m k ≡ some st
      → st.blocked_until ≡ some end
      → All (λ a. a.checked < end) tries
      → (m' : StateMap) × (after_attempts (with_map c m) tries ≡ with_map c m') × (m' k ≡ some st)
  unfolding after_attempts Leaves
  early_steps c m k end st [] found b early = (m, refl, found)
  early_steps c m k end st (a ∷ tries) found b early =
      let (m', ran, found') = early_step c m k end st a found b early.0 in
      let (m'', ran', found'') = early_steps c m' k end st tries found' b early.1 in
      (m'', ap (λ l. after_attempts l tries) ran ∙ ran', found'')

  -- A request during the block gets the 429.
  pub late_blocked :
      (c : Limiter) (m : StateMap) (k : IpAddr) (t : ℕ) (st : IpState) (late : Attempt)
      → m k ≡ some st
      → st.blocked_until ≡ some t
      → late.checked < t
      → IsFrom k late.req
      → (require_basic crypto lib show_peer contains parse_ip creds trusted
          (with_map c m)
          late.checked
          late.noted
          late.req
          next).response
        ≡ rate_limited lib (t - late.checked)
  unfolding check_client
  late_blocked c m k t st late found b soon (ip, client, same) =
      let blocks = verdict-with_map c m ip late.checked t st (ap m same ∙ found) b soon in
      ap (λ o. o.response)
        (require_basic-blocked crypto lib show_peer contains parse_ip creds trusted (with_map c m)
          late.checked late.noted (t - late.checked) late.req next
          (ap (λ i. (check_client i (with_map c m) late.checked).0) client ∙ blocks))
