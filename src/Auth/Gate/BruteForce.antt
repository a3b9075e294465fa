-- ===== src/Auth/Gate/BruteForce.antt =====
-- src/auth.rs with src/rate_limit.rs: guessing passwords locks the guesser out.
use comic_stream.Common.{
  ℕ, ◌+◌, ◌-◌, ◌≤◌, ◌<◌, ◌≡◌, refl, Bool, false, Option, none, some, List, [], ◌∷◌, arith, ap, sym,
  ◌∙◌, length, All, subst,
}
use comic_stream.Ip.{IpAddr, ip_eq_refl}
use comic_stream.Text.{Text, codes}
use comic_stream.Http.{HeaderLib, Request, Response}
use comic_stream.PeerIp.{client_ip}
use comic_stream.RateLimit.{
  IpState, StateMap, Limiter, allow, bucket, insert, retained, verdict, fail_entry, fresh,
  entry_or_fresh,
}
use comic_stream.RateLimit.Entry.{HasAttempts}
use comic_stream.RateLimit.Events.{with_map, failed}
use comic_stream.RateLimit.Forgets.{failure-with_map}
use comic_stream.RateLimit.Threshold.{fail_entry_counts, fail_entry_blocks}
use comic_stream.Auth.{CryptoLib, verify, rate_limited}
use comic_stream.Auth.Gate.{check_client, client_failure, require_basic}
use comic_stream.Auth.Gate.Blocked.{
  Attempt, after_attempts, IsFrom, asked, early_steps, late_blocked,
}
use comic_stream.Auth.Gate.Laws.{require_basic-allowed, authenticate-refused}

abbrev pub last_noted : Attempt → List Attempt → ℕ
last_noted a [] = a.noted
last_noted a (b ∷ more) = last_noted b more

-- A new entry, or one with failures from `start` on that is not blocked, passes a check in the
-- window and is kept by it.
kept_in_window :
    (c : Limiter) (start checked : ℕ) (st : IpState)
    → 0 < c.block_duration
    → start ≤ st.last_seen
    → checked ≤ start + c.window
    → st.blocked_until ≡ none
    → (retained c checked (some st) ≡ some st) × (verdict checked (some st) ≡ allow)
unfolding retained verdict
kept_in_window c start checked st p s h b = (ground arith, ground arith)

fail_entry-last_seen :
    (c : Limiter) (now : ℕ) (st : IpState) → (fail_entry c now st).last_seen ≡ now
unfolding fail_entry
fail_entry-last_seen c now st = ground arith

-- The entry that a check at `checked` leaves and lets through, and that a failure at `noted` finds.
record Meets (c : Limiter) (checked noted : ℕ) (o : Option IpState) (st : IpState) : Type 0 where
  kept : retained c checked o ≡ o
  passes : verdict checked o ≡ allow
  entry : entry_or_fresh noted o ≡ st

some-Meets :
    (c : Limiter) (start checked noted : ℕ) (st : IpState)
    → 0 < c.block_duration
    → start ≤ st.last_seen
    → checked ≤ start + c.window
    → st.blocked_until ≡ none
    → Meets c checked noted (some st) st
unfolding entry_or_fresh
some-Meets c start checked noted st p s h b = record {
  kept = (kept_in_window c start checked st p s h b).0;
  passes = (kept_in_window c start checked st p s h b).1;
  entry = refl;
}

none-Meets : (c : Limiter) (checked noted : ℕ) → Meets c checked noted none (fresh noted)
unfolding retained verdict entry_or_fresh
none-Meets c checked noted = record { kept = refl; passes = refl; entry = refl }

fresh_open :
    (now : ℕ)
    → ((fresh now).window_start ≡ now)
      × ((fresh now).blocked_until ≡ none)
      × ((fresh now).failures_in_window ≡ 0)
unfolding fresh
fresh_open now = (refl, refl, refl)

module _ (crypto : CryptoLib) (lib : HeaderLib) (show_peer : IpAddr × ℕ → Text) {Net : Type 0}
    (contains : Net → IpAddr → Bool) (parse_ip : Text → Option IpAddr) (creds : crypto.Digest)
    (trusted : List Net) (next : Request → Response lib.HeaderMap) where
  -- A wrong guess from the bucket `k`, within the window of `c` from `start`.
  pub record IsGuess (c : Limiter) (k : IpAddr) (start : ℕ) (a : Attempt) : Type 0 where
    pub from : IsFrom crypto lib show_peer contains parse_ip creds trusted next k a.req
    pub wrong : verify crypto creds (a.req.header (codes "authorization")) ≡ false
    pub soon : a.checked ≤ start + c.window
    pub begun : start ≤ a.noted
    pub within : a.noted ≤ start + c.window

  noted_failure :
      (c : Limiter) (m : StateMap) (k : IpAddr) (now : ℕ) (ip : IpAddr)
      → bucket ip ≡ k
      → client_failure (some ip) (with_map c m) now ≡ with_map c (failed c k now m)
  unfolding client_failure
  noted_failure c m k now ip b =
      failure-with_map c m ip now ∙ ap (λ i. with_map c (failed c i now m)) b

  failed_self :
      (c : Limiter) (m : StateMap) (k : IpAddr) (now : ℕ)
      → failed c k now m k ≡ some (fail_entry c now (entry_or_fresh now (m k)))
  unfolding insert
  failed_self c m k now = rw (ip_eq_refl k) refl

  guess_step :
      (c : Limiter) (m : StateMap) (k : IpAddr) (start : ℕ) (a : Attempt)
      → IsGuess c k start a
      → (st : IpState) → Meets c a.checked a.noted (m k) st
      → (m' : StateMap) × ((require_basic crypto lib show_peer contains parse_ip creds trusted
            (with_map c m)
            a.checked
            a.noted
            a.req
            next).limiter
          ≡ with_map c m')
        × (m' k ≡ some (fail_entry c a.noted st))
  guess_step c m k start a g st met =
      let (ip, client, b) = g.from in
      let m1 : StateMap = λ j. retained c a.checked (m j) in
      let told =
        ap (λ i. check_client i (with_map c m) a.checked) client
        ∙ asked crypto lib show_peer contains parse_ip creds trusted next c m k a.checked ip b in
      let open_ = ap (λ p. p.0) told ∙ ap (verdict a.checked) met.kept ∙ met.passes in
      let refused =
        require_basic-allowed crypto lib show_peer contains parse_ip creds trusted (with_map c m)
          a.checked a.noted a.req next open_
        ∙ authenticate-refused crypto lib show_peer creds _ _ a.noted a.req next g.wrong in
      (
        failed c k a.noted m1,
        ap (λ o. o.limiter) refused
            ∙ ap
                (λ i.
                  client_failure i
                    (check_client (client_ip contains parse_ip trusted a.req) (with_map c m)
                      a.checked).1
                    a.noted)
                client
            ∙ ap (λ p. client_failure (some ip) p.1 a.noted) told
            ∙ noted_failure c m1 k a.noted ip b,
        failed_self c m1 k a.noted
            ∙ ap (λ o. some (fail_entry c a.noted (entry_or_fresh a.noted o))) met.kept
            ∙ ap (λ s. some (fail_entry c a.noted s)) met.entry,
      )

  -- Guesses on an entry that is not blocked, up to the threshold.
  guesses_block :
      (c : Limiter) (m : StateMap) (k : IpAddr) (start : ℕ) (st : IpState) (a : Attempt)
      (more : List Attempt)
      → HasAttempts c
      → 0 < c.block_duration
      → Meets c a.checked a.noted (m k) st
      → st.window_start ≡ start
      → st.blocked_until ≡ none
      → st.failures_in_window + length (a ∷ more) ≡ c.max_attempts
      → All (IsGuess c k start) (a ∷ more)
      → (m' : StateMap) × (st' : IpState) × (after_attempts crypto lib show_peer contains parse_ip
            creds trusted next
            (with_map c m)
            (a ∷ more)
          ≡ with_map c m')
        × (m' k ≡ some st')
        × (st'.blocked_until ≡ some (last_noted a more + c.block_duration))
  unfolding after_attempts
  guesses_block c m k start st a [] attempts p met opened b n g =
      let (m', ran, found) = guess_step c m k start a g.0 st met in
      let within = subst (λ s. a.noted ≤ s + c.window) (sym opened) g.0.within in
      (
        m',
        fail_entry c a.noted st,
        ran,
        found,
        fail_entry_blocks c st a.noted attempts b within (omega arith),
      )
  guesses_block c m k start st a (a' ∷ more) attempts p met opened b n g =
      let (m', ran, found) = guess_step c m k start a g.0 st met in
      let within = subst (λ s. a.noted ≤ s + c.window) (sym opened) g.0.within in
      let (open_, same_start, counted) =
        fail_entry_counts c st a.noted attempts b within (omega arith) in
      let seen = subst (λ t. start ≤ t) (sym (fail_entry-last_seen c a.noted st)) g.0.begun in
      let met' =
        some-Meets c start a'.checked a'.noted (fail_entry c a.noted st) p seen g.1.0.soon open_ in
      let (m'', st'', ran', found', blocks) =
        guesses_block c m' k start (fail_entry c a.noted st) a' more attempts p
          (subst (λ o. Meets c a'.checked a'.noted o (fail_entry c a.noted st)) (sym found) met')
          (same_start ∙ opened) open_ (omega arith) g.1 in
      (
        m'',
        st'',
        ap
              (λ l.
                after_attempts crypto lib show_peer contains parse_ip creds trusted next l
                  (a' ∷ more))
              ran
            ∙ ran',
        found',
        blocks,
      )

  -- For a threshold that is positive and fits a `u32`, and a block that is not empty: as many wrong
  -- guesses as the threshold from a bucket with no entry, all checked and noted within the window of
  -- the first, and that bucket is shut out: until the block ends, each of its requests, whatever it
  -- presents, gets the 429 with the time left, and the handler is not consulted, whatever requests it
  -- and others have made during the block.
  pub guesses-blocked :
      (l : Limiter) (k : IpAddr) (a : Attempt) (more tries : List Attempt) (late : Attempt)
      → HasAttempts l
      → 0 < l.block_duration
      → l.inner k ≡ none
      → length (a ∷ more) ≡ l.max_attempts
      → All (IsGuess l k a.noted) (a ∷ more)
      → All (λ t. t.checked < last_noted a more + l.block_duration) tries
      → IsFrom crypto lib show_peer contains parse_ip creds trusted next k late.req
      → late.checked < last_noted a more + l.block_duration
      → (require_basic crypto lib show_peer contains parse_ip creds trusted
          (after_attempts crypto lib show_peer contains parse_ip creds trusted next
            (after_attempts crypto lib show_peer contains parse_ip creds trusted next l (a ∷ more))
            tries)
          late.checked
          late.noted
          late.req
          next).response
        ≡ rate_limited lib (last_noted a more + l.block_duration - late.checked)
  guesses-blocked l k a more tries late attempts p here n g before from early =
      let (start, open_, zero_) = fresh_open a.noted in
      let met =
        subst (λ o. Meets l a.checked a.noted o (fresh a.noted)) (sym here)
          (none-Meets l a.checked a.noted) in
      let (m, st, ran, found, blocks) =
        guesses_block l l.inner k a.noted (fresh a.noted) a more attempts p met start open_
          (omega arith) g in
      let (m', ran', found') =
        early_steps crypto lib show_peer contains parse_ip creds trusted next l m k _ st tries found
          blocks before in
      ap
        (λ x.
          (require_basic crypto lib show_peer contains parse_ip creds trusted x late.checked
            late.noted late.req next).response)
        (ap (λ x. after_attempts crypto lib show_peer contains parse_ip creds trusted next x tries)
            ran
          ∙ ran')
      ∙ late_blocked crypto lib show_peer contains parse_ip creds trusted next l m' k _ st late
          found' blocks early from
