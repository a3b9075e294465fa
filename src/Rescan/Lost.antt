-- ===== src/Rescan/Lost.antt =====
-- src/scan.rs, src/watcher.rs, src/poller.rs and src/routes.rs: no request for a scan is lost.
use comic_stream.Common.{
  ℕ, zero, suc, ◌≤◌, ◌≡◌, refl, sym, ◌∙◌, ap, subst, Bool, true, false, arith, Bool-cases, inl, inr,
  ◌⊎◌,
}
use comic_stream.Db.{Action}
use comic_stream.Rescan.{
  Channel, Debounced, events, errors, Phase, starting, waiting, draining, scanning, System, goes_on,
  on_debounced, asks, on_tick, rescan_answer, admin_rescan, count_if, watch, poll, rescan,
  loop_step, Step, watched, polled, requested, looped, Reach, here, next,
}

module _ (channel : Channel) where
  open channel use {
    State, pending, is_closed, try_send, try_recv, send-full, send-accepted, recv-pending,
    recv-none,
  }

  -- A request is answered by `accepted` or `full`, and then a message is in the channel.
  pub sent :
      (c : State)
      → is_closed c ≡ false
      → (goes_on channel (try_send c).0 ≡ true)
        × (pending (try_send c).1 ≡ true)
        × (is_closed (try_send c).1 ≡ false)
        × ((rescan_answer channel (try_send c).0).0 ≡ 202)
  sent c opened = elim (Bool-cases (pending c)) [
    | inl waits ↦ rw (send-full c opened waits) (refl, waits, opened, refl)
    | inr none ↦
        let (answer, waits, still) = send-accepted c opened none in
        rw answer (refl, waits, still, refl)
  ]

  -- The channel is open, the watcher and the poller are as they were started, and a request that no
  -- scan has covered is in the channel, or a scan is about to start.
  pub record NoneLost (watches polls : Bool) (s : System channel) : Type 0 where
    pub opened : is_closed s.chan ≡ false
    pub watcher : s.watching ≡ watches
    pub poller : s.polling ≡ polls
    pub bound : s.covered ≤ s.asked
    pub request : (s.covered ≡ s.asked) ⊎ (pending s.chan ≡ true) ⊎ (s.phase ≡ draining)

  module _ (watches polls : Bool) (scan : ℕ → Action (Unit {0})) where
    abbrev pub Good : System channel → Type 0
    Good = NoneLost watches polls

    le_suc : {a b : ℕ} → a ≤ b → a ≤ suc b
    le_suc h = omega (arith, h)

    poll-NoneLost : (s : System channel) → Good s → Good (poll channel s)
    unfolding poll on_tick
    poll-NoneLost s g = elim (Bool-cases s.polling) [
      | inr off ↦ rw (poll, off) (subst Good (ap (λ q. record s { polling = q }) off) g)
      | inl on ↦
          let (goes, waits, still, _) = sent s.chan g.opened in
          rw (poll, on)
            (record {
              opened = still;
              watcher = g.watcher;
              poller = goes ∙ sym on ∙ g.poller;
              bound = le_suc g.bound;
              request = inr (inl waits);
            })
    ]

    rescan-NoneLost : (s : System channel) → Good s → Good (rescan channel s)
    unfolding rescan admin_rescan
    rescan-NoneLost s g =
        let (_, waits, still, _) = sent s.chan g.opened in
        record {
          opened = still;
          watcher = g.watcher;
          poller = g.poller;
          bound = le_suc g.bound;
          request = inr (inl waits);
        }

    watch-NoneLost : (d : Debounced) (s : System channel) → Good s → Good (watch channel d s)
    unfolding watch on_debounced
    watch-NoneLost d s g = elim (Bool-cases s.watching) [
      | inr off ↦ rw (watch, off) (subst Good (ap (λ q. record s { watching = q }) off) g)
      | inl on ↦ rw (watch, on) (meets d on)
    ]
      where
        meets :
            (d : Debounced)
            → s.watching ≡ true
            → Good (record s {
              watching = (on_debounced channel d s.chan).0;
              chan = (on_debounced channel d s.chan).1;
              asked = count_if channel (asks channel d) s.asked;
            })
        meets (errors errs) on = record {
          opened = g.opened;
          watcher = sym on ∙ g.watcher;
          poller = g.poller;
          bound = g.bound;
          request = g.request;
        }
        meets (events zero) on = record {
          opened = g.opened;
          watcher = sym on ∙ g.watcher;
          poller = g.poller;
          bound = g.bound;
          request = g.request;
        }
        meets (events (suc n)) on =
            let (goes, waits, still, _) = sent s.chan g.opened in
            record {
              opened = still;
              watcher = goes ∙ sym on ∙ g.watcher;
              poller = g.poller;
              bound = le_suc g.bound;
              request = inr (inl waits);
            }

    pub Phase-cases : (p : Phase) → (p ≡ starting) ⊎ (p ≡ waiting) ⊎ (p ≡ draining) ⊎ (p ≡ scanning)
    Phase-cases starting = inl refl
    Phase-cases waiting = inr (inl refl)
    Phase-cases draining = inr (inr (inl refl))
    Phase-cases scanning = inr (inr (inr refl))

    -- The steps of the task, one at a time.
    pub step-idle :
        (s : System channel)
        → s.phase ≡ waiting
        → pending s.chan ≡ false
        → loop_step channel scan s ≡ s
    unfolding loop_step
    step-idle s p none =
        rw (loop_step, p, recv-none s.chan none) (ap (λ q. record s { phase = q }) p)

    pub step-wake :
        (s : System channel)
        → s.phase ≡ waiting
        → pending s.chan ≡ true
        → loop_step channel scan s ≡ record s { phase = draining; chan = (try_recv s.chan).1 }
    unfolding loop_step
    step-wake s p waits = rw (loop_step, p, (recv-pending s.chan waits).0) refl

    pub step-drain :
        (s : System channel)
        → s.phase ≡ draining
        → pending s.chan ≡ true
        → loop_step channel scan s ≡ record s { chan = (try_recv s.chan).1 }
    unfolding loop_step
    step-drain s p waits =
        rw (loop_step, p, (recv-pending s.chan waits).0)
          (ap (λ q. record s { phase = q; chan = (try_recv s.chan).1 }) p)

    pub step-begin :
        (s : System channel)
        → s.phase ≡ draining
        → pending s.chan ≡ false
        → loop_step channel scan s
          ≡ record s { phase = scanning; covered = s.asked; scans = suc s.scans }
    unfolding loop_step
    step-begin s p none = rw (loop_step, p, recv-none s.chan none) refl

    pub step-finish :
        (s : System channel)
        → s.phase ≡ scanning
        → loop_step channel scan s ≡ record s { phase = waiting; db = (scan s.scans s.db).1 }
    unfolding loop_step
    step-finish s p = rw (loop_step, p) refl

    pub step-boot :
        (s : System channel)
        → s.phase ≡ starting
        → loop_step channel scan s
          ≡ record s { phase = waiting; chan = (try_send s.chan).1; asked = suc s.asked }
    unfolding loop_step
    step-boot s p = rw (loop_step, p) refl

    draining_not_scanning : {p : Phase} → p ≡ draining → p ≡ scanning → ⊥
    draining_not_scanning d e = cc (d, e)

    finish-request :
        (s : System channel)
        → Good s
        → s.phase ≡ scanning
        → (s.covered ≡ s.asked) ⊎ (pending s.chan ≡ true)
    finish-request s g p = elim g.request [
      | inl covered ↦ inl covered
      | inr (inl waits) ↦ inr waits
      | inr (inr drains) ↦ absurd (draining_not_scanning drains p)
    ]

    pub loop_step-NoneLost : (s : System channel) → Good s → Good (loop_step channel scan s)
    loop_step-NoneLost s g = elim (Phase-cases s.phase) [
      | inl p ↦
          let (_, waits, still, _) = sent s.chan g.opened in
          subst Good (sym (step-boot s p)) (record {
            opened = still;
            watcher = g.watcher;
            poller = g.poller;
            bound = le_suc g.bound;
            request = inr (inl waits);
          })
      | inr (inl p) ↦ elim (Bool-cases (pending s.chan)) [
        | inr none ↦ subst Good (sym (step-idle s p none)) g
        | inl waits ↦ subst Good (sym (step-wake s p waits)) (record {
          opened = (recv-pending s.chan waits).2 ∙ g.opened;
          watcher = g.watcher;
          poller = g.poller;
          bound = g.bound;
          request = inr (inr refl);
        })
      ]
      | inr (inr (inl p)) ↦ elim (Bool-cases (pending s.chan)) [
        | inr none ↦ subst Good (sym (step-begin s p none)) (record {
          opened = g.opened;
          watcher = g.watcher;
          poller = g.poller;
          bound = omega arith;
          request = inl refl;
        })
        | inl waits ↦ subst Good (sym (step-drain s p waits)) (record {
          opened = (recv-pending s.chan waits).2 ∙ g.opened;
          watcher = g.watcher;
          poller = g.poller;
          bound = g.bound;
          request = inr (inr p);
        })
      ]
      | inr (inr (inr p)) ↦ subst Good (sym (step-finish s p)) (record {
        opened = g.opened;
        watcher = g.watcher;
        poller = g.poller;
        bound = g.bound;
        request = elim (finish-request s g p) [ inl c ↦ inl c | inr w ↦ inr (inl w) ];
      })
    ]

    Step-NoneLost : (s t : System channel) → Good s → Step channel scan s t → Good t
    Step-NoneLost s _ g (watched d _) = watch-NoneLost d s g
    Step-NoneLost s _ g (polled _) = poll-NoneLost s g
    Step-NoneLost s _ g (requested _) = rescan-NoneLost s g
    Step-NoneLost s _ g (looped _) = loop_step-NoneLost s g

    pub Reach-NoneLost : (s t : System channel) → Good s → Reach channel scan s t → Good t
    Reach-NoneLost s _ g here = g
    Reach-NoneLost s t g (next u _ r step) = Step-NoneLost u t (Reach-NoneLost s u g r) step
