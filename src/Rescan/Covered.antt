-- ===== src/Rescan/Covered.antt =====
-- src/scan.rs, `spawn_loop`: every request for a scan is followed by one.
use comic_stream.Common.{
  ℕ, zero, suc, ◌≤◌, ◌≡◌, refl, sym, ◌∙◌, ap, subst, Option, Bool, true, false, not, ◌&&◌, arith,
  Bool-cases, inl, inr,
}
use comic_stream.Text.{Text, codes}
use comic_stream.Db.{Db, Statement, Action}
use comic_stream.Scan.{Disk}
use comic_stream.Scan.Walk.{Nodes}
use comic_stream.Scan.Walk
use comic_stream.Rescan.{
  Channel, Phase, waiting, draining, System, admin_rescan, loop_step, loop, Reach, start, no_scan,
}
use comic_stream.Rescan.Lost.{
  NoneLost, sent, Phase-cases, step-wake, step-drain, step-begin, step-finish, step-boot,
  loop_step-NoneLost, Reach-NoneLost,
}

module _ (channel : Channel) where
  open channel use {State, pending, is_closed, try_send, try_recv, recv-pending}

  module _ (watches polls : Bool) (scan : ℕ → Action (Unit {0})) where
    abbrev Good : System channel → Type 0
    Good = NoneLost channel watches polls

    -- A number of requests is covered when a scan has started after them; it stays so.
    loop_step-covered :
        (k : ℕ) (s : System channel)
        → Good s
        → k ≤ s.covered
        → k ≤ (loop_step channel scan s).covered
    unfolding loop_step
    loop_step-covered k s g h = elim (Phase-cases channel watches polls scan s.phase) [
      | inl p ↦ rw (loop_step, p) h
      | inr (inl p) ↦ elim (Bool-cases (try_recv s.chan).0) [
        | inl got ↦ rw (loop_step, p, got) h
        | inr none ↦ rw (loop_step, p, none) h
      ]
      | inr (inr (inl p)) ↦ elim (Bool-cases (try_recv s.chan).0) [
        | inl got ↦ rw (loop_step, p, got) h
        | inr none ↦ rw (loop_step, p, none) (up k s.covered s.asked h g.bound)
      ]
      | inr (inr (inr p)) ↦ rw (loop_step, p) h
    ]
      where
        up : (a b c : ℕ) → a ≤ b → b ≤ c → a ≤ c
        up a b c h k = omega (arith, h, k)

    loop-covered :
        (n k : ℕ) (s : System channel)
        → Good s
        → k ≤ s.covered
        → k ≤ (loop channel scan n s).covered
    unfolding loop
    loop-covered zero k s g h = h
    loop-covered (suc n) k s g h =
        loop-covered n k (loop_step channel scan s)
          (loop_step-NoneLost channel watches polls scan s g) (loop_step-covered k s g h)

    -- How soon the task alone covers what has been asked, from each of its phases.
    begin-covers :
        (n : ℕ) (s : System channel)
        → Good s
        → s.phase ≡ draining
        → pending s.chan ≡ false
        → s.asked ≤ (loop channel scan (suc n) s).covered
    unfolding loop
    begin-covers n s g p none =
        loop-covered n s.asked (loop_step channel scan s)
          (loop_step-NoneLost channel watches polls scan s g)
          (subst (λ t. s.asked ≤ t.covered) (sym (step-begin channel watches polls scan s p none))
            (omega arith))

    drain-covers :
        (n : ℕ) (s : System channel)
        → Good s
        → s.phase ≡ draining
        → s.asked ≤ (loop channel scan (suc (suc n)) s).covered
    unfolding loop
    drain-covers n s g p = elim (Bool-cases (pending s.chan)) [
      | inr none ↦ begin-covers (suc n) s g p none
      | inl waits ↦
          let step = step-drain channel watches polls scan s p waits in
          subst (λ k. k ≤ (loop channel scan (suc n) (loop_step channel scan s)).covered)
            (ap (λ t. t.asked) step)
            (begin-covers n (loop_step channel scan s)
              (loop_step-NoneLost channel watches polls scan s g) (ap (λ t. t.phase) step ∙ p)
              (ap (λ t. pending t.chan) step ∙ (recv-pending s.chan waits).1))
    ]

    wake-covers :
        (n : ℕ) (s : System channel)
        → Good s
        → s.phase ≡ waiting
        → pending s.chan ≡ true
        → s.asked ≤ (loop channel scan (suc (suc n)) s).covered
    unfolding loop
    wake-covers n s g p waits =
        let step = step-wake channel watches polls scan s p waits in
        subst (λ k. k ≤ (loop channel scan (suc n) (loop_step channel scan s)).covered)
          (ap (λ t. t.asked) step)
          (begin-covers n (loop_step channel scan s)
            (loop_step-NoneLost channel watches polls scan s g) (ap (λ t. t.phase) step)
            (ap (λ t. pending t.chan) step ∙ (recv-pending s.chan waits).1))

    covered-le : (a b : ℕ) → a ≡ b → b ≤ a
    covered-le a b e = omega (arith, e)

    waiting_not_draining : {p : Phase} → p ≡ waiting → p ≡ draining → ⊥
    waiting_not_draining w d = cc (w, d)

    wait-covers :
        (n : ℕ) (s : System channel)
        → Good s
        → s.phase ≡ waiting
        → s.asked ≤ (loop channel scan (suc (suc n)) s).covered
    wait-covers n s g p = elim g.request [
      | inl covered ↦ loop-covered (suc (suc n)) s.asked s g (covered-le s.covered s.asked covered)
      | inr (inl waits) ↦ wake-covers n s g p waits
      | inr (inr drains) ↦ absurd (waiting_not_draining p drains)
    ]

    loop-covers : (s : System channel) → Good s → s.asked ≤ (loop channel scan 3 s).covered
    unfolding loop
    loop-covers s g = elim (Phase-cases channel watches polls scan s.phase) [
      | inl p ↦
          let (_, waits, _, _) = sent channel s.chan g.opened in
          let step = step-boot channel watches polls scan s p in
          below s.asked (loop channel scan 2 (loop_step channel scan s)).covered (
            subst (λ k. k ≤ (loop channel scan 2 (loop_step channel scan s)).covered)
              (ap (λ t. t.asked) step)
              (wake-covers 0 (loop_step channel scan s)
                (loop_step-NoneLost channel watches polls scan s g) (ap (λ t. t.phase) step)
                (ap (λ t. pending t.chan) step ∙ waits)))
      | inr (inl p) ↦ wait-covers 1 s g p
      | inr (inr (inl p)) ↦ drain-covers 1 s g p
      | inr (inr (inr p)) ↦
          let step = step-finish channel watches polls scan s p in
          subst (λ k. k ≤ (loop channel scan 2 (loop_step channel scan s)).covered)
            (ap (λ t. t.asked) step)
            (wait-covers 0 (loop_step channel scan s)
              (loop_step-NoneLost channel watches polls scan s g) (ap (λ t. t.phase) step))
    ]
      where
        below : (a b : ℕ) → suc a ≤ b → a ≤ b
        below a b h = omega (arith, h)

  module _ (no_watch watcher_starts has_interval : Bool) (db : Db) where
    start-NoneLost :
        NoneLost channel
          (not no_watch && watcher_starts)
          has_interval
          (start channel no_watch watcher_starts has_interval db)
    unfolding start
    start-NoneLost = record {
      opened = channel.new_lem.1;
      watcher = refl;
      poller = refl;
      bound = omega arith;
      request = inl refl;
    }

    module _ (scan : ℕ → Action (Unit {0})) where
      -- No request is lost: whatever the watcher, the poller, the clients and the task have done since the
      -- start, and however their steps were interleaved, three more steps of the task are enough for a scan to have
      -- started after every request made so far.
      pub asked-covered :
          (s : System channel)
          → Reach channel scan (start channel no_watch watcher_starts has_interval db) s
          → s.asked ≤ (loop channel scan 3 s).covered
      asked-covered s r = loop-covers (not no_watch && watcher_starts) has_interval scan s (
          Reach-NoneLost channel (not no_watch && watcher_starts) has_interval scan _ s
            start-NoneLost r)

      -- As long as the server runs, a client who asks for a scan is answered 202, and the watcher and the
      -- poller stay as they were started.
      pub admin_rescan-202 :
          (s : System channel)
          → Reach channel scan (start channel no_watch watcher_starts has_interval db) s
          → ((admin_rescan channel s.chan).0.0 ≡ 202)
            × (s.watching ≡ (not no_watch && watcher_starts))
            × (s.polling ≡ has_interval)
      unfolding admin_rescan
      admin_rescan-202 s r =
          let good =
            Reach-NoneLost channel (not no_watch && watcher_starts) has_interval scan _ s
              start-NoneLost r in
          ((sent channel s.chan good.opened).3, good.watcher, good.poller)

  -- Without a scan loop the answer is 503, and nothing is sent.
  pub admin_rescan-no_scan :
      admin_rescan channel (no_scan channel)
      ≡ ((503, codes "scanner unavailable\n"), no_scan channel)
  unfolding admin_rescan no_scan
  admin_rescan-no_scan =
      rw (channel.send-closed (no_scan channel) (channel.closed_lem channel.empty)) refl

  -- What a scan meets: the file system, the statements that fail, the time, and the library.
  pub record World : Type 0 where
    pub disk : Disk
    pub refuses : Statement → Option Text
    pub started : ℕ
    pub library : Text
    pub library_name : Option Text
    pub tree : Nodes

  abbrev pub scan_of : World → Action (Unit {0})
  scan_of w = Walk.scan w.disk w.refuses w.started w.library w.library_name w.tree

  module _ (worlds : ℕ → World) where
    abbrev pub scans_of : ℕ → Action (Unit {0})
    scans_of n = scan_of (worlds n)
