-- ===== src/Rescan.antt =====
-- src/scan.rs, `spawn_loop`; src/watcher.rs; src/poller.rs; `admin_rescan` of src/routes.rs; and the part
-- of src/main.rs that starts them: the requests for a scan, which share a channel with room for
-- one. The channel is tokio's, the interface `Channel`.
pub mod Lost
pub mod Covered
use comic_stream.Common.{ℕ, zero, suc, ◌==◌, ◌≡◌, Bool, true, false, not, ◌&&◌, if◌then◌else◌, List}
use comic_stream.Text.{Text, codes}
use comic_stream.Http.{Outside, done, failed}
use comic_stream.Db.{Db, Action}

-- What `try_send` answers.
pub data Sent : Type 0 where
  accepted full closed : Sent

-- A channel of units with room for one: `pending` says whether it holds a message, `is_closed` whether
-- its receiver is gone.
pub record Channel : Type 1 where
  pub State : Type 0
  pub empty : State
  pub pending : State → Bool
  pub is_closed : State → Bool
  pub try_send : State → Sent × State
  pub try_recv : State → Bool × State
  pub drop_receiver : State → State
  pub new_lem : (pending empty ≡ false) × (is_closed empty ≡ false)
  pub closed_lem : (c : State) → is_closed (drop_receiver c) ≡ true
  pub send-closed : (c : State) → is_closed c ≡ true → try_send c ≡ (closed, c)
  pub send-full : (c : State) → is_closed c ≡ false → pending c ≡ true → try_send c ≡ (full, c)
  pub send-accepted :
      (c : State)
      → is_closed c ≡ false
      → pending c ≡ false
      → ((try_send c).0 ≡ accepted)
        × (pending (try_send c).1 ≡ true)
        × (is_closed (try_send c).1 ≡ false)
  pub recv-pending :
      (c : State)
      → pending c ≡ true
      → ((try_recv c).0 ≡ true)
        × (pending (try_recv c).1 ≡ false)
        × (is_closed (try_recv c).1 ≡ is_closed c)
  pub recv-none : (c : State) → pending c ≡ false → try_recv c ≡ (false, c)

-- What the debouncer hands to the watcher: the number of events, or errors.
pub data Debounced : Type 0 where
  events : ℕ → Debounced
  errors : List Text → Debounced

-- Where the task of `spawn_loop` stands: before its own first request, at `recv`, in the loop of
-- `try_recv`, or in a scan.
pub data Phase : Type 0 where
  starting waiting draining scanning : Phase

module _ (channel : Channel) where
  open channel use {State, empty, try_send, try_recv, drop_receiver}

  -- The server's state. `asked` counts the requests made, and `covered` those made before
  -- the latest scan started; `scans` counts the scans.
  pub record System : Type 0 where
    pub chan : State
    pub phase : Phase
    pub watching : Bool
    pub polling : Bool
    pub db : Db
    pub asked : ℕ
    pub covered : ℕ
    pub scans : ℕ

  -- The thread of the watcher and the task of the poller go on unless the channel is closed.
  abbrev pub goes_on : Sent → Bool
  goes_on closed = false
  goes_on _ = true

  -- The body of the watcher's loop: whether it goes on, and the channel.
  unfoldable pub on_debounced : Debounced → State → Bool × State
  on_debounced (errors errs) c = (true, c)
  on_debounced (events zero) c = (true, c)
  on_debounced (events (suc n)) c = (goes_on (try_send c).0, (try_send c).1)

  -- Whether the watcher asks for a scan.
  abbrev pub asks : Debounced → Bool
  asks (errors errs) = false
  asks (events zero) = false
  asks (events (suc n)) = true

  -- The body of the poller's loop.
  unfoldable pub on_tick : State → Bool × State
  on_tick c = (goes_on (try_send c).0, (try_send c).1)

  abbrev pub rescan_answer : Sent → ℕ × Text
  rescan_answer accepted = (202, codes "rescan queued\n")
  rescan_answer full = (202, codes "rescan already pending\n")
  rescan_answer closed = (503, codes "scanner unavailable\n")

  unfoldable pub admin_rescan : State → (ℕ × Text) × State
  admin_rescan c = (rescan_answer (try_send c).0, (try_send c).1)

  abbrev pub count_if : Bool → ℕ → ℕ
  count_if b n = if b then suc n else n

  -- The watcher's thread, if it is there, meets what the debouncer hands it.
  unfoldable pub watch : Debounced → System → System
  unfolding on_debounced
  watch d s =
      if s.watching
      then record s {
        watching = (on_debounced d s.chan).0;
        chan = (on_debounced d s.chan).1;
        asked = count_if (asks d) s.asked;
      }
      else s

  unfoldable pub poll : System → System
  unfolding on_tick
  poll s =
      if s.polling
      then record s { polling = (on_tick s.chan).0; chan = (on_tick s.chan).1; asked = suc s.asked }
      else s

  unfoldable pub rescan : System → System
  unfolding admin_rescan
  rescan s = record s { chan = (admin_rescan s.chan).1; asked = suc s.asked }

  module _ (scan : ℕ → Action (Unit {0})) where
    -- What the task of `spawn_loop` does next. The server's state keeps a sender, so that `recv` waits
    -- while there is no message. A scan that fails is logged, and what it wrote stays.
    unfoldable pub loop_step : System → System
    loop_step s = elim s.phase [
      | starting ↦ record s { phase = waiting; chan = (try_send s.chan).1; asked = suc s.asked }
      | waiting ↦
          if (try_recv s.chan).0
          then record s { phase = draining; chan = (try_recv s.chan).1 }
          else s
      | draining ↦
          if (try_recv s.chan).0 then record s { chan = (try_recv s.chan).1 } else record s {
            phase = scanning;
            chan = (try_recv s.chan).1;
            covered = s.asked;
            scans = suc s.scans;
          }
      | scanning ↦ record s { phase = waiting; db = (scan s.scans s.db).1 }
    ]

    -- The task alone, for a number of steps.
    unfoldable pub loop : ℕ → System → System
    unfolding loop_step
    loop zero s = s
    loop (suc n) s = loop n (loop_step s)

    -- The steps of the server, in any order.
    pub data Step : System → System → Type 0 where
      watched : (d : Debounced) (s : System) → Step s (watch d s)
      polled : (s : System) → Step s (poll s)
      requested : (s : System) → Step s (rescan s)
      looped : (s : System) → Step s (loop_step s)

    pub data Reach (s : System) : System → Type 0 where
      here : Reach s s
      next : (t u : System) → Reach s t → Step t u → Reach s u

  -- What `main` starts: the task, the watcher unless it is switched off or could not start, and the
  -- poller if there is an interval.
  unfoldable pub start : Bool → Bool → Bool → Db → System
  start no_watch watcher_starts has_interval db = record {
    chan = empty;
    phase = starting;
    watching = not no_watch && watcher_starts;
    polling = has_interval;
    db = db;
    asked = 0;
    covered = 0;
    scans = 0;
  }

  -- The channel of a server that does not scan: nothing receives.
  unfoldable pub no_scan : State
  no_scan = drop_receiver empty
