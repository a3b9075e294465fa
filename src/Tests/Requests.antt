-- ===== src/Tests/Requests.antt =====
-- A server that is asked for scans.
use comic_stream.Common.{ℕ, ◌≤◌, ◌≡◌, refl, Bool, true, false, none}
use comic_stream.Db.{Action}
use comic_stream.Rescan.{
  Sent, accepted, full, closed, Channel, events, System, watch, rescan, loop_step, loop, watched,
  requested, looped, Reach, here, next, start,
}
use comic_stream.Rescan.Covered.{asked-covered, World, scans_of}
use comic_stream.Tests.Library.{small_disk, refuses_none, library, shelf, before}

-- A channel as two Booleans: whether it holds a message, and whether the receiver is gone.
pub sends : Bool × Bool → Sent × (Bool × Bool)
sends (p, true) = (closed, (p, true))
sends (true, false) = (full, (true, false))
sends (false, false) = (accepted, (true, false))

pub receives : Bool × Bool → Bool × (Bool × Bool)
receives (true, c) = (true, (false, c))
receives (false, c) = (false, (false, c))

pub sends-closed : (c : Bool × Bool) → c.1 ≡ true → sends c ≡ (closed, c)
unfolding sends
sends-closed (p, true) e = refl
sends-closed (p, false) e = absurd (cc e)

pub sends-full : (c : Bool × Bool) → c.1 ≡ false → c.0 ≡ true → sends c ≡ (full, c)
unfolding sends
sends-full (p, true) e h = absurd (cc e)
sends-full (true, false) e h = refl
sends-full (false, false) e h = absurd (cc h)

pub sends-accepted :
    (c : Bool × Bool)
    → c.1 ≡ false
    → c.0 ≡ false
    → ((sends c).0 ≡ accepted) × ((sends c).1.0 ≡ true) × ((sends c).1.1 ≡ false)
unfolding sends
sends-accepted (p, true) e h = absurd (cc e)
sends-accepted (true, false) e h = absurd (cc h)
sends-accepted (false, false) e h = (refl, refl, refl)

pub receives-pending :
    (c : Bool × Bool)
    → c.0 ≡ true
    → ((receives c).0 ≡ true) × ((receives c).1.0 ≡ false) × ((receives c).1.1 ≡ c.1)
unfolding receives
receives-pending (true, c) e = (refl, refl, refl)
receives-pending (false, c) e = absurd (cc e)

pub receives-none : (c : Bool × Bool) → c.0 ≡ false → receives c ≡ (false, c)
unfolding receives
receives-none (true, c) e = absurd (cc e)
receives-none (false, c) e = refl

abbrev pub flags : Channel
flags = record {
  State = Bool × Bool;
  empty = (false, false);
  pending = λ c. c.0;
  is_closed = λ c. c.1;
  try_send = sends;
  try_recv = receives;
  drop_receiver = λ c. (c.0, true);
  new_lem = (refl, refl);
  closed_lem = λ c. refl;
  send-closed = sends-closed;
  send-full = sends-full;
  send-accepted = sends-accepted;
  recv-pending = receives-pending;
  recv-none = receives-none;
}

abbrev worlds : ℕ → World flags
worlds n = record {
  disk = small_disk;
  refuses = refuses_none;
  started = n;
  library = library;
  library_name = none;
  tree = shelf;
}

abbrev scans : ℕ → Action (Unit {0})
scans = scans_of flags worlds

abbrev started : System flags
started = start flags false true false before

abbrev asked_twice : System flags
asked_twice =
    rescan flags (watch flags (events 2) (loop_step flags scans (loop_step flags scans started)))

asked_twice-Reach : Reach flags scans started asked_twice
asked_twice-Reach =
    next _ _ (next _ _ (next _ _ (next _ _ here (looped _)) (looped _)) (watched (events 2) _))
      (requested _)

asked-covered_example : (asked_twice).asked ≤ (loop flags scans 3 asked_twice).covered
asked-covered_example =
    asked-covered flags false true false before scans asked_twice asked_twice-Reach
