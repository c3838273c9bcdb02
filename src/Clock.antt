-- ===== src/Clock.antt =====
-- clock.py: the simulated clock. The lock, the callbacks, of which the program registers none, and
-- the pinning of a context, which is for tests, are not modelled.
use mock_sim.Base.{ℕ, ◌+◌}

pub record SimClock : Type 0 where
  pub t : ℕ

-- `SimClock.now`
abbrev pub now : SimClock → ℕ
now c = c.t

-- `SimClock.set`; an instant has its time zone.
unfoldable pub set : ℕ → SimClock → SimClock
set target c = record c { t = target }

-- `SimClock.advance`
abbrev pub advance : ℕ → SimClock → SimClock
advance duration c = record c { t = c.t + duration }
