-- ===== src/Duration.antt =====
-- std::time::Duration and Instant as the queues use them (src/blocking_queue.rs,
-- src/crossbeam_blocking_queue.rs): both are numbers of nanoseconds.
use command_executor.Base.{
  ℕ, ◌+◌, ◌-◌, ◌*◌, ◌^◌, Bool, true, false, Option, none, some, ltb, if◌then◌else◌,
}

-- `Duration::MAX`: u64::MAX seconds and 999_999_999 nanoseconds.
abbrev pub max_duration : ℕ
max_duration = (2 ^ 64 - 1) * 1_000_000_000 + 999_999_999

-- The variables `t` and `start` of the wait loops.
pub record Timer : Type 0 where
  pub t : ℕ
  pub start : ℕ

-- `let mut t = timeout; let mut start = Instant::now();`
abbrev pub start_timer : ℕ → ℕ → Timer
start_timer timeout now = record { t = timeout; start = now }

-- `Instant::elapsed` is 0 where the clock would have gone back, as truncated `-` is.
abbrev pub elapsed : Timer → ℕ → ℕ
elapsed w now = now - w.start

-- `let elapsed = start.elapsed(); if elapsed < t { t -= elapsed; start = Instant::now(); }
-- else { break }`: `none` is the break. The clock is read twice, as `now` and as `restart`.
unfoldable pub count_down : ℕ → ℕ → Timer → Option Timer
count_down now restart w =
    if ltb (elapsed w now) w.t
    then some (record { t = w.t - elapsed w now; start = restart })
    else none

-- What follows `wait_timeout`: a reported timeout breaks at once.
unfoldable pub after_wait : Bool → ℕ → ℕ → Timer → Option Timer
unfolding count_down
after_wait true now restart w = none
after_wait false now restart w = count_down now restart w
