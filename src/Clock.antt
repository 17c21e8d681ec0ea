-- ===== src/Clock.antt =====
-- package time: `time.Now`, `time.Since` and the durations of the source, in nanoseconds.
use turnfly.Prelude.{ℕ, ◌-◌, ◌*◌, ◌^◌, min, if◌then◌else◌}
use turnfly.Int.{ℤ, pos, negsuc, ◌-ℤ◌, ltb_ℤ}

-- `time.Now`: the monotonic clock, which never runs backwards, and the distance of the wall clock
-- from the Unix epoch. Differences of two readings are monotonic. The zero `time.Time` is
-- monotonic time 0.
pub record Reading : Type 0 where
  pub mono : ℕ
  pub wall : ℤ

abbrev pub max_duration : ℕ
max_duration = 2 ^ 63 - 1

-- `time.Since(t)` at monotonic time `now`; `Time.Sub` saturates.
unfoldable pub since : ℕ → ℕ → ℕ
since now t = min (now - t) max_duration

-- `t.Sub(u)` on wall times, saturating at both ends.
unfoldable pub wall_sub : ℤ → ℤ → ℤ
unfolding ◌-ℤ◌
wall_sub t u =
    let d = t -ℤ u in
    if ltb_ℤ (pos max_duration) d
    then pos max_duration
    else if ltb_ℤ d (negsuc max_duration)
    then negsuc max_duration
    else d

abbrev pub millisecond : ℕ
millisecond = 1_000_000

abbrev pub second : ℕ
second = 1000 * millisecond

abbrev pub minute : ℕ
minute = 60 * second

abbrev pub hour : ℕ
hour = 60 * minute
