-- ===== src/Robot/Time.antt =====
-- The clock functions of lab6/src/common.c, and the test for a stereo pair.
use sys_op.Prelude.{
  ℕ, ◌+◌, ◌*◌, ◌/◌, ◌%◌, ◌≤◌, ◌<◌, ◌≡◌, Option, none, some, Bool, if◌then◌else◌, arith, ◌==◌,
}
use sys_op.Prelude.Int.{ℤ, pos, negsuc}
use sys_op.Prelude.Double.{Double}

pub record Timespec : Type 0 where
  pub tv_sec : ℕ
  pub tv_nsec : ℕ

pub record Frame : Type 0 where
  pub frame_id : ℕ
  pub timestamp : Timespec

-- The period of a frequency in whole nanoseconds, as a request to clock_nanosleep; `none`: the
-- function returns at once.
unfoldable pub sleep_for_freq : ℤ → Option Timespec
sleep_for_freq (negsuc n) = none
sleep_for_freq (pos freq_hz) =
    let period_ns = 1_000_000_000 / freq_hz in
    if freq_hz == 0
    then none
    else some (record { tv_sec = period_ns / 1_000_000_000; tv_nsec = period_ns % 1_000_000_000 })

below : (n d : ℕ) → n / d * d ≤ n
below n d = grind arith

above : (n d : ℕ) → 0 < d → n < (n / d + 1) * d
above n d h = grind arith

-- For each positive frequency the sleep is a valid time, and is the longest whole number of
-- nanoseconds for which `freq_hz` sleeps last at most a second.
pub sleep_for_freq_lem :
    (freq_hz : ℕ)
    → 0 < freq_hz
    → (t : Timespec) × (sleep_for_freq (pos freq_hz) ≡ some t)
      × (t.tv_nsec < 1_000_000_000)
      × ((t.tv_sec * 1_000_000_000 + t.tv_nsec) * freq_hz ≤ 1_000_000_000)
      × (1_000_000_000 < (t.tv_sec * 1_000_000_000 + t.tv_nsec + 1) * freq_hz)
unfolding sleep_for_freq
sleep_for_freq_lem freq_hz h = (
  record { tv_sec = period / 1_000_000_000; tv_nsec = period % 1_000_000_000 },
  ground arith,
  omega arith,
  rw whole (below 1_000_000_000 freq_hz),
  rw whole (above 1_000_000_000 freq_hz h),
)
  where
    period : ℕ
    period = 1_000_000_000 / freq_hz

    whole : period / 1_000_000_000 * 1_000_000_000 + period % 1_000_000_000 ≡ period
    whole = omega arith

module _ (fl : Double) where
  open fl use {D, of_int, add, sub, mul, div, neg, ltb}

  abbrev to_ms : Timespec → D
  to_ms t = add (mul (of_int t.tv_sec) (of_int 1000)) (div (of_int t.tv_nsec) (of_int 1_000_000))

  unfoldable pub time_diff_ms : Timespec → Timespec → D
  time_diff_ms start end = sub (to_ms end) (to_ms start)

  abbrev pub sync_tolerance_ms : ℕ
  sync_tolerance_ms = 20

  -- The test of the synchronizer for two frames.
  unfoldable pub is_pair : Frame → Frame → Bool
  is_pair left right =
      let diff = time_diff_ms left.timestamp right.timestamp in
      ltb (if ltb diff (of_int 0) then neg diff else diff) (of_int sync_tolerance_ms)
