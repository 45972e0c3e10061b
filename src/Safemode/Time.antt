-- ===== src/Safemode/Time.antt =====
-- The time that `getRemainingTime` computes.
use xposed.Prelude.{is_positive, ◌+ℤ◌, ℕ, ◌+◌, ◌*◌, ◌≤◌, ◌<◌, ◌≡◌, true, arith}
use xposed.Safemode.Defs.{Timespec, div_ℤ, get_remaining_time}

abbrev pub nanoseconds : Timespec → ℕ
nanoseconds t = t.tv_sec * 1_000_000_000 + t.tv_nsec

abbrev pub a_second : ℕ
a_second = 1_000_000_000

-- For times whose nanoseconds are less than a second, time remains only before the expiration: the
-- loops of the detection do not begin another wait once the time is up.
get_remaining_time-positive :
    (now expiration : Timespec)
    → now.tv_nsec < a_second
    → expiration.tv_nsec < a_second
    → is_positive (get_remaining_time now expiration) ≡ true
    → nanoseconds now < nanoseconds expiration
unfolding get_remaining_time div_ℤ ◌+ℤ◌
get_remaining_time-positive now expiration a b h = ground arith

-- For such times, time remains as long as a millisecond is left before the expiration, although the
-- difference of the nanoseconds may be negative and is divided towards zero.
get_remaining_time-waits :
    (now expiration : Timespec)
    → now.tv_nsec < a_second
    → expiration.tv_nsec < a_second
    → nanoseconds now + 1_000_000 ≤ nanoseconds expiration
    → is_positive (get_remaining_time now expiration) ≡ true
unfolding get_remaining_time div_ℤ ◌+ℤ◌
get_remaining_time-waits now expiration a b h = ground arith
