-- ===== src/Watchdog/Expiry.antt =====
-- When the watchdog takes a worker for stuck.
use dstx.Common.{ℕ, ◌+◌, ◌<◌, ◌≡◌, ◌≢◌, ◌↔◌, ◌⊎◌, true, arith}
use dstx.Watchdog.{is_expired}

-- A worker is taken for stuck in exactly two cases: its heartbeat is more than 5 s older than the
-- time that the watchdog read, or it is newer than that time (by less than 2 ^ 64 us, less 5 s). A
-- heartbeat of 0 never is.
pub is_expired_iff :
    (now hb : ℕ)
    → now < 18446744073709551616
    → hb < 18446744073709551616
    → (is_expired now hb ≡ true)
      ↔ ((hb ≢ 0) × ((hb + 5000000 < now) ⊎ ((now < hb) × (hb < now + 18446744073704551616))))
unfolding is_expired
is_expired_iff now hb lt lt' = ground arith
