-- ===== src/SessionTimer/Negotiation.antt =====
-- src/hermes_voip/session_timer.py: the negotiation and the two deadlines.
use hermes_voip.Base.{ℕ, ◌*◌, ◌≤◌, ◌<◌, ◌≡◌, ◌↔◌, ◌⊎◌, Option, none, some, ok, arith}
use hermes_voip.SessionTimer.{
  Refresher, SessionExpires, accept, negotiate_uas_timers, refresh_interval, teardown_deadline,
  min_se_floor, classify_refresh_failure, teardown,
}

-- An offer that a UAS accepts keeps to RFC 4028: it reaches the minimum, the agreed interval is the
-- one that was offered, neither raised nor lowered, and a refresher that the peer named is not
-- overridden (the offer named none, or the agreed one).
negotiate_accept :
    (offered : SessionExpires) (min_se local_se delta : ℕ) (default refresher : Refresher)
    → negotiate_uas_timers (some offered) min_se local_se default ≡ ok (accept delta refresher)
    → (min_se ≤ delta)
      × (delta ≡ offered.delta)
      × ((offered.refresher ≡ none) ⊎ (offered.refresher ≡ some refresher))
unfolding negotiate_uas_timers
negotiate_accept offered min_se local_se delta default refresher h = ground arith

-- Whatever the peer offers, timers below the floor of 90 seconds are never agreed on, if the
-- configured minimum keeps the floor.
pub negotiate_floor :
    (offered : Option SessionExpires) (min_se local_se delta : ℕ) (default refresher : Refresher)
    → min_se_floor ≤ min_se
    → negotiate_uas_timers offered min_se local_se default ≡ ok (accept delta refresher)
    → min_se_floor ≤ delta
unfolding negotiate_uas_timers
negotiate_floor none min_se local_se delta default refresher floor h = ground arith
negotiate_floor (some s) min_se local_se delta default refresher floor h = ground arith

-- The refresher acts before the other side gives up: for every positive interval the refresh is due
-- strictly before the teardown (both in sixths of a second), and the teardown is not after expiry.
pub refresh_before_teardown :
    (delta : ℕ)
    → 0 < delta
    → (refresh_interval delta * 3 < teardown_deadline delta * 2)
      × (teardown_deadline delta ≤ delta * 3)
unfolding refresh_interval teardown_deadline
refresh_before_teardown delta pos = omega arith

-- A failed refresh ends the call exactly when no final response came, or one of status 408 or 481.
pub teardown_iff :
    (status : Option ℕ)
    → (classify_refresh_failure status ≡ teardown)
      ↔ ((status ≡ none) ⊎ ((status ≡ some 408) ⊎ (status ≡ some 481)))
unfolding classify_refresh_failure
teardown_iff none = ground arith
teardown_iff (some n) = ground arith
