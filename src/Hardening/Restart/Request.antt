-- ===== src/Hardening/Restart/Request.antt =====
-- What one request of runtime/hardening/restart_manager.py does.
use ava_listener.Base.{ℕ, ◌+◌, ◌≤◌, ◌≡◌, ◌⊎◌, Bool, arith}
use ava_listener.Hardening.Backoff.{fail}
use ava_listener.Hardening.Restart.{RestartRecord, Readings, Outcome, with_cooldown, request_record}

module _ (r : Readings) (has_handler : Bool) (rec : RestartRecord) where
  abbrev result : RestartRecord × ℕ × Outcome
  result = request_record r has_handler rec

  -- Who waits for the delay that is returned waits at least for the backoff of the policy, and
  -- starts no sooner than the cooldown after the last restart, if there was one.
  pub request_record-delay :
      rec.last_restart_ts ≤ r.now
      → ((fail r.failed_at rec.policy).0 ≤ result.1)
        × ((rec.last_restart_ts ≡ 0) ⊎ (rec.last_restart_ts + rec.cooldown ≤ r.now + result.1))
  unfolding request_record with_cooldown
  request_record-delay h = ground arith
