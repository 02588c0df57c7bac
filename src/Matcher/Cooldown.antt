-- ===== src/Matcher/Cooldown.antt =====
-- `CooldownGate` of runtime/matcher/cooldown.py, in microseconds of the monotonic clock.
use ava_listener.Base.{leb, ℕ, ◌-◌, Bool}

abbrev pub cooldown_seconds : ℕ
cooldown_seconds = 2000000

-- The gate is the time of the last trigger, 0 at first.
pub record CooldownGate : Type 0 where
  pub last_trigger : ℕ

abbrev pub new_gate : CooldownGate
new_gate = record { last_trigger = 0 }

unfoldable pub can_trigger : ℕ → CooldownGate → Bool
can_trigger now g = leb cooldown_seconds (now - g.last_trigger)

unfoldable pub mark_triggered : ℕ → CooldownGate → CooldownGate
mark_triggered now g = record { last_trigger = now }

unfoldable pub time_remaining : ℕ → CooldownGate → ℕ
time_remaining now g = cooldown_seconds - (now - g.last_trigger)

abbrev pub reset_gate : CooldownGate → CooldownGate
reset_gate g = new_gate
