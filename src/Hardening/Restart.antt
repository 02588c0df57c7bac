-- ===== src/Hardening/Restart.antt =====
-- runtime/hardening/restart_manager.py: restarts of the four managed subsystems, with the backoff
-- policy of each and a cooldown. Times and delays are in microseconds.
pub mod Request
use ava_listener.Base.{
  ltb, ◌==◌, if◌then◌else◌, ℕ, ◌+◌, ◌-◌, max, String, Bool, true, false, not, ◌&&◌, Option, none,
  some, str_eq,
}
use ava_listener.Hardening.Backoff
use ava_listener.Hardening.Backoff.{RecoveryPolicy, create, fail, should_escalate, reset}

-- `MANAGED_SUBSYSTEMS`, the keys of the manager's tables.
pub data Subsystem : Type 0 where
  audio asr vad matcher : Subsystem

abbrev number : Subsystem → ℕ
number audio = 0
number asr = 1
number vad = 2
number matcher = 3

-- The lookup of a name in the tables; `none` is an unknown subsystem.
unfoldable pub managed : String → Option Subsystem
managed name =
    if str_eq name "audio"
    then some audio
    else if str_eq name "asr"
    then some asr
    else if str_eq name "vad"
    then some vad
    else if str_eq name "matcher"
    then some matcher
    else none

-- `_DEFAULT_POLICIES`.
abbrev pub default_policy : Subsystem → RecoveryPolicy
default_policy audio = create 5 200000 8000000 3
default_policy asr = create 5 100000 4000000 3
default_policy vad = create 3 200000 3200000 2
default_policy matcher = create 3 50000 800000 2

-- `SubsystemRestartRecord`.
pub record RestartRecord : Type 0 where
  pub policy : RecoveryPolicy
  pub restart_count : ℕ
  pub last_restart_ts : ℕ
  pub cooldown : ℕ

abbrev pub new_record : RecoveryPolicy → RestartRecord
new_record p = record { policy = p; restart_count = 0; last_restart_ts = 0; cooldown = 2000000 }

-- The tables are functions of the subsystem; `handlers` says which subsystems have a handler.
pub record RestartManager : Type 0 where
  pub records : Subsystem → RestartRecord
  pub handlers : Subsystem → Bool

unfoldable pub init : RestartManager
init = record { records = λ s. new_record (default_policy s); handlers = λ s. false }

abbrev pub put {ℓ} : {A : Type ℓ} → (Subsystem → A) → Subsystem → A → Subsystem → A
put f s a t = if number t == number s then a else f t

-- `none` is the ValueError of an unknown subsystem.
unfoldable pub register_restart_handler : String → RestartManager → Option RestartManager
unfolding managed
register_restart_handler name m = elim (managed name) [
  | none ↦ none
  | some s ↦ some (record m { handlers = put m.handlers s true })
]

-- What a call reads from outside: the clock at the failure and at the cooldown test, whether the
-- handler returns, and the clock after it.
pub record Readings : Type 0 where
  pub failed_at : ℕ
  pub now : ℕ
  pub handler_returns : Bool
  pub done_at : ℕ

pub data Outcome : Type 0 where
  not_invoked completed failed : Outcome

-- The delay, with the rest of the cooldown if that is longer.
unfoldable pub with_cooldown : ℕ → RestartRecord → ℕ → ℕ
with_cooldown now rec delay =
    let since_last : ℕ = now - rec.last_restart_ts in
    if ltb since_last rec.cooldown && ltb 0 rec.last_restart_ts
    then max delay (rec.cooldown - since_last)
    else delay

pub invoke : Readings → RestartRecord → RestartRecord × Outcome
invoke r rec =
    if r.handler_returns
    then (
      record rec { restart_count = rec.restart_count + 1; last_restart_ts = r.done_at },
      completed,
    )
    else (rec, failed)

-- The body of `request_restart` on the record of one subsystem: the record, the delay that is
-- returned, and what became of the handler.
unfoldable pub request_record : Readings → Bool → RestartRecord → RestartRecord × ℕ × Outcome
unfolding invoke with_cooldown
request_record r has_handler rec =
    let (backoff, policy) = fail r.failed_at rec.policy in
    let rec' : RestartRecord = record rec { policy = policy } in
    let delay : ℕ = with_cooldown r.now rec' backoff in
    let (rec'', outcome) =
      if has_handler && not (should_escalate policy) then invoke r rec' else (rec', not_invoked) in
    (rec'', delay, outcome)

unfoldable pub request_managed :
    Option Subsystem → Readings → RestartManager → Option (RestartManager × ℕ × Outcome)
request_managed none r m = none
request_managed (some s) r m =
    let (rec, delay, outcome) = request_record r (m.handlers s) (m.records s) in
    some (record m { records = put m.records s rec }, delay, outcome)

-- `none` is the ValueError of an unknown subsystem.
unfoldable pub request_restart :
    String → Readings → RestartManager → Option (RestartManager × ℕ × Outcome)
unfolding managed request_managed
request_restart name r m = request_managed (managed name) r m

unfoldable pub record_success : String → RestartManager → RestartManager
unfolding managed reset
record_success name m = elim (managed name) [
  | none ↦ m
  | some s ↦
      let rec : RestartRecord = m.records s in
      record m { records = put m.records s (record rec { policy = reset rec.policy }) }
]

unfoldable pub manager_should_escalate : String → RestartManager → Bool
unfolding managed
manager_should_escalate name m = elim (managed name) [
  | none ↦ false
  | some s ↦ should_escalate (m.records s).policy
]

unfoldable pub get_restart_count : String → RestartManager → ℕ
unfolding managed
get_restart_count name m = elim (managed name) [ none ↦ 0 | some s ↦ (m.records s).restart_count ]
