-- ===== src/Hardening/Coordinator/Storm.antt =====
-- runtime/hardening/recovery_coordinator.py does not let a failing subsystem restart for ever.
use ava_listener.Base.{
  ℕ, ◌+◌, ◌≤◌, ◌<◌, String, ◌≡◌, refl, sym, Bool, true, Option, none, some, List, [], ◌∷◌, arith,
  if_keeps,
}
use mathlib.Core.Path.{subst}
use ava_listener.Hardening.Faults.{
  Cause, Flags, FaultType, transient, recoverable, critical, classify,
}
use ava_listener.Hardening.Backoff.{RecoveryPolicy, create, fail, should_escalate}
use ava_listener.Hardening.Restart.{
  Subsystem, audio, asr, vad, matcher, default_policy, request_managed, RestartRecord, Readings,
  managed, request_record, request_restart, manager_should_escalate, put, init,
}
use ava_listener.Hardening.Coordinator.{
  Coordinator, RecoveryAction, observe_fault, dispatch, do_restart, do_escalate, do_shutdown,
  after_restart,
}

-- A fault: its subsystem, its cause, the caller's flags, and what the restart reads.
pub record Fault : Type 0 where
  pub subsystem : String
  pub cause : Cause
  pub flags : Flags
  pub readings : Readings

-- The coordinator that a fault leaves: the one before it if the call raises.
abbrev pub settled : Coordinator → Option (Coordinator × RecoveryAction) → Coordinator
settled c none = c
settled c (some (c', action)) = c'

-- Faults one after the other. A fault of an unknown subsystem may raise, which changes nothing.
unfoldable pub observe_all : Coordinator → List Fault → Coordinator
observe_all c [] = c
observe_all c (f ∷ fs) =
    observe_all (settled c (observe_fault f.subsystem f.cause f.flags f.readings c)) fs

-- The restarts are no more than the failures, and fewer than the retries that the policy allows.
pub record IsBounded (allowed : ℕ) (rec : RestartRecord) : Type 0 where
  pub max_kept : rec.policy.max_retries ≡ allowed
  pub fails_first : rec.restart_count ≤ rec.policy.retries
  pub below : rec.restart_count < allowed

fail-policy :
    (now : ℕ) (p : RecoveryPolicy)
    → ((fail now p).1.retries ≡ p.retries + 1) × ((fail now p).1.max_retries ≡ p.max_retries)
unfolding fail
fail-policy now p = (refl, refl)

escalates_at_max : (p : RecoveryPolicy) → p.max_retries ≤ p.retries → should_escalate p ≡ true
unfolding should_escalate
escalates_at_max p h = ground arith

request_record-IsBounded :
    (r : Readings) (b : Bool) {m : ℕ} (rec : RestartRecord)
    → IsBounded m rec
    → IsBounded m (request_record r b rec).0
unfolding request_record
request_record-IsBounded r b rec h =
    ground
      (arith, fail-policy r.failed_at rec.policy, escalates_at_max (fail r.failed_at rec.policy).1)

abbrev pub AllBounded : (Subsystem → ℕ) → Coordinator → Type 0
AllBounded allowed c = (s : Subsystem) → IsBounded (allowed s) (c.restart_mgr.records s)

put-IsBounded :
    (allowed : Subsystem → ℕ) (f : Subsystem → RestartRecord) (s : Subsystem) (rec : RestartRecord)
    → ((t : Subsystem) → IsBounded (allowed t) (f t))
    → IsBounded (allowed s) rec
    → (t : Subsystem) → IsBounded (allowed t) (put f s rec t)
put-IsBounded allowed f audio rec h k audio = k
put-IsBounded allowed f asr rec h k asr = k
put-IsBounded allowed f vad rec h k vad = k
put-IsBounded allowed f matcher rec h k matcher = k
put-IsBounded allowed f _ rec h k audio = h audio
put-IsBounded allowed f _ rec h k asr = h asr
put-IsBounded allowed f _ rec h k vad = h vad
put-IsBounded allowed f _ rec h k matcher = h matcher

module _ (allowed : Subsystem → ℕ) (name : String) (r : Readings) (c : Coordinator) where
  after_request :
      (o : Option Subsystem)
      → AllBounded allowed c
      → AllBounded allowed (settled c (after_restart c (request_managed o r c.restart_mgr)))
  unfolding after_restart request_managed
  after_request none h = h
  after_request (some s) h =
      put-IsBounded allowed c.restart_mgr.records s _ h
        (request_record-IsBounded r (c.restart_mgr.handlers s) (c.restart_mgr.records s) (h s))

  do_restart-AllBounded :
      AllBounded allowed c → AllBounded allowed (settled c (do_restart name r c))
  unfolding do_restart request_restart
  do_restart-AllBounded = after_request (managed name)

  dispatch-AllBounded :
      (f : FaultType) → AllBounded allowed c → AllBounded allowed (settled c (dispatch f name r c))
  unfolding dispatch do_escalate do_shutdown
  dispatch-AllBounded critical h = if_keeps (AllBounded allowed) c.has_shutdown_cb h h
  dispatch-AllBounded transient h = h
  dispatch-AllBounded recoverable h =
      if_keeps (λ o. AllBounded allowed (settled c o)) (manager_should_escalate name c.restart_mgr)
        h (do_restart-AllBounded h)

observe_all-AllBounded :
    (allowed : Subsystem → ℕ) (c : Coordinator) (fs : List Fault)
    → AllBounded allowed c
    → AllBounded allowed (observe_all c fs)
unfolding observe_all observe_fault
observe_all-AllBounded allowed c [] h = h
observe_all-AllBounded allowed c (f ∷ fs) h =
    observe_all-AllBounded allowed
      (settled c (observe_fault f.subsystem f.cause f.flags f.readings c)) fs
      (dispatch-AllBounded allowed f.subsystem f.readings c (classify f.cause f.flags) h)

-- The retries that the default policies allow.
abbrev pub default_retries : Subsystem → ℕ
default_retries s = (default_policy s).max_retries

init-IsBounded : (s : Subsystem) → IsBounded (default_retries s) (init.records s)
unfolding init create
init-IsBounded audio = omega arith
init-IsBounded _ = omega arith

-- From a fresh restart manager, with any handlers, and as long as no success is recorded, every
-- subsystem is restarted fewer times than its policy allows retries, whatever faults are observed.
pub restarts-bounded :
    (c : Coordinator) (fs : List Fault) (s : Subsystem)
    → c.restart_mgr.records ≡ init.records
    → ((observe_all c fs).restart_mgr.records s).restart_count < default_retries s
restarts-bounded c fs s fresh = (observe_all-AllBounded default_retries c fs start s).below
  where
    start : AllBounded default_retries c
    start =
        subst (λ f. (t : Subsystem) → IsBounded (default_retries t) (f t)) (sym fresh)
          init-IsBounded
