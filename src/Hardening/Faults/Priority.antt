-- ===== src/Hardening/Faults/Priority.antt =====
-- The order in which runtime/hardening/fault_classifier.py asks its questions.
use ava_listener.Base.{String, ◌≡◌, refl, ◌↔◌, Bool, true, false, arith}
use ava_listener.Hardening.Faults.{
  critical, ExceptionClass, file_not_found_error, memory_error, system_exit, keyboard_interrupt,
  derived, classify_exception, raised, classify, is_critical,
}

-- `e` is the class `c` or a class below it.
pub data IsBelow (c : ExceptionClass) : ExceptionClass → Type 0 where
  itself : IsBelow c c
  deeper : {e : ExceptionClass} (name : String) → IsBelow c e → IsBelow c (derived name e)

-- The classes that the source lists as critical.
pub data IsListed : ExceptionClass → Type 0 where
  no_file : IsListed file_not_found_error
  no_memory : IsListed memory_error
  exit : IsListed system_exit
  interrupt : IsListed keyboard_interrupt

is_critical-below : {c e : ExceptionClass} → IsListed c → IsBelow c e → is_critical e ≡ true
unfolding is_critical
is_critical-below no_file itself = refl
is_critical-below no_memory itself = refl
is_critical-below exit itself = refl
is_critical-below interrupt itself = refl
is_critical-below l (deeper name b) = is_critical-below l b

IsBelow-of-is_critical :
    (e : ExceptionClass) → is_critical e ≡ true → (c : ExceptionClass) × IsListed c × IsBelow c e
unfolding is_critical
IsBelow-of-is_critical file_not_found_error h = (file_not_found_error, no_file, itself)
IsBelow-of-is_critical memory_error h = (memory_error, no_memory, itself)
IsBelow-of-is_critical system_exit h = (system_exit, exit, itself)
IsBelow-of-is_critical keyboard_interrupt h = (keyboard_interrupt, interrupt, itself)
IsBelow-of-is_critical (derived name e) h =
    let (c, l, b) = IsBelow-of-is_critical e h in (c, l, deeper name b)
IsBelow-of-is_critical _ h = absurd (cc)

critical_iff : (e : ExceptionClass) → (classify_exception e ≡ critical) ↔ (is_critical e ≡ true)
unfolding classify_exception
critical_iff e = (λ h. ground arith, λ h. rw h)

-- With neither the timeout nor the overflow flag, a raised exception is a critical fault exactly if
-- its class is, or lies below, one of the four critical classes. A missing file is thus critical,
-- although it is also one of the transient OSErrors.
pub classify-critical :
    (e : ExceptionClass) (w : Bool)
    → (classify
          (raised e)
          (record { is_timeout = false; is_queue_overflow = false; is_watchdog = w })
        ≡ critical)
      ↔ ((c : ExceptionClass) × IsListed c × IsBelow c e)
unfolding classify
classify-critical e w = (
  λ h. IsBelow-of-is_critical e ((critical_iff e).0 h),
  λ b. (critical_iff e).1 (is_critical-below b.1 b.2),
)
