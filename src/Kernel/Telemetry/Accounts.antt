-- ===== src/Kernel/Telemetry/Accounts.antt =====
-- The books of runtime/telemetry/collector.py.
use ava_listener.Base.{length, ◌+◌, ◌≡◌, List, ◌++◌, map}
use ava_listener.Kernel.Telemetry.{Telemetry}
use ava_listener.Kernel.Telemetry.Book.{
  misjudged, Book, closed_life, active_life, is_held, confirmations,
}

-- The collector agrees with a book.
pub record Balances (k : Book) (t : Telemetry) : Type 0 where
  pub all_accounted :
      map closed_life t.candidate_sessions ++ active_life t.active_candidate ≡ k.lives
  pub held : is_held t.active_candidate ≡ k.goes_on
  pub closed_how :
      t.false_wake_count + confirmations t.candidate_sessions
      ≡ length t.candidate_sessions + k.misjudged
