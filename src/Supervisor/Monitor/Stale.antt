-- ===== src/Supervisor/Monitor/Stale.antt =====
-- A worker whose heartbeat stays too old under the monitor of runtime/supervisor/supervisor.py.
use ava_listener.Base.{ℕ, ◌-◌, ◌<◌, ◌≡◌, none, some, List, [], ◌∷◌}
use ava_listener.Supervisor.Monitor.{Supervisor, Round}

-- In each round the worker runs with a heartbeat that is too old, counted from its spawn, and a
-- process can be spawned.
abbrev pub AreStale : ℕ → ℕ → List Round → Type 0
AreStale timeout last [] = Unit
AreStale timeout last (r ∷ rs) =
    (r.poll ≡ none)
    × (timeout < r.now - last)
    × ((new : ℕ) × (r.pid ≡ some new))
    × AreStale timeout r.spawned_at rs

record Replaced (r : Round) (s t : Supervisor) : Type 0 where
  proc : t.worker_proc ≡ r.pid
  beat : t.last_heartbeat ≡ r.spawned_at
  timeout : t.heartbeat_timeout ≡ s.heartbeat_timeout
  policy : t.recovery_policy ≡ s.recovery_policy
  going : t.stopped ≡ s.stopped
