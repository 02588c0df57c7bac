-- ===== src/Supervisor/Restarts.antt =====
-- `RestartPolicy` of runtime/supervisor/restart_policy.py. Clock readings are natural numbers of
-- one unit, and the deque holds the oldest time first.
pub mod Window
use ava_listener.Base.{ltb, if◌then◌else◌, length, ℕ, ◌-◌, Bool, List, [], ◌∷◌, ◌++◌}

pub record RestartPolicy : Type 0 where
  pub max_restarts : ℕ
  pub window : ℕ
  pub timestamps : List ℕ

unfoldable pub create : ℕ → ℕ → RestartPolicy
create max_restarts window = record {
  max_restarts = max_restarts;
  window = window;
  timestamps = [];
}

-- `while timestamps and now - timestamps[0] > window: popleft()`. A time that lies ahead of `now`
-- has a negative age in the source and the age 0 here: neither exceeds the window.
unfoldable pub expire : ℕ → ℕ → List ℕ → List ℕ
expire now window [] = []
expire now window (t ∷ ts) =
    let rest = expire now window ts in if ltb window (now - t) then rest else t ∷ ts

-- `now` is what `time.monotonic()` returns in the call.
unfoldable pub record_restart : ℕ → RestartPolicy → RestartPolicy
record_restart now p = record p { timestamps = expire now p.window (p.timestamps ++ now ∷ []) }

unfoldable pub can_restart : ℕ → RestartPolicy → RestartPolicy × Bool
can_restart now p =
    let kept = expire now p.window p.timestamps in
    (record p { timestamps = kept }, ltb (length kept) p.max_restarts)
