-- ===== src/Supervisor/Monitor/GivesUp.antt =====
-- When the monitor of runtime/supervisor/supervisor.py gives up.
use ava_listener.Base.{
  Bool-cases, ℕ, ◌≡◌, refl, ap, ◌∙◌, ◌⊎◌, inl, inr, true, false, none, some, List, [], ◌∷◌, arith,
}
use ava_listener.Supervisor.Restarts.{can_restart}
use ava_listener.Supervisor.Monitor.{
  Supervisor, Round, handle_worker_exit, monitor_round, monitor_loop,
}

-- With no worker held the loop does nothing, whatever happens outside.
monitor_loop-no_worker :
    (s : Supervisor) (rs : List Round) → s.worker_proc ≡ none → monitor_loop s rs ≡ s
unfolding monitor_loop
monitor_loop-no_worker s [] h = refl
monitor_loop-no_worker s (r ∷ rs) h =
    ap (λ t. monitor_loop t rs) (unfold monitor_round in ground arith)
    ∙ monitor_loop-no_worker s rs h

exit_refused :
    (r : Round) (s : Supervisor)
    → (can_restart r.asked_at s.restart_policy).1 ≡ false
    → (handle_worker_exit r s).worker_proc ≡ none
unfolding handle_worker_exit
exit_refused r s h = ground arith

exit_allowed :
    (r : Round) (s : Supervisor) (new : ℕ)
    → r.pid ≡ some new
    → (can_restart r.asked_at s.restart_policy).1 ≡ true
    → (handle_worker_exit r s).worker_proc ≡ some new
unfolding handle_worker_exit
exit_allowed r s new p h = ground arith

-- `_handle_worker_exit`, when a process can be spawned: a new worker is held exactly if the restart
-- policy allows a restart. If it does not, no worker is held and no later round of the monitor
-- starts one: the supervisor has given up for good.
pub handle_worker_exit_gate :
    (r : Round) (s : Supervisor) (new : ℕ)
    → r.pid ≡ some new
    → ((can_restart r.asked_at s.restart_policy).1 ≡ true)
        × ((handle_worker_exit r s).worker_proc ≡ some new)
      ⊎ ((can_restart r.asked_at s.restart_policy).1 ≡ false)
        × ((rs : List Round) → (monitor_loop (handle_worker_exit r s) rs).worker_proc ≡ none)
handle_worker_exit_gate r s new p = elim (Bool-cases (can_restart r.asked_at s.restart_policy).1) [
  | inl e ↦ inl (e, exit_allowed r s new p e)
  | inr e ↦ inr (
    e,
    λ rs.
        let n = exit_refused r s e in
        ap (λ t. t.worker_proc) (monitor_loop-no_worker (handle_worker_exit r s) rs n) ∙ n,
  )
]
