-- ===== src/Kernel/Lifecycle/Graph.antt =====
-- The transition diagram of a subsystem as a relation, and what the methods of
-- runtime/kernel/lifecycle.py do in it.
use ava_listener.Base.{◌≡◌, refl, ◌≢◌, ◌↔◌, ◌⊎◌, inl, inr, some, arith}
use ava_listener.Kernel.Lifecycle.{
  SubsystemState, offline, initializing, ready, active, faulted, recovering, transition, shutdown,
  recover,
}

infix 40 ◌⟶◌
-- The edges, as the documentation of the subsystems draws them.
pub data ◌⟶◌ : SubsystemState → SubsystemState → Type 0 where
  boot : offline ⟶ initializing
  booted : initializing ⟶ ready
  boot_failed : initializing ⟶ faulted
  activate : ready ⟶ active
  retire : ready ⟶ offline
  pause : active ⟶ ready
  fail : active ⟶ faulted
  repair : faulted ⟶ recovering
  give_up : faulted ⟶ offline
  repaired : recovering ⟶ active
  repair_failed : recovering ⟶ faulted

pub data Reach (s : SubsystemState) : SubsystemState → Type 0 where
  here : Reach s s
  next : {t u : SubsystemState} → Reach s t → t ⟶ u → Reach s u

pub ruleset edges = (
  boot, booted, boot_failed, activate, retire, pause, fail, repair, give_up, repaired,
  repair_failed,
)

edge-transition : {s t : SubsystemState} → s ⟶ t → transition s t ≡ some t
unfolding transition
edge-transition boot = refl
edge-transition _ = refl

transition_self : (s : SubsystemState) → transition s s ≡ some s
unfolding transition
transition_self offline = refl
transition_self _ = refl

edge_of_transition : (s t : SubsystemState) → transition s t ≡ some t → (t ≡ s) ⊎ (s ⟶ t)
unfolding transition
edge_of_transition s t h = grind (arith, edges)

-- The calls of `transition` that do not raise are exactly those that stay or follow an edge.
pub transition-edges : (s t : SubsystemState) → (transition s t ≡ some t) ↔ ((t ≡ s) ⊎ (s ⟶ t))
transition-edges s t =
    (edge_of_transition s t, elim [ inl e ↦ rw e (transition_self s) | inr e ↦ edge-transition e ])

-- From every state `shutdown` ends in OFFLINE without raising, along edges of the diagram.
pub shutdown-offline : (s : SubsystemState) → (shutdown s ≡ some offline) × Reach s offline
unfolding shutdown
shutdown-offline offline = (refl, here)
shutdown-offline _ = (refl, search (here, next, edges))

-- `recover` never raises. It takes ACTIVE and FAULTED to RECOVERING, along edges, and leaves every
-- other state as it is.
pub recover-cases :
    (s : SubsystemState)
    → ((s ≡ active) ⊎ (s ≡ faulted)) × (recover s ≡ some recovering) × Reach s recovering
      ⊎ (s ≢ active) × (s ≢ faulted) × (recover s ≡ some s)
unfolding recover
recover-cases active = inl (inl refl, refl, search (here, next, edges))
recover-cases faulted = inl (inr refl, refl, search (here, next, edges))
recover-cases offline = inr (λ e. cc, λ e. cc, refl)
recover-cases _ = inr (λ e. cc, λ e. cc, refl)
