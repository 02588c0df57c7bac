-- ===== src/Examples/Serving.antt =====
-- The WebSocket server at concrete inputs.
use ava_listener.Base.{ℕ, String, ◌≡◌, refl, ◌⊎◌, inl, Bool, true, List, [], ◌∷◌}
use ava_listener.Transport.Server.{
  Message, Server, new_server, Action, connected, disconnected, acknowledged, broadcasted,
  retry_ticked, batch_ticked, act_all, broadcast,
}
use ava_listener.Transport.Server.Reliability.{IsBounded, act_all-IsBounded}
use ava_listener.Transport.Server.Guaranteed.{has_key, IsIn}
use ava_listener.Transport.Server.Delivery.{broadcast-IsKept_on}

abbrev message : String → String → Message
message t i = record { msg_type = t; correlation_id = i; payload = 0 }

abbrev all_open : ℕ → Bool
all_open c = true

-- A wake is retried, the client leaves, and the wake goes to the offline queue.
abbrev actions : List Action
actions =
    broadcasted all_open 10 (message "speech_end" "b")
    ∷ retry_ticked all_open 600
    ∷ disconnected 1
    ∷ acknowledged "b"
    ∷ retry_ticked all_open 1200
    ∷ batch_ticked all_open
    ∷ []

act_all-IsBounded_example : IsBounded (act_all (connected 1 all_open ∷ actions) new_server)
act_all-IsBounded_example = act_all-IsBounded (connected 1 all_open ∷ actions)

abbrev served : Server
served = record new_server { clients = 1 ∷ [] }

broadcast-IsKept_on_example :
    (has_key "a" (act_all actions (broadcast all_open 0 (message "wake" "a") served)).pending_acks
      ≡ true)
    ⊎ IsIn
        (message "wake" "a")
        (act_all actions (broadcast all_open 0 (message "wake" "a") served)).offline_queue
broadcast-IsKept_on_example =
    broadcast-IsKept_on (message "wake" "a") all_open 0 served actions (inl refl) refl
      (refl, (refl, (refl, (refl, (refl, (refl, tt))))))
