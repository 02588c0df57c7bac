-- ===== src/Transport/Server/Reliability.antt =====
-- What runtime/transport/websocket_server.py promises for the delivery classes.
use ava_listener.Base.{
  ltb, leb, if◌then◌else◌, length, is_empty, All, ℕ, ◌+◌, ◌*◌, ◌^◌, ◌≤◌, ◌<◌, String, ◌≡◌, refl,
  Bool, true, false, List, [], ◌∷◌, ◌++◌, arith, str_eq, if_keeps,
}
use ava_listener.Transport.Server.{
  Message, Class, guaranteed, retry, Item, Sent, single, batch, Server, new_server, send_to_clients,
  send_all, drop_client, connect, remove, put, is_guaranteed, is_retry, is_best_effort, flush_batch,
  add_to_batch, track_message, tracked, broadcast, due_fate, fate, Fate, waits, dropped, retried,
  survive_of, survivors, to_retry, go_offline, retry_round, batch_round, Action, connected,
  disconnected, acknowledged, broadcasted, retry_ticked, batch_ticked, act, act_all,
}

-- An entry of the class that is retried has been retried three times at most.
abbrev pub IsTried : Item → Type 0
IsTried x = x.class ≡ retry → x.retries ≤ 3

pub record IsBounded (s : Server) : Type 0 where
  pub tried : All IsTried s.pending_acks
  pub small_batch : length s.best_effort_batch < 10

send-IsBounded :
    (is_open : ℕ → Bool) (x : Sent) (s : Server)
    → IsBounded s
    → IsBounded (send_to_clients is_open x s)
unfolding send_to_clients
send-IsBounded is_open x s h =
    if_keeps IsBounded (is_empty s.clients) h
      (record { tried = h.tried; small_batch = h.small_batch })

send_all-IsBounded :
    (is_open : ℕ → Bool) (ms : List Message) (s : Server)
    → IsBounded s
    → IsBounded (send_all is_open ms s)
unfolding send_all
send_all-IsBounded is_open [] s h = h
send_all-IsBounded is_open (m ∷ ms) s h =
    send_all-IsBounded is_open ms (send_to_clients is_open (single m) s)
      (send-IsBounded is_open (single m) s h)

remove-IsTried : (i : String) (l : List Item) → All IsTried l → All IsTried (remove i l)
remove-IsTried i [] h = tt
remove-IsTried i (x ∷ l) h =
    if_keeps (All IsTried) (str_eq x.msg.correlation_id i) (remove-IsTried i l h.1)
      (h.0, remove-IsTried i l h.1)

put-IsTried : (x : Item) (l : List Item) → IsTried x → All IsTried l → All IsTried (put x l)
put-IsTried x [] t h = (t, tt)
put-IsTried x (y ∷ l) t h =
    if_keeps (All IsTried) (str_eq y.msg.correlation_id x.msg.correlation_id)
      (t, remove-IsTried x.msg.correlation_id l h.1) (h.0, put-IsTried x l t h.1)

-- What a fate leaves of an entry.
abbrev IsTriedFate : Item → Fate → Type 0
IsTriedFate x waits = Unit
IsTriedFate x dropped = Unit
IsTriedFate x (retried y) = IsTried y

if_tried :
    (b : Bool) (now : ℕ) (x : Item)
    → ltb 3 (x.retries + 1) ≡ b
    → IsTriedFate x (
        if b
        then dropped
        else retried (record x { retries = x.retries + 1; next_retry = now + 100 * 2 ^ x.retries }))
if_tried true now x e = tt
if_tried false now x e = λ r. ground arith

due_fate-IsTried : (now : ℕ) (x : Item) (c : Class) → x.class ≡ c → IsTriedFate x (due_fate now x c)
due_fate-IsTried now x guaranteed e = λ r. cc
due_fate-IsTried now x retry e = if_tried (ltb 3 (x.retries + 1)) now x refl

fate-IsTried : (now : ℕ) (x : Item) → IsTriedFate x (fate now x)
unfolding fate
fate-IsTried now x =
    if_keeps (IsTriedFate x) (leb x.next_retry now) (due_fate-IsTried now x x.class refl) tt

survive_of-IsTried :
    (f : Fate) (x : Item) (l : List Item)
    → IsTried x
    → IsTriedFate x f
    → All IsTried l
    → All IsTried (survive_of f x l)
survive_of-IsTried waits x l t u h = (t, h)
survive_of-IsTried dropped x l t u h = h
survive_of-IsTried (retried y) x l t u h = (u, h)

survivors-IsTried : (now : ℕ) (l : List Item) → All IsTried l → All IsTried (survivors now l)
unfolding survivors
survivors-IsTried now [] h = tt
survivors-IsTried now (x ∷ l) h =
    survive_of-IsTried (fate now x) x (survivors now l) h.0 (fate-IsTried now x)
      (survivors-IsTried now l h.1)

go_offline-IsBounded : (ms : List Message) (s : Server) → IsBounded s → IsBounded (go_offline ms s)
unfolding go_offline
go_offline-IsBounded [] s h = h
go_offline-IsBounded (m ∷ ms) s h = go_offline-IsBounded ms _ (record {
  tried = remove-IsTried m.correlation_id s.pending_acks h.tried;
  small_batch = h.small_batch;
})

flush-IsBounded :
    (is_open : ℕ → Bool) (s : Server)
    → All IsTried s.pending_acks
    → IsBounded (flush_batch is_open s)
unfolding flush_batch
flush-IsBounded is_open s h =
    send-IsBounded is_open (batch s.best_effort_batch) (record s { best_effort_batch = [] })
      (record { tried = h; small_batch = omega arith })

batch_cases :
    (b : Bool) (is_open : ℕ → Bool) (m : Message) (s : Server)
    → IsBounded s
    → leb 10 (length (s.best_effort_batch ++ m ∷ [])) ≡ b
    → IsBounded (
        if b
        then flush_batch is_open (record s { best_effort_batch = s.best_effort_batch ++ m ∷ [] })
        else record s { best_effort_batch = s.best_effort_batch ++ m ∷ [] })
batch_cases true is_open m s h e =
    flush-IsBounded is_open (record s { best_effort_batch = s.best_effort_batch ++ m ∷ [] }) h.tried
batch_cases false is_open m s h e = record { tried = h.tried; small_batch = ground arith }

add_to_batch-IsBounded :
    (is_open : ℕ → Bool) (m : Message) (s : Server)
    → IsBounded s
    → IsBounded (add_to_batch is_open m s)
unfolding add_to_batch
add_to_batch-IsBounded is_open m s h =
    batch_cases (leb 10 (length (s.best_effort_batch ++ m ∷ []))) is_open m s h refl

track_message-IsBounded :
    (is_open : ℕ → Bool) (c : Class) (first : ℕ) (m : Message) (s : Server)
    → IsBounded s
    → IsBounded (track_message is_open c first m s)
unfolding track_message
track_message-IsBounded is_open c first m s h =
    if_keeps IsBounded (is_empty s.clients)
      (record { tried = h.tried; small_batch = h.small_batch })
      (send-IsBounded is_open (single m) (tracked c first m s) (record {
        tried =
            put-IsTried (record { msg = m; class = c; retries = 0; next_retry = first })
              s.pending_acks (λ r. omega arith) h.tried;
        small_batch = h.small_batch;
      }))

broadcast-IsBounded :
    (is_open : ℕ → Bool) (now : ℕ) (m : Message) (s : Server)
    → IsBounded s
    → IsBounded (broadcast is_open now m s)
unfolding broadcast
broadcast-IsBounded is_open now m s h =
    if_keeps IsBounded (is_best_effort m.msg_type) (add_to_batch-IsBounded is_open m s h) (
      if_keeps IsBounded (is_guaranteed m.msg_type)
        (track_message-IsBounded is_open guaranteed (now + 500) m s h)
        (if_keeps IsBounded (is_retry m.msg_type)
          (track_message-IsBounded is_open retry (now + 100) m s h)
          (send-IsBounded is_open (single m) s h)))

retry_round-IsBounded :
    (is_open : ℕ → Bool) (now : ℕ) (s : Server)
    → IsBounded s
    → IsBounded (retry_round is_open now s)
unfolding retry_round
retry_round-IsBounded is_open now s h =
    let s' : Server = record s { pending_acks = survivors now s.pending_acks } in
    let k : IsBounded s' = record {
      tried = survivors-IsTried now s.pending_acks h.tried;
      small_batch = h.small_batch;
    } in
    if_keeps IsBounded (is_empty s.clients)
      (go_offline-IsBounded (to_retry now s.pending_acks) s' k)
      (send_all-IsBounded is_open (to_retry now s.pending_acks) s' k)

connect-IsBounded :
    (c : ℕ) (is_open : ℕ → Bool) (s : Server) → IsBounded s → IsBounded (connect c is_open s)
unfolding connect
connect-IsBounded c is_open s h =
    let s' : Server = record s { clients = drop_client c s.clients ++ c ∷ [] } in
    let k : IsBounded (send_all is_open s.offline_queue s') =
      send_all-IsBounded is_open s.offline_queue s'
        (record { tried = h.tried; small_batch = h.small_batch }) in
    record { tried = k.tried; small_batch = k.small_batch }

batch_round-IsBounded :
    (is_open : ℕ → Bool) (s : Server) → IsBounded s → IsBounded (batch_round is_open s)
unfolding batch_round
batch_round-IsBounded is_open s h =
    if_keeps IsBounded (is_empty s.best_effort_batch) h (flush-IsBounded is_open s h.tried)

act-IsBounded : (a : Action) (s : Server) → IsBounded s → IsBounded (act a s)
unfolding act
act-IsBounded (connected c is_open) s h = connect-IsBounded c is_open s h
act-IsBounded (disconnected c) s h = record { tried = h.tried; small_batch = h.small_batch }
act-IsBounded (acknowledged i) s h = record {
  tried = remove-IsTried i s.pending_acks h.tried;
  small_batch = h.small_batch;
}
act-IsBounded (broadcasted is_open now m) s h = broadcast-IsBounded is_open now m s h
act-IsBounded (retry_ticked is_open now) s h = retry_round-IsBounded is_open now s h
act-IsBounded (batch_ticked is_open) s h = batch_round-IsBounded is_open s h

act_all-IsBounded_from :
    (acts : List Action) (s : Server) → IsBounded s → IsBounded (act_all acts s)
unfolding act_all
act_all-IsBounded_from [] s h = h
act_all-IsBounded_from (a ∷ more) s h = act_all-IsBounded_from more (act a s) (act-IsBounded a s h)

-- Whatever happens to a new server, no entry of the class that is retried has been retried more
-- than three times, and the batch holds fewer than ten events.
pub act_all-IsBounded : (acts : List Action) → IsBounded (act_all acts new_server)
act_all-IsBounded acts =
    act_all-IsBounded_from acts new_server (record { tried = tt; small_batch = omega arith })
