-- ===== src/Transport/Server.antt =====
-- The delivery classes of `WSServer` in runtime/transport/websocket_server.py, on a server that
-- has started. Each callback of the event loop is one step, and a task that it makes runs at once.
-- Times are milliseconds. Which sockets are still open when a message goes out is an argument.
pub mod Reliability
pub mod Guaranteed
pub mod Delivery
use ava_listener.Base.{
  ltb, leb, ◌==◌, if◌then◌else◌, length, is_empty, ℕ, ◌+◌, ◌*◌, ◌^◌, String, Bool, ◌||◌, List, [],
  ◌∷◌, ◌++◌, str_eq,
}

pub record Message : Type 0 where
  pub msg_type : String
  pub correlation_id : String
  pub payload : ℕ

pub data Class : Type 0 where
  guaranteed retry : Class

-- An entry of `pending_acks`; its key is the correlation identifier of its message.
pub record Item : Type 0 where
  pub msg : Message
  pub class : Class
  pub retries : ℕ
  pub next_retry : ℕ

pub data Sent : Type 0 where
  single : Message → Sent
  batch : List Message → Sent

-- `sent` holds what went out to the clients of its time, in order.
pub record Server : Type 0 where
  pub clients : List ℕ
  pub offline_queue : List Message
  pub pending_acks : List Item
  pub best_effort_batch : List Message
  pub sent : List Sent

abbrev pub new_server : Server
new_server = record {
  clients = [];
  offline_queue = [];
  pending_acks = [];
  best_effort_batch = [];
  sent = [];
}

abbrev keep_open : (ℕ → Bool) → List ℕ → List ℕ
keep_open is_open [] = []
keep_open is_open (c ∷ cs) = let rest = keep_open is_open cs in if is_open c then c ∷ rest else rest

-- A socket that turns out to be closed is discarded.
pub send_to_clients : (ℕ → Bool) → Sent → Server → Server
send_to_clients is_open x s =
    if is_empty s.clients
    then s
    else record s { clients = keep_open is_open s.clients; sent = s.sent ++ x ∷ [] }

pub send_all : (ℕ → Bool) → List Message → Server → Server
unfolding send_to_clients
send_all is_open [] s = s
send_all is_open (m ∷ ms) s = send_all is_open ms (send_to_clients is_open (single m) s)

abbrev pub drop_client : ℕ → List ℕ → List ℕ
drop_client c [] = []
drop_client c (d ∷ ds) = let rest = drop_client c ds in if d == c then rest else d ∷ rest

-- The start of `_handler`: the offline queue is flushed.
pub connect : ℕ → (ℕ → Bool) → Server → Server
unfolding send_all
connect c is_open s =
    let s' : Server = record s { clients = drop_client c s.clients ++ c ∷ [] } in
    record (send_all is_open s.offline_queue s') { offline_queue = [] }

-- `del pending_acks[id]`, if it is there.
abbrev pub remove : String → List Item → List Item
remove i [] = []
remove i (x ∷ l) = let rest = remove i l in if str_eq x.msg.correlation_id i then rest else x ∷ rest

-- `pending_acks[id] = item`: in place, or at the end. A key stands once, so that nothing is removed
-- behind the place.
abbrev pub put : Item → List Item → List Item
put x [] = x ∷ []
put x (y ∷ l) =
    let rest = put x l in
    if str_eq y.msg.correlation_id x.msg.correlation_id
    then x ∷ remove x.msg.correlation_id l
    else y ∷ rest

abbrev pub is_guaranteed : String → Bool
is_guaranteed t = str_eq t "wake" || str_eq t "fatal_error"

abbrev pub is_retry : String → Bool
is_retry t = str_eq t "speech_start" || str_eq t "speech_end" || str_eq t "error"

abbrev pub is_best_effort : String → Bool
is_best_effort t = str_eq t "partial_transcript" || str_eq t "hypothesis_update"

pub flush_batch : (ℕ → Bool) → Server → Server
unfolding send_to_clients
flush_batch is_open s =
    send_to_clients is_open (batch s.best_effort_batch) (record s { best_effort_batch = [] })

pub add_to_batch : (ℕ → Bool) → Message → Server → Server
unfolding flush_batch
add_to_batch is_open m s =
    let s' : Server = record s { best_effort_batch = s.best_effort_batch ++ m ∷ [] } in
    if leb 10 (length s'.best_effort_batch) then flush_batch is_open s' else s'

abbrev pub tracked : Class → ℕ → Message → Server → Server
tracked c first m s = record s {
  pending_acks =
      put (record { msg = m; class = c; retries = 0; next_retry = first }) s.pending_acks;
}

abbrev pub queued : Message → Server → Server
queued m s = record s { offline_queue = s.offline_queue ++ m ∷ [] }

-- A message that wants an acknowledgement is queued while no client is there.
pub track_message : (ℕ → Bool) → Class → ℕ → Message → Server → Server
unfolding send_to_clients
track_message is_open c first m s =
    if is_empty s.clients
    then queued m s
    else send_to_clients is_open (single m) (tracked c first m s)

unfoldable pub broadcast : (ℕ → Bool) → ℕ → Message → Server → Server
unfolding add_to_batch track_message send_to_clients
broadcast is_open now m s =
    if is_best_effort m.msg_type
    then add_to_batch is_open m s
    else if is_guaranteed m.msg_type
    then track_message is_open guaranteed (now + 500) m s
    else if is_retry m.msg_type
    then track_message is_open retry (now + 100) m s
    else send_to_clients is_open (single m) s

-- What a round of `_retry_loop` does with an entry.
pub data Fate : Type 0 where
  waits dropped : Fate
  retried : Item → Fate

abbrev due_fate : ℕ → Item → Class → Fate
due_fate now x guaranteed = retried (record x { next_retry = now + 500 })
due_fate now x retry =
    if ltb 3 (x.retries + 1)
    then dropped
    else retried (record x { retries = x.retries + 1; next_retry = now + 100 * 2 ^ x.retries })

pub fate : ℕ → Item → Fate
fate now x = if leb x.next_retry now then due_fate now x x.class else waits

abbrev pub survive_of : Fate → Item → List Item → List Item
survive_of waits x l = x ∷ l
survive_of dropped x l = l
survive_of (retried y) x l = y ∷ l

abbrev pub retry_of : Fate → Item → List Message → List Message
retry_of waits x ms = ms
retry_of dropped x ms = ms
retry_of (retried y) x ms = x.msg ∷ ms

pub survivors : ℕ → List Item → List Item
unfolding fate
survivors now [] = []
survivors now (x ∷ l) = survive_of (fate now x) x (survivors now l)

pub to_retry : ℕ → List Item → List Message
unfolding fate
to_retry now [] = []
to_retry now (x ∷ l) = retry_of (fate now x) x (to_retry now l)

pub go_offline : List Message → Server → Server
go_offline [] s = s
go_offline (m ∷ ms) s = go_offline ms (record s {
  pending_acks = remove m.correlation_id s.pending_acks;
  offline_queue = s.offline_queue ++ m ∷ [];
})

unfoldable pub retry_round : (ℕ → Bool) → ℕ → Server → Server
unfolding survivors to_retry go_offline send_all
retry_round is_open now s =
    let s' : Server = record s { pending_acks = survivors now s.pending_acks } in
    let ms : List Message = to_retry now s.pending_acks in
    if is_empty s'.clients then go_offline ms s' else send_all is_open ms s'

-- A round of `_batch_loop`.
pub batch_round : (ℕ → Bool) → Server → Server
unfolding flush_batch
batch_round is_open s = if is_empty s.best_effort_batch then s else flush_batch is_open s

-- What happens to the server.
pub data Action : Type 0 where
  connected : ℕ → (ℕ → Bool) → Action
  disconnected : ℕ → Action
  acknowledged : String → Action
  broadcasted : (ℕ → Bool) → ℕ → Message → Action
  retry_ticked : (ℕ → Bool) → ℕ → Action
  batch_ticked : (ℕ → Bool) → Action

unfoldable pub act : Action → Server → Server
unfolding connect broadcast retry_round batch_round
act (connected c is_open) s = connect c is_open s
act (disconnected c) s = record s { clients = drop_client c s.clients }
act (acknowledged i) s = record s { pending_acks = remove i s.pending_acks }
act (broadcasted is_open now m) s = broadcast is_open now m s
act (retry_ticked is_open now) s = retry_round is_open now s
act (batch_ticked is_open) s = batch_round is_open s

unfoldable pub act_all : List Action → Server → Server
unfolding act
act_all [] s = s
act_all (a ∷ more) s = act_all more (act a s)
