-- ===== src/Transport/Server/Delivery.antt =====
-- A guaranteed message of runtime/transport/websocket_server.py, from its broadcast on.
use ava_listener.Base.{
  leb, if◌then◌else◌, length, is_empty, All, ℕ, ◌+◌, String, ◌≡◌, refl, ap, ◌∙◌, ◌⊎◌, inl, inr,
  Bool, true, false, not, List, [], ◌∷◌, ◌++◌, arith, str_eq, if_keeps,
}
use ava_listener.Transport.Server.{
  Message, Class, guaranteed, retry, Item, single, batch, Server, send_to_clients, put, tracked,
  is_guaranteed, is_retry, is_best_effort, flush_batch, add_to_batch, track_message, broadcast,
  batch_round, Action, connected, disconnected, acknowledged, broadcasted, retry_ticked,
  batch_ticked, act, act_all,
}
use ava_listener.Transport.Server.Guaranteed.{
  IsIn, IsIn-left, IsIn-last, has_key, IsOwned, IsKept, put-IsOwned, remove-IsOwned, has_key-remove,
  has_key-put, has_key-put_new, absent-IsOwned, send-IsKept, retry_round-IsKept,
}

-- Neither a new connection, which flushes the queue, nor the acknowledgement of `m`, nor another
-- message under its identifier.
abbrev pub spares : Message → Action → Bool
spares m (connected c is_open) = false
spares m (acknowledged i) = not (str_eq i m.correlation_id)
spares m (broadcasted is_open now n) = not (str_eq n.correlation_id m.correlation_id)
spares m _ = true

not-false : (b : Bool) → not b ≡ true → b ≡ false
not-false b h = ground arith

flush-IsKept :
    (m : Message) (is_open : ℕ → Bool) (s : Server) → IsKept m s → IsKept m (flush_batch is_open s)
unfolding flush_batch
flush-IsKept m is_open s h =
    send-IsKept m is_open (batch s.best_effort_batch) (record s { best_effort_batch = [] })
      (record { owned = h.owned; place = h.place })

add_to_batch-IsKept :
    (m n : Message) (is_open : ℕ → Bool) (s : Server)
    → IsKept m s
    → IsKept m (add_to_batch is_open n s)
unfolding add_to_batch
add_to_batch-IsKept m n is_open s h =
    let s' : Server = record s { best_effort_batch = s.best_effort_batch ++ n ∷ [] } in
    let k : IsKept m s' = record { owned = h.owned; place = h.place } in
    if_keeps (IsKept m) (leb 10 (length s'.best_effort_batch)) (flush-IsKept m is_open s' k) k

track_message-IsKept :
    (m n : Message) (is_open : ℕ → Bool) (c : Class) (first : ℕ) (s : Server)
    → str_eq n.correlation_id m.correlation_id ≡ false
    → IsKept m s
    → IsKept m (track_message is_open c first n s)
unfolding track_message
track_message-IsKept m n is_open c first s e h =
    let x : Item = record { msg = n; class = c; retries = 0; next_retry = first } in
    if_keeps (IsKept m) (is_empty s.clients)
      (record {
        owned = h.owned;
        place = elim h.place [ inl p ↦ inl p | inr p ↦ inr (IsIn-left m n s.offline_queue p) ];
      })
      (send-IsKept m is_open (single n) (tracked c first n s) (record {
        owned = put-IsOwned m x s.pending_acks (λ k. absurd (cc)) h.owned;
        place = elim h.place [
          | inl p ↦ inl (has_key-put m.correlation_id x s.pending_acks e ∙ p)
          | inr p ↦ inr p
        ];
      }))

broadcast-IsKept :
    (m n : Message) (is_open : ℕ → Bool) (now : ℕ) (s : Server)
    → str_eq n.correlation_id m.correlation_id ≡ false
    → IsKept m s
    → IsKept m (broadcast is_open now n s)
unfolding broadcast
broadcast-IsKept m n is_open now s e h =
    if_keeps (IsKept m) (is_best_effort n.msg_type) (add_to_batch-IsKept m n is_open s h) (
      if_keeps (IsKept m) (is_guaranteed n.msg_type)
        (track_message-IsKept m n is_open guaranteed (now + 500) s e h)
        (if_keeps (IsKept m) (is_retry n.msg_type)
          (track_message-IsKept m n is_open retry (now + 100) s e h)
          (send-IsKept m is_open (single n) s h)))

act-IsKept :
    (m : Message) (a : Action) (s : Server) → spares m a ≡ true → IsKept m s → IsKept m (act a s)
unfolding act batch_round
act-IsKept m (connected c is_open) s e h = absurd (cc)
act-IsKept m (disconnected c) s e h = record { owned = h.owned; place = h.place }
act-IsKept m (acknowledged i) s e h = record {
  owned = remove-IsOwned m i s.pending_acks h.owned;
  place = elim h.place [
    | inl p ↦ inl (has_key-remove i m.correlation_id s.pending_acks (not-false _ e) ∙ p)
    | inr p ↦ inr p
  ];
}
act-IsKept m (broadcasted is_open now n) s e h =
    broadcast-IsKept m n is_open now s (not-false _ e) h
act-IsKept m (retry_ticked is_open now) s e h = retry_round-IsKept m is_open now s h
act-IsKept m (batch_ticked is_open) s e h =
    if_keeps (IsKept m) (is_empty s.best_effort_batch) h (flush-IsKept m is_open s h)

act_all-IsKept :
    (m : Message) (acts : List Action) (s : Server)
    → All (λ a. spares m a ≡ true) acts
    → IsKept m s
    → IsKept m (act_all acts s)
unfolding act_all
act_all-IsKept m [] s e h = h
act_all-IsKept m (a ∷ more) s e h = act_all-IsKept m more (act a s) e.1 (act-IsKept m a s e.0 h)

put_new-IsOwned :
    (x : Item) (l : List Item)
    → x.class ≡ guaranteed
    → has_key x.msg.correlation_id l ≡ false
    → All (IsOwned x.msg) (put x l)
put_new-IsOwned x l c h = put-IsOwned x.msg x l (λ k. (refl, c)) (absent-IsOwned x.msg l h)

track_message-starts :
    (m : Message) (is_open : ℕ → Bool) (first : ℕ) (s : Server)
    → has_key m.correlation_id s.pending_acks ≡ false
    → IsKept m (track_message is_open guaranteed first m s)
unfolding track_message
track_message-starts m is_open first s h =
    let x : Item = record { msg = m; class = guaranteed; retries = 0; next_retry = first } in
    if_keeps (IsKept m) (is_empty s.clients)
      (record {
        owned = absent-IsOwned m s.pending_acks h;
        place = inr (IsIn-last m s.offline_queue);
      })
      (send-IsKept m is_open (single m) (tracked guaranteed first m s) (record {
        owned = put_new-IsOwned x s.pending_acks refl h;
        place = inl (has_key-put_new x s.pending_acks);
      }))

second_branch :
    (m : Message) (b g : Bool) (x y z : Server)
    → b ≡ false
    → g ≡ true
    → IsKept m y
    → IsKept m (if b then x else if g then y else z)
second_branch m true g x y z e f h = absurd (cc)
second_branch m false true x y z e f h = h
second_branch m false false x y z e f h = absurd (cc)

is_guaranteed-type :
    (t : String)
    → (t ≡ "wake") ⊎ (t ≡ "fatal_error")
    → (is_best_effort t ≡ false) × (is_guaranteed t ≡ true)
is_guaranteed-type t (inl e) = (ap is_best_effort e, ap is_guaranteed e)
is_guaranteed-type t (inr e) = (ap is_best_effort e, ap is_guaranteed e)

broadcast-starts :
    (m : Message) (is_open : ℕ → Bool) (now : ℕ) (s : Server)
    → (m.msg_type ≡ "wake") ⊎ (m.msg_type ≡ "fatal_error")
    → has_key m.correlation_id s.pending_acks ≡ false
    → IsKept m (broadcast is_open now m s)
unfolding broadcast
broadcast-starts m is_open now s t h =
    let c = is_guaranteed-type m.msg_type t in
    second_branch m (is_best_effort m.msg_type) (is_guaranteed m.msg_type)
      (add_to_batch is_open m s) (track_message is_open guaranteed (now + 500) m s)
      (if is_retry m.msg_type
        then track_message is_open retry (now + 100) m s
        else send_to_clients is_open (single m) s)
      c.0 c.1 (track_message-starts m is_open (now + 500) s h)

-- A wake or a fatal error is broadcast under an identifier that is not pending, on any server.
-- From then on, as long as no client connects, it is not acknowledged, and its identifier is not
-- used again, it is pending or in the offline queue, whatever else is broadcast, retried or
-- acknowledged and whichever clients leave.
pub broadcast-IsKept_on :
    (m : Message) (is_open : ℕ → Bool) (now : ℕ) (s : Server) (acts : List Action)
    → (m.msg_type ≡ "wake") ⊎ (m.msg_type ≡ "fatal_error")
    → has_key m.correlation_id s.pending_acks ≡ false
    → All (λ a. spares m a ≡ true) acts
    → (has_key m.correlation_id (act_all acts (broadcast is_open now m s)).pending_acks ≡ true)
      ⊎ IsIn m (act_all acts (broadcast is_open now m s)).offline_queue
broadcast-IsKept_on m is_open now s acts t h e =
    (act_all-IsKept m acts (broadcast is_open now m s) e
      (broadcast-starts m is_open now s t h)).place
