-- ===== src/Transport/Server/Guaranteed.antt =====
-- A guaranteed message of runtime/transport/websocket_server.py until its acknowledgement.
use ava_listener.Base.{
  ltb, leb, Bool-cases, is_empty, All, ℕ, ◌+◌, String, ◌≡◌, refl, sym, ap, ◌∙◌, ◌⊎◌, inl, inr, Bool,
  true, false, ◌||◌, List, [], ◌∷◌, ◌++◌, arith, str_eq, eq_iff, if_keeps,
}
use mathlib.Core.Path.{subst}
use ava_listener.Transport.Server.{
  Message, Class, guaranteed, retry, Item, Sent, single, Server, send_to_clients, send_all, remove,
  put, due_fate, fate, Fate, waits, dropped, retried, survive_of, retry_of, survivors, to_retry,
  go_offline, retry_round,
}

pub data IsIn (m : Message) : List Message → Type 0 where
  here : {ms : List Message} → IsIn m (m ∷ ms)
  there : {n : Message} {ms : List Message} → IsIn m ms → IsIn m (n ∷ ms)

pub IsIn-left : (m n : Message) (ms : List Message) → IsIn m ms → IsIn m (ms ++ n ∷ [])
IsIn-left m n [] h = elim h [ ]
IsIn-left m n (_ ∷ ms) here = here
IsIn-left m n (k ∷ ms) (there h) = there (IsIn-left m n ms h)

pub IsIn-last : (m : Message) (ms : List Message) → IsIn m (ms ++ m ∷ [])
IsIn-last m [] = here
IsIn-last m (n ∷ ms) = there (IsIn-last m ms)

abbrev pub has_key : String → List Item → Bool
has_key i [] = false
has_key i (x ∷ l) = str_eq x.msg.correlation_id i || has_key i l

-- An entry under the identifier of `m` is that of `m`.
abbrev pub IsOwned : Message → Item → Type 0
IsOwned m x =
    str_eq x.msg.correlation_id m.correlation_id ≡ true → (x.msg ≡ m) × (x.class ≡ guaranteed)

-- The message is pending or queued.
pub record IsKept (m : Message) (s : Server) : Type 0 where
  pub owned : All (IsOwned m) s.pending_acks
  pub place : (has_key m.correlation_id s.pending_acks ≡ true) ⊎ IsIn m s.offline_queue

pub remove-IsOwned :
    (m : Message) (i : String) (l : List Item) → All (IsOwned m) l → All (IsOwned m) (remove i l)
remove-IsOwned m i [] h = tt
remove-IsOwned m i (x ∷ l) h =
    if_keeps (All (IsOwned m)) (str_eq x.msg.correlation_id i) (remove-IsOwned m i l h.1)
      (h.0, remove-IsOwned m i l h.1)

pub put-IsOwned :
    (m : Message) (x : Item) (l : List Item)
    → IsOwned m x
    → All (IsOwned m) l
    → All (IsOwned m) (put x l)
put-IsOwned m x [] t h = (t, tt)
put-IsOwned m x (y ∷ l) t h =
    if_keeps (All (IsOwned m)) (str_eq y.msg.correlation_id x.msg.correlation_id)
      (t, remove-IsOwned m x.msg.correlation_id l h.1) (h.0, put-IsOwned m x l t h.1)

pub has_key-remove :
    (i k : String) (l : List Item) → str_eq i k ≡ false → has_key k (remove i l) ≡ has_key k l
has_key-remove i k [] h = refl
has_key-remove i k (x ∷ l) h = ground (
  arith,
  eq_iff i k,
  eq_iff x.msg.correlation_id i,
  eq_iff x.msg.correlation_id k,
  has_key-remove i k l h,
)

pub has_key-put :
    (k : String) (x : Item) (l : List Item)
    → str_eq x.msg.correlation_id k ≡ false
    → has_key k (put x l) ≡ has_key k l
has_key-put k x [] h = ground arith
has_key-put k x (y ∷ l) h = ground (
  arith,
  eq_iff x.msg.correlation_id k,
  eq_iff y.msg.correlation_id x.msg.correlation_id,
  eq_iff y.msg.correlation_id k,
  has_key-put k x l h,
  has_key-remove x.msg.correlation_id k l h,
)

pub has_key-put_new : (x : Item) (l : List Item) → has_key x.msg.correlation_id (put x l) ≡ true
has_key-put_new x [] = ground (arith, eq_iff x.msg.correlation_id x.msg.correlation_id)
has_key-put_new x (y ∷ l) =
    ground (arith, eq_iff x.msg.correlation_id x.msg.correlation_id, has_key-put_new x l)

-- An identifier that is not pending is nobody's.
pub absent-IsOwned :
    (m : Message) (l : List Item) → has_key m.correlation_id l ≡ false → All (IsOwned m) l
absent-IsOwned m [] h = tt
absent-IsOwned m (x ∷ l) h = (λ e. absurd (ground arith), absent-IsOwned m l (ground arith))

-- What a fate says of its entry: only a retried class is dropped, and an update keeps the message.
abbrev FateFits : Item → Fate → Type 0
FateFits x waits = Unit
FateFits x dropped = x.class ≡ retry
FateFits x (retried y) = (y.msg ≡ x.msg) × (y.class ≡ x.class)

due_fate-FateFits : (now : ℕ) (x : Item) (c : Class) → x.class ≡ c → FateFits x (due_fate now x c)
due_fate-FateFits now x guaranteed e = (refl, refl)
due_fate-FateFits now x retry e = if_keeps (FateFits x) (ltb 3 (x.retries + 1)) e (refl, refl)

fate-FateFits : (now : ℕ) (x : Item) → FateFits x (fate now x)
unfolding fate
fate-FateFits now x =
    if_keeps (FateFits x) (leb x.next_retry now) (due_fate-FateFits now x x.class refl) tt

survive_of-IsOwned :
    (m : Message) (f : Fate) (x : Item) (l : List Item)
    → FateFits x f
    → IsOwned m x
    → All (IsOwned m) l
    → All (IsOwned m) (survive_of f x l)
survive_of-IsOwned m waits x l e t h = (t, h)
survive_of-IsOwned m dropped x l e t h = h
survive_of-IsOwned m (retried y) x l e t h = (
  (λ k.
      let o = t (ap (λ n. str_eq n.correlation_id m.correlation_id) (sym e.0) ∙ k) in
      (e.0 ∙ o.0, e.1 ∙ o.1)),
  h,
)

-- A guaranteed entry stays under its identifier.
survive_of-has_key :
    (m : Message) (f : Fate) (x : Item) (l : List Item)
    → FateFits x f
    → IsOwned m x
    → has_key m.correlation_id (survive_of f x l)
      ≡ (str_eq x.msg.correlation_id m.correlation_id || has_key m.correlation_id l)
survive_of-has_key m waits x l e t = refl
survive_of-has_key m dropped x l e t =
    elim (Bool-cases (str_eq x.msg.correlation_id m.correlation_id)) [
      | inl k ↦ let o = t k in absurd (cc)
      | inr k ↦ rw k refl
    ]
survive_of-has_key m (retried y) x l e t =
    ap (λ n. str_eq n.correlation_id m.correlation_id || has_key m.correlation_id l) e.0

survivors-IsOwned :
    (m : Message) (now : ℕ) (l : List Item) → All (IsOwned m) l → All (IsOwned m) (survivors now l)
unfolding survivors
survivors-IsOwned m now [] h = tt
survivors-IsOwned m now (x ∷ l) h =
    survive_of-IsOwned m (fate now x) x (survivors now l) (fate-FateFits now x) h.0
      (survivors-IsOwned m now l h.1)

has_key-survivors :
    (m : Message) (now : ℕ) (l : List Item)
    → All (IsOwned m) l
    → has_key m.correlation_id (survivors now l) ≡ has_key m.correlation_id l
unfolding survivors
has_key-survivors m now [] h = refl
has_key-survivors m now (x ∷ l) h =
    survive_of-has_key m (fate now x) x (survivors now l) (fate-FateFits now x) h.0
    ∙ ap (λ b. str_eq x.msg.correlation_id m.correlation_id || b) (has_key-survivors m now l h.1)

-- A message under the identifier of `m` is `m`.
abbrev Agrees : Message → Message → Type 0
Agrees m n = str_eq n.correlation_id m.correlation_id ≡ true → n ≡ m

retry_of-Agrees :
    (m : Message) (f : Fate) (x : Item) (ms : List Message)
    → IsOwned m x
    → All (Agrees m) ms
    → All (Agrees m) (retry_of f x ms)
retry_of-Agrees m waits x ms t h = h
retry_of-Agrees m dropped x ms t h = h
retry_of-Agrees m (retried y) x ms t h = ((λ k. (t k).0), h)

to_retry-Agrees :
    (m : Message) (now : ℕ) (l : List Item) → All (IsOwned m) l → All (Agrees m) (to_retry now l)
unfolding to_retry
to_retry-Agrees m now [] h = tt
to_retry-Agrees m now (x ∷ l) h =
    retry_of-Agrees m (fate now x) x (to_retry now l) h.0 (to_retry-Agrees m now l h.1)

-- What is retried without a client goes to the offline queue.
offline_place :
    (m n : Message) (l : List Item) (q : List Message)
    → Agrees m n
    → (has_key m.correlation_id l ≡ true) ⊎ IsIn m q
    → (has_key m.correlation_id (remove n.correlation_id l) ≡ true) ⊎ IsIn m (q ++ n ∷ [])
offline_place m n l q a p = elim (Bool-cases (str_eq n.correlation_id m.correlation_id)) [
  | inl k ↦ inr (subst (λ o. IsIn m (q ++ o ∷ [])) (sym (a k)) (IsIn-last m q))
  | inr k ↦ elim p [
    | inl h ↦ inl (has_key-remove n.correlation_id m.correlation_id l k ∙ h)
    | inr h ↦ inr (IsIn-left m n q h)
  ]
]

go_offline-IsKept :
    (m : Message) (ms : List Message) (s : Server)
    → All (Agrees m) ms
    → IsKept m s
    → IsKept m (go_offline ms s)
unfolding go_offline
go_offline-IsKept m [] s a h = h
go_offline-IsKept m (n ∷ ms) s a h =
    go_offline-IsKept m ms
      (record s {
        pending_acks = remove n.correlation_id s.pending_acks;
        offline_queue = s.offline_queue ++ n ∷ [];
      })
      a.1
      (record {
        owned = remove-IsOwned m n.correlation_id s.pending_acks h.owned;
        place = offline_place m n s.pending_acks s.offline_queue a.0 h.place;
      })

pub send-IsKept :
    (m : Message) (is_open : ℕ → Bool) (x : Sent) (s : Server)
    → IsKept m s
    → IsKept m (send_to_clients is_open x s)
unfolding send_to_clients
send-IsKept m is_open x s h =
    if_keeps (IsKept m) (is_empty s.clients) h (record { owned = h.owned; place = h.place })

send_all-IsKept :
    (m : Message) (is_open : ℕ → Bool) (ms : List Message) (s : Server)
    → IsKept m s
    → IsKept m (send_all is_open ms s)
unfolding send_all
send_all-IsKept m is_open [] s h = h
send_all-IsKept m is_open (n ∷ ms) s h =
    send_all-IsKept m is_open ms (send_to_clients is_open (single n) s)
      (send-IsKept m is_open (single n) s h)

pub retry_round-IsKept :
    (m : Message) (is_open : ℕ → Bool) (now : ℕ) (s : Server)
    → IsKept m s
    → IsKept m (retry_round is_open now s)
unfolding retry_round
retry_round-IsKept m is_open now s h =
    let s' : Server = record s { pending_acks = survivors now s.pending_acks } in
    let k : IsKept m s' = record {
      owned = survivors-IsOwned m now s.pending_acks h.owned;
      place = elim h.place [
        | inl p ↦ inl (has_key-survivors m now s.pending_acks h.owned ∙ p)
        | inr p ↦ inr p
      ];
    } in
    if_keeps (IsKept m) (is_empty s.clients)
      (go_offline-IsKept m (to_retry now s.pending_acks) s'
        (to_retry-Agrees m now s.pending_acks h.owned) k)
      (send_all-IsKept m is_open (to_retry now s.pending_acks) s' k)
