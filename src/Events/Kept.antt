-- ===== src/Events/Kept.antt =====
-- Where the events go.
use ava_listener.Base.{
  ltb, if◌then◌else◌, ltb→lt, length, length-append, ℕ, zero, suc, ◌+◌, ◌≤◌, ◌≡◌, refl, ap, Bool,
  true, false, Option, none, some, List, [], ◌∷◌, ◌++◌, arith, Bool-cases, inl, inr,
}
use ava_listener.Events.{
  taken, replaced, displace, put_front, pick, Dispatcher, new_dispatcher, work, emit, make_room,
  put_again, Action, emits, makes_room, puts_again, works, act_all, maxsize,
}
use mathlib.Core.Path.{subst}

module _ {A : Type 0} (p : A → Bool) where
  abbrev pub one : A → ℕ
  one x = if p x then 1 else 0

  -- How many events pass the test.
  abbrev pub count : List A → ℕ
  count [] = 0
  count (x ∷ xs) = one x + count xs

  count-append : (xs ys : List A) → count (xs ++ ys) ≡ count xs + count ys
  count-append [] ys = omega arith
  count-append (x ∷ xs) ys = omega (arith, count-append xs ys)

  -- The events that the dispatcher and its emitters answer for.
  abbrev pub known : Dispatcher A → ℕ
  known d =
      count d.queue
      + count d.waiting
      + count d.holding
      + count d.logged
      + count d.failed
      + count d.displaced
      + count d.given_up
      + count d.squeezed_out

  pub record IsKept (n : ℕ) (d : Dispatcher A) : Type 0 where
    pub all_known : known d ≡ n
    pub displaced_how :
        length d.displaced ≡ d.dropped_count + length d.holding + length d.squeezed_out
    pub sized : length d.queue ≤ maxsize

  work-IsKept :
      (b : Bool) (n : ℕ) (q : List A) (d : Dispatcher A)
      → d.queue ≡ q
      → IsKept n d
      → IsKept n (taken b q d)
  work-IsKept b n [] d e h = h
  work-IsKept true n (x ∷ q) d e h = record {
    all_known = omega (arith, h.all_known, ap count e);
    displaced_how = h.displaced_how;
    sized = omega (arith, h.sized, ap length e);
  }
  work-IsKept false n (x ∷ q) d e h = record {
    all_known = omega (arith, h.all_known, ap count e);
    displaced_how = h.displaced_how;
    sized = omega (arith, h.sized, ap length e);
  }

  emit-IsKept : (e : A) (n : ℕ) (d : Dispatcher A) → IsKept n d → IsKept (one e + n) (emit e d)
  unfolding emit
  emit-IsKept e n d h = elim (Bool-cases (ltb (length d.queue) maxsize)) [
    | inl room ↦ rw room (record {
      all_known = omega (arith, h.all_known, count-append d.queue (e ∷ []));
      displaced_how = h.displaced_how;
      sized = omega (arith, ltb→lt (length d.queue) 1000 room, length-append d.queue (e ∷ []));
    })
    | inr full ↦ rw full (record {
      all_known = omega (arith, h.all_known, count-append d.waiting (e ∷ []));
      displaced_how = h.displaced_how;
      sized = h.sized;
    })
  ]

  -- The element that is picked is taken out.
  Picked : List A → Option (A × List A) → Type 0
  Picked xs none = Unit
  Picked xs (some (e, rest)) = (count xs ≡ one e + count rest) × (length xs ≡ length rest + 1)

  put_front-Picked :
      (x : A) (xs : List A) (o : Option (A × List A))
      → Picked xs o
      → Picked (x ∷ xs) (put_front x o)
  unfolding Picked
  put_front-Picked x xs none h = tt
  put_front-Picked x xs (some (e, rest)) h = (omega (arith, h.0), omega (arith, h.1))

  pick-Picked : (n : ℕ) (xs : List A) → Picked xs (pick n xs)
  unfolding pick Picked
  pick-Picked n [] = tt
  pick-Picked zero (x ∷ xs) = (refl, omega arith)
  pick-Picked (suc n) (x ∷ xs) = put_front-Picked x xs (pick n xs) (pick-Picked n xs)

  displace-IsKept :
      (e : A) (rest q : List A) (n : ℕ) (d : Dispatcher A)
      → d.queue ≡ q
      → count d.waiting ≡ one e + count rest
      → IsKept n d
      → IsKept n (displace e rest q d)
  displace-IsKept e rest [] n d f c h = record {
    all_known = omega (arith, h.all_known, c);
    displaced_how = h.displaced_how;
    sized = h.sized;
  }
  displace-IsKept e rest (old ∷ q) n d f c h = record {
    all_known = omega (arith, h.all_known, c, ap count f);
    displaced_how = omega (arith, h.displaced_how);
    sized = omega (arith, h.sized, ap length f);
  }

  make_room-IsKept :
      (o : Option (A × List A)) (n : ℕ) (d : Dispatcher A)
      → Picked d.waiting o
      → IsKept n d
      → IsKept n (elim o [ none ↦ d | some (e, rest) ↦ displace e rest d.queue d ])
  unfolding Picked
  make_room-IsKept none n d k h = h
  make_room-IsKept (some (e, rest)) n d k h = displace-IsKept e rest d.queue n d refl k.0 h

  replaced-IsKept :
      (e : A) (rest : List A) (n : ℕ) (d : Dispatcher A)
      → count d.holding ≡ one e + count rest
      → length d.holding ≡ length rest + 1
      → IsKept n d
      → IsKept n (replaced e rest d)
  replaced-IsKept e rest n d c l h = elim (Bool-cases (ltb (length d.queue) maxsize)) [
    | inl room ↦ rw room (record {
      all_known = omega (arith, h.all_known, c, count-append d.queue (e ∷ []));
      displaced_how = omega (arith, h.displaced_how, l);
      sized = omega (arith, ltb→lt (length d.queue) 1000 room, length-append d.queue (e ∷ []));
    })
    | inr full ↦ rw full (record {
      all_known = omega (arith, h.all_known, c);
      displaced_how = omega (arith, h.displaced_how, l);
      sized = h.sized;
    })
  ]

  put_again-IsKept :
      (o : Option (A × List A)) (n : ℕ) (d : Dispatcher A)
      → Picked d.holding o
      → IsKept n d
      → IsKept n (elim o [ none ↦ d | some (e, rest) ↦ replaced e rest d ])
  unfolding Picked
  put_again-IsKept none n d k h = h
  put_again-IsKept (some (e, rest)) n d k h = replaced-IsKept e rest n d k.0 k.1 h

  abbrev pub emitted : List (Action A) → List A
  emitted [] = []
  emitted (emits e ∷ rest) = e ∷ emitted rest
  emitted (_ ∷ rest) = emitted rest

  act_all-IsKept :
      (actions : List (Action A)) (n : ℕ) (d : Dispatcher A)
      → IsKept n d
      → IsKept (count (emitted actions) + n) (act_all actions d)
  unfolding act_all work make_room put_again
  act_all-IsKept [] n d h = subst (λ k. IsKept k d) (omega arith) h
  act_all-IsKept (emits e ∷ rest) n d h =
      subst (λ k. IsKept k (act_all rest (emit e d))) (omega arith)
        (act_all-IsKept rest (one e + n) (emit e d) (emit-IsKept e n d h))
  act_all-IsKept (makes_room i ∷ rest) n d h =
      act_all-IsKept rest n (make_room i d)
        (make_room-IsKept (pick i d.waiting) n d (pick-Picked i d.waiting) h)
  act_all-IsKept (puts_again i ∷ rest) n d h =
      act_all-IsKept rest n (put_again i d)
        (put_again-IsKept (pick i d.holding) n d (pick-Picked i d.holding) h)
  act_all-IsKept (works b ∷ rest) n d h =
      act_all-IsKept rest n (work b d) (work-IsKept b n d.queue d refl h)

  -- Whatever emitters and worker do in whatever order, every event that is emitted is in one place,
  -- once: of any kind of events, as many were emitted as are in the queue, with an emitter that has
  -- not finished, written, lost in writing, displaced by an emitter, or given up by one. The
  -- displaced events are those that `dropped_count` counts, one for each emitter that has made room
  -- and not finished, and one for each that was squeezed out, which the code does not count. The
  -- queue keeps its size.
  pub act_all-new_dispatcher :
      (actions : List (Action A))
      → IsKept (count (emitted actions)) (act_all actions new_dispatcher)
  unfolding new_dispatcher
  act_all-new_dispatcher actions =
      subst (λ k. IsKept k (act_all actions new_dispatcher)) (omega arith)
        (act_all-IsKept actions 0 new_dispatcher
          (record { all_known = refl; displaced_how = refl; sized = omega arith }))
