-- ===== src/Replay/Deque.antt =====
-- The deques of runtime/telemetry/replay_capture.py.
use ava_listener.Base.{
  ltb, ltb→lt, inl, inr, Bool-cases, if◌then◌else◌, length, length-append, ℕ, ◌≤◌, ◌<◌, ◌≡◌, refl,
  sym, ap, ◌∙◌, List, [], ◌∷◌, ◌++◌, arith,
}
use ava_listener.Replay.{append_bounded}

-- The elements of a list but the first ones, so that at most `m` are left.
abbrev pub last : {A : Type 0} → ℕ → List A → List A
last m [] = []
last m (x ∷ xs) = let rest = last m xs in if ltb (length xs) m then x ∷ xs else rest

last-short : {A : Type 0} (m : ℕ) (xs : List A) → length xs ≤ m → last m xs ≡ xs
last-short m [] h = refl
last-short m (x ∷ xs) h = ground (arith, h)

last-long : {A : Type 0} (m : ℕ) (x : A) (xs : List A) → m ≤ length xs → last m (x ∷ xs) ≡ last m xs
last-long m x xs h = ground (arith, h)

append_bounded-short :
    {A : Type 0} (m : ℕ) (x y : A) (ys : List A)
    → length ys < m
    → append_bounded m x (y ∷ ys) ≡ last m (y ∷ (ys ++ x ∷ []))
unfolding append_bounded
append_bounded-short m x y ys h =
    ground (arith, h, length-append ys (x ∷ []), last-short m (ys ++ x ∷ []))

pub append_bounded-last :
    {A : Type 0} (m : ℕ) (x : A) (xs : List A)
    → append_bounded m x (last m xs) ≡ last m (xs ++ x ∷ [])
unfolding append_bounded
append_bounded-last m x [] = refl
append_bounded-last m x (y ∷ ys) = elim (Bool-cases (ltb (length ys) m)) [
  | inl short ↦
      ap (append_bounded m x) (last-short m (y ∷ ys) (omega (arith, ltb→lt (length ys) m short)))
      ∙ append_bounded-short m x y ys (ltb→lt (length ys) m short)
  | inr full ↦
      ap (append_bounded m x) (last-long m y ys (ground (arith, full)))
      ∙ append_bounded-last m x ys
      ∙ sym (last-long m y (ys ++ x ∷ []) (ground (arith, full, length-append ys (x ∷ []))))
]
