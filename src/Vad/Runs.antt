-- ===== src/Vad/Runs.antt =====
-- A run of the voice detector.
use ava_listener.Base.{is_empty, All, false, length, ℕ, ◌+◌, ◌≡◌, Option, none, some, List, [], ◌∷◌}
use ava_listener.Base.Ratio.{Ratio}
use ava_listener.Vad.{Vad, Chunk, Verdict, process_chunk}
use ava_listener.Vad.Tidy.{IsTidy, passes, confirmed, drops}

abbrev pub total : (Verdict → ℕ) → List Verdict → ℕ
total f [] = 0
total f (r ∷ rs) = f r + total f rs

module _ {S : Type 0} (zero_state : S) (infer : S → List ℕ → Option (Ratio × S)) where
  abbrev put_first : Verdict → Option (Vad S × List Verdict) → Option (Vad S × List Verdict)
  put_first r none = none
  put_first r (some (v, rs)) = some (v, r ∷ rs)

  abbrev and_then :
      Option (Vad S × Verdict)
      → (Vad S → Option (Vad S × List Verdict))
      → Option (Vad S × List Verdict)
  and_then none next = none
  and_then (some o) next = put_first o.1 (next o.0)

  -- The chunks one after another, as long as none raises an error.
  unfoldable pub process_all : List Chunk → Vad S → Option (Vad S × List Verdict)
  process_all [] v = some (v, [])
  process_all (c ∷ cs) v = and_then (process_chunk zero_state infer c v) (process_all cs)

  Ran : Vad S → List Chunk → Type 0
  Ran v cs =
      (w : Vad S) × (rs : List Verdict) × (process_all cs v ≡ some (w, rs))
      × IsTidy w
      × (w.speech_passed ≡ v.speech_passed + total passes rs)
      × (drops w + total confirmed rs ≡ drops v + length cs)

  abbrev pub AreHeard : List Chunk → Type 0
  AreHeard cs = All (λ c. is_empty c.samples ≡ false) cs
