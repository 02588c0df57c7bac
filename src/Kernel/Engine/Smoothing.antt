-- ===== src/Kernel/Engine/Smoothing.antt =====
-- The confidence of runtime/kernel/orchestrator.py and of runtime/matcher/scorers/phonetic.py: its
-- range, and what a wake names.
use ava_listener.Base.{
  if◌then◌else◌, ℕ, ◌*◌, ◌≤◌, max, ◌≡◌, refl, Bool, true, false, arith, if_keeps,
}
use ava_listener.Base.Ratio.{
  Ratio, percent, add, mul, le_ratio, lt_ratio, min_ratio, IsUnit, blend-IsUnit, min_ratio-IsUnit,
  add-proper, pos-mul, le-mul,
}
use ava_listener.Kernel.Engine.{is_triggered, smooth}
use ava_listener.Matcher.Confidence.{compute_confidence}

-- `compute_confidence` before the cut: 80 of the score and 20 of the repeat bonus.
bonus-IsUnit :
    (size hits : ℕ) → IsUnit (min_ratio (record { num = hits; den = max size 3 }) (percent 100))
bonus-IsUnit size hits = min_ratio-IsUnit (record { num = hits; den = max size 3 }) (omega arith)

pub compute_confidence-IsUnit :
    (s : Ratio) (size hits : ℕ) → IsUnit s → IsUnit (compute_confidence s size hits)
unfolding compute_confidence
compute_confidence-IsUnit s size hits h =
    let bonus : Ratio = min_ratio (record { num = hits; den = max size 3 }) (percent 100) in
    min_ratio-IsUnit (add (mul s (percent 80)) (mul bonus (percent 20))) (
      add-proper (mul s (percent 80)) (mul bonus (percent 20)) (omega (arith, h.proper))
        (omega (arith, (bonus-IsUnit size hits).proper)))

-- At most a fifth.
abbrev pub IsLow : Ratio → Type 0
IsLow x = x.num * 5 ≤ x.den

IsLow-sum :
    (b : Bool) (bonus : Ratio)
    → IsUnit bonus
    → lt_ratio (percent 100) (add (mul (percent 0) (percent 80)) (mul bonus (percent 20))) ≡ b
    → IsLow (if b then percent 100 else add (mul (percent 0) (percent 80)) (mul bonus (percent 20)))
IsLow-sum true bonus h e = ground (arith, h.proper, h.at_most_one)
IsLow-sum false bonus h e = ground (arith, h.proper, h.at_most_one)

-- What was not found scores 0, and only the repeat bonus is left.
pub compute_confidence-IsLow : (size hits : ℕ) → IsLow (compute_confidence (percent 0) size hits)
unfolding compute_confidence
compute_confidence-IsLow size hits =
    IsLow-sum
      (lt_ratio (percent 100) (
        add (mul (percent 0) (percent 80))
          (mul (min_ratio (record { num = hits; den = max size 3 }) (percent 100)) (percent 20))))
      (min_ratio (record { num = hits; den = max size 3 }) (percent 100)) (bonus-IsUnit size hits)
      refl

pub smooth-IsUnit : (raw prev : Ratio) → IsUnit raw → IsUnit prev → IsUnit (smooth raw prev)
unfolding smooth
smooth-IsUnit raw prev h k =
    if_keeps IsUnit (lt_ratio prev raw) (blend-IsUnit 70 30 raw prev (omega arith) h k)
      (blend-IsUnit 30 70 raw prev (omega arith) h k)

low_raw : (raw : Ratio) → IsUnit raw → IsLow raw → le_ratio (percent 86) raw ≡ false
low_raw raw h l = ground (arith, h.proper, h.at_most_one)

low_fast :
    (raw prev : Ratio)
    → IsUnit raw
    → IsUnit prev
    → IsLow raw
    → le_ratio (percent 78) (add (mul (percent 70) raw) (mul (percent 30) prev)) ≡ false
low_fast raw prev h k l = ground (
  arith,
  le-mul (raw.num * 5) raw.den prev.den l,
  le-mul prev.num prev.den raw.den k.at_most_one,
  pos-mul raw.den prev.den h.proper k.proper,
)

low_slow :
    (raw prev : Ratio)
    → IsUnit raw
    → IsUnit prev
    → IsLow raw
    → le_ratio (percent 78) (add (mul (percent 30) raw) (mul (percent 70) prev)) ≡ false
low_slow raw prev h k l = ground (
  arith,
  le-mul (raw.num * 5) raw.den prev.den l,
  le-mul prev.num prev.den raw.den k.at_most_one,
  pos-mul raw.den prev.den h.proper k.proper,
)

low_smooth :
    (raw prev : Ratio)
    → IsUnit raw
    → IsUnit prev
    → IsLow raw
    → le_ratio (percent 78) (smooth raw prev) ≡ false
unfolding smooth
low_smooth raw prev h k l =
    if_keeps (λ x. le_ratio (percent 78) x ≡ false) (lt_ratio prev raw) (low_fast raw prev h k l)
      (low_slow raw prev h k l)

-- A low reading does not trigger, whatever the confidence before it.
pub low_silent :
    (raw prev : Ratio)
    → IsUnit raw
    → IsUnit prev
    → IsLow raw
    → is_triggered raw (smooth raw prev) ≡ false
unfolding is_triggered
low_silent raw prev h k l = ground (arith, low_raw raw h l, low_smooth raw prev h k l)
