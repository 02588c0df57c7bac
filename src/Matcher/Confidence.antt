-- ===== src/Matcher/Confidence.antt =====
-- `compute_confidence` of runtime/matcher/scorers/phonetic.py.
use ava_listener.Base.{ℕ, max, Bool}
use ava_listener.Base.Ratio.{Ratio, percent, add, mul, le_ratio, min_ratio}

unfoldable pub compute_confidence : Ratio → ℕ → ℕ → Ratio
compute_confidence match_score window_size hit_count =
    let effective_size : ℕ = max window_size 3 in
    let repeat_rate : Ratio = record { num = hit_count; den = effective_size } in
    let repeat_bonus : Ratio = mul (min_ratio repeat_rate (percent 100)) (percent 20) in
    min_ratio (add (mul match_score (percent 80)) repeat_bonus) (percent 100)

unfoldable pub is_confident : Ratio → Bool
is_confident score = le_ratio (percent 78) score
