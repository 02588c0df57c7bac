-- ===== src/Base/Ratio.antt =====
-- Confidence values. The source computes with binary floats; here a value is the exact fraction
-- `num / den`, so that sums, products and comparisons are those of the formulas, without rounding.
use Prim.Native.Nat.{ℕ, ◌+◌, ◌*◌, ◌≤◌, ◌<◌}
use mathlib.Core.Bool.{Bool, true, false}
use native.Mathlib.Omega.{arith}
use mathlib.Core.Path.{◌≡◌, refl, ap}
use ava_listener.Base.Tests.{if_keeps, ltb, leb, if◌then◌else◌}

pub record Ratio : Type 0 where
  pub num : ℕ
  pub den : ℕ

-- `a % of` one: the decimal constants of the source.
abbrev pub percent : ℕ → Ratio
percent a = record { num = a; den = 100 }

abbrev pub add : Ratio → Ratio → Ratio
add x y = record { num = x.num * y.den + y.num * x.den; den = x.den * y.den }

abbrev pub mul : Ratio → Ratio → Ratio
mul x y = record { num = x.num * y.num; den = x.den * y.den }

abbrev pub le_ratio : Ratio → Ratio → Bool
le_ratio x y = leb (x.num * y.den) (y.num * x.den)

abbrev pub lt_ratio : Ratio → Ratio → Bool
lt_ratio x y = ltb (x.num * y.den) (y.num * x.den)

-- Python's `min` and `max` keep the first of two equal values.
abbrev pub min_ratio : Ratio → Ratio → Ratio
min_ratio x y = if lt_ratio y x then y else x

abbrev pub max_ratio : Ratio → Ratio → Ratio
max_ratio x y = if lt_ratio x y then y else x

-- A fraction between 0 and 1.
pub record IsUnit (x : Ratio) : Type 0 where
  pub proper : 0 < x.den
  pub at_most_one : x.num ≤ x.den

pub pos-mul : (a b : ℕ) → 0 < a → 0 < b → 0 < a * b
pos-mul a b h k = grind arith

pub le-mul : (a b c : ℕ) → a ≤ b → a * c ≤ b * c
le-mul a b c h = grind arith

pub percent-IsUnit : (a : ℕ) → a ≤ 100 → IsUnit (percent a)
percent-IsUnit a h = record { proper = omega arith; at_most_one = h }

pub max_ratio-IsUnit : (x y : Ratio) → IsUnit x → IsUnit y → IsUnit (max_ratio x y)
max_ratio-IsUnit x y h k = if_keeps IsUnit (lt_ratio x y) k h

pub mul-IsUnit : (x y : Ratio) → IsUnit x → IsUnit y → IsUnit (mul x y)
mul-IsUnit x y h k = record {
  proper = pos-mul x.den y.den h.proper k.proper;
  at_most_one =
      omega (arith, le-mul x.num x.den y.num h.at_most_one, le-mul y.num y.den x.den k.at_most_one);
}

cut :
    (b : Bool) (x : Ratio)
    → 0 < x.den
    → lt_ratio (percent 100) x ≡ b
    → IsUnit (if b then percent 100 else x)
cut true x h e = percent-IsUnit 100 (omega arith)
cut false x h e = record { proper = h; at_most_one = ground arith }

-- `a * x + b * y`, with weights in percent that sum to one.
pub blend-IsUnit :
    (a b : ℕ) (x y : Ratio)
    → a + b ≡ 100
    → IsUnit x
    → IsUnit y
    → IsUnit (add (mul (percent a) x) (mul (percent b) y))
blend-IsUnit a b x y e h k =
    let p : x.num * y.den ≤ x.den * y.den = le-mul x.num x.den y.den h.at_most_one in
    let r : y.num * x.den ≤ y.den * x.den = le-mul y.num y.den x.den k.at_most_one in
    record {
      proper = omega (arith, pos-mul x.den y.den h.proper k.proper);
      at_most_one = omega (
        arith,
        le-mul (x.num * y.den) (x.den * y.den) a p,
        le-mul (y.num * x.den) (y.den * x.den) b r,
        ap (λ (t : ℕ). t * (x.den * y.den)) e,
      );
    }

pub blend3-IsUnit :
    (x y z : Ratio)
    → IsUnit x
    → IsUnit y
    → IsUnit z
    → IsUnit (add (add (mul x (percent 65)) (mul y (percent 20))) (mul z (percent 15)))
blend3-IsUnit x y z h k l = record {
  proper =
      omega (arith, pos-mul (x.den * y.den) z.den (pos-mul x.den y.den h.proper k.proper) l.proper);
  at_most_one = omega (
    arith,
    le-mul x.num x.den (y.den * z.den) h.at_most_one,
    le-mul y.num y.den (x.den * z.den) k.at_most_one,
    le-mul z.num z.den (x.den * y.den) l.at_most_one,
  );
}

-- A value that is cut at one.
pub min_ratio-IsUnit : (x : Ratio) → 0 < x.den → IsUnit (min_ratio x (percent 100))
min_ratio-IsUnit x h = cut (lt_ratio (percent 100) x) x h refl

pub add-proper : (x y : Ratio) → 0 < x.den → 0 < y.den → 0 < (add x y).den
add-proper x y h k = pos-mul x.den y.den h k
