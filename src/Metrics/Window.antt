-- ===== src/Metrics/Window.antt =====
-- The rolling windows of samples of runtime/timing/latency.py and runtime/telemetry/metrics.py.
use ava_listener.Base.{
  length, length-append, ℕ, zero, suc, ◌≤◌, ◌<◌, max, ◌≡◌, refl, ap, ◌∙◌, Option, some, List, [],
  ◌∷◌, arith,
}
use mathlib.Core.Path.{subst}
use ava_listener.Metrics.{
  append_sample, insert_sample, sorted, get_elem?, p99, p99_index, max_sample,
}

-- A window never holds more than its limit.
pub append_sample-length :
    (w x : ℕ) (ss : List ℕ) → length ss ≤ w → length (append_sample w x ss) ≤ w
unfolding append_sample
append_sample-length w x [] h = ground arith
append_sample-length w x (s ∷ ss) h = ground (arith, h, length-append ss (x ∷ []))

length-insert : (x : ℕ) (ys : List ℕ) → length (insert_sample x ys) ≡ suc (length ys)
length-insert x [] = refl
length-insert x (y ∷ ys) = ground (arith, length-insert x ys)

pub length-sorted : (xs : List ℕ) → length (sorted xs) ≡ length xs
unfolding sorted
length-sorted [] = refl
length-sorted (x ∷ xs) = length-insert x (sorted xs) ∙ ap suc (length-sorted xs)

max-insert : (x : ℕ) (ys : List ℕ) → max_sample (insert_sample x ys) ≡ max x (max_sample ys)
unfolding max_sample
max-insert x [] = refl
max-insert x (y ∷ ys) = ground (arith, max-insert x ys)

pub max-sorted : (xs : List ℕ) → max_sample (sorted xs) ≡ max_sample xs
unfolding sorted max_sample
max-sorted [] = refl
max-sorted (x ∷ xs) = max-insert x (sorted xs) ∙ ap (max x) (max-sorted xs)

-- The outcome is a sample, and no sample is above the bound.
pub record IsSampleUpTo (bound : ℕ) (outcome : Option ℕ) : Type 0 where
  pub value : ℕ
  pub got : outcome ≡ some value
  pub below : value ≤ bound

raise_bound : (m n : ℕ) (o : Option ℕ) → m ≤ n → IsSampleUpTo m o → IsSampleUpTo n o
raise_bound m n o h s = record { value = s.value; got = s.got; below = omega (arith, h, s.below) }

-- An index below the length gives a sample, which is at most the largest one.
get_elem?-max :
    (ss : List ℕ) (i : ℕ) → i < length ss → IsSampleUpTo (max_sample ss) (get_elem? ss i)
unfolding get_elem? max_sample
get_elem?-max [] i h = absurd (omega arith)
get_elem?-max (s ∷ ss) zero h = record { value = s; got = refl; below = omega arith }
get_elem?-max (s ∷ ss) (suc i) h =
    raise_bound (max_sample ss) (max s (max_sample ss)) (get_elem? ss i) (omega arith)
      (get_elem?-max ss i (omega arith))

p99_index-lt : (x : ℕ) (xs : List ℕ) → p99_index (x ∷ xs) < length (sorted (x ∷ xs))
p99_index-lt x xs = omega (arith, length-sorted (x ∷ xs))

-- Of any samples, none included, the 99th percentile is read without an IndexError, and is at most
-- the largest sample.
pub p99_max : (ss : List ℕ) → IsSampleUpTo (max_sample ss) (p99 ss)
unfolding p99 max_sample
p99_max [] = record { value = 0; got = refl; below = omega arith }
p99_max (x ∷ xs) =
    subst (λ m. IsSampleUpTo m (get_elem? (sorted (x ∷ xs)) (p99_index (x ∷ xs))))
      (max-sorted (x ∷ xs))
      (get_elem?-max (sorted (x ∷ xs)) (p99_index (x ∷ xs)) (p99_index-lt x xs))
