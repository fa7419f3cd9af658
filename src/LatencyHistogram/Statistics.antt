-- ===== src/LatencyHistogram/Statistics.antt =====
-- The mean and the deviation that a histogram reports.
use market_data_feed_handler.Prelude.{
  ℕ, ◌-◌, ◌*◌, ◌/◌, ◌≤◌, ◌<◌, ◌≡◌, List, [], ◌∷◌, ◌==◌, false, arith, u64_mod, length,
}
use market_data_feed_handler.LatencyHistogram.{LatencyHistogram, mean, stddev}
use market_data_feed_handler.LatencyHistogram.Summary.{
  AreWords, total, least, greatest, Summary, record_all, record_all-Summary,
}

least-le :
    (x : ℕ) (xs : List ℕ)
    → AreWords (x ∷ xs)
    → (least (x ∷ xs) ≤ greatest (x ∷ xs)) × (greatest (x ∷ xs) < u64_mod)
least-le x [] w = omega arith
least-le x (y ∷ xs) w = omega (arith, least-le y xs w.1)

least-mul-le-total : (xs : List ℕ) → least xs * length xs ≤ total xs
least-mul-le-total [] = omega arith
least-mul-le-total (x ∷ xs) = grind (arith, least-mul-le-total xs)

total-le-greatest-mul : (xs : List ℕ) → total xs ≤ greatest xs * length xs
total-le-greatest-mul [] = omega arith
total-le-greatest-mul (x ∷ xs) = grind (arith, total-le-greatest-mul xs)

le-div : (a n t : ℕ) → 0 < n → a * n ≤ t → a ≤ t / n
le-div a n t pos h = grind arith

div-le : (a n t : ℕ) → 0 < n → t ≤ a * n → t / n ≤ a
div-le a n t pos h = grind arith

mean-Summary :
    {h : LatencyHistogram} {x : ℕ} {samples : List ℕ}
    → Summary h (x ∷ samples)
    → total (x ∷ samples) < u64_mod
    → mean h ≡ total (x ∷ samples) / length (x ∷ samples)
unfolding mean
mean-Summary {h} {x} {samples} s fits =
    let e : h.sum ≡ total (x ∷ samples) = omega (arith, s.summed) in
    let ne : (h.total_count == 0) ≡ false = ground (arith, s.counted) in rw (ne, e, s.counted)

-- The mean of a history whose sum fits a word is between its least and its greatest sample.
pub mean_bounds :
    (failures : ℕ) (h : LatencyHistogram) (x : ℕ) (samples : List ℕ)
    → length (x ∷ samples) < u64_mod
    → total (x ∷ samples) < u64_mod
    → let m = mean (record_all failures h (x ∷ samples)) in
      (least (x ∷ samples) ≤ m) × (m ≤ greatest (x ∷ samples))
mean_bounds failures h x samples few fits =
    rw (mean-Summary (record_all-Summary failures h (x ∷ samples) few) fits) (
      le-div (least (x ∷ samples)) n t (omega arith) (least-mul-le-total (x ∷ samples)),
      div-le (greatest (x ∷ samples)) n t (omega arith) (total-le-greatest-mul (x ∷ samples)),
    )
  where
    n : ℕ
    n = length (x ∷ samples)

    t : ℕ
    t = total (x ∷ samples)

-- The deviation is a quarter of the range of the history, and 0 for an empty one, where the
-- subtraction of the minimum wraps round to 1.
pub stddev_range :
    (failures : ℕ) (h : LatencyHistogram) (samples : List ℕ)
    → length samples < u64_mod
    → AreWords samples
    → stddev (record_all failures h samples) ≡ (greatest samples - least samples) / 4
unfolding stddev
stddev_range failures h [] few words =
    let s = record_all-Summary failures h [] few in omega (arith, s.minimal, s.maximal)
stddev_range failures h (x ∷ xs) few words =
    let s = record_all-Summary failures h (x ∷ xs) few in
    omega (arith, s.minimal, s.maximal, least-le x xs words)
