-- ===== src/LatencyHistogram/Summary.antt =====
-- What a histogram says of the latencies that it has recorded.
use Prim.Native.Nat.{min as min_nat, max as max_nat}
use native.Mathlib.Decide.{ℕ_discrete}
use market_data_feed_handler.Prelude.{
  ℕ, zero, suc, ◌+◌, ◌-◌, ◌≤◌, ◌<◌, ◌≡◌, refl, ap, ◌∙◌, Bool, List, [], ◌∷◌, ◌==◌, if◌then◌else◌,
  arith, u64, u64_mod, length, get_or, set, length-set, get_or-set_self, get_or-set_ne, replicate,
  ==_ne, ==_refl,
}
use market_data_feed_handler.LatencyHistogram.{
  LatencyHistogram, num_buckets, reset, get_bucket, update_min, update_max, record_latency,
}

-- A history of samples, the latest first. Each is a `uint64_t`.
abbrev pub AreWords : List ℕ → Type 0
AreWords [] = Unit
AreWords (x ∷ xs) = (x < u64_mod) × AreWords xs

-- How many samples pass a test.
abbrev pub count_if : (ℕ → Bool) → List ℕ → ℕ
count_if p [] = 0
count_if p (x ∷ xs) = (if p x then 1 else 0) + count_if p xs

abbrev pub total : List ℕ → ℕ
total [] = 0
total (x ∷ xs) = x + total xs

abbrev pub least : List ℕ → ℕ
least [] = u64_mod - 1
least (x ∷ xs) = min_nat x (least xs)

abbrev pub greatest : List ℕ → ℕ
greatest [] = 0
greatest (x ∷ xs) = max_nat x (greatest xs)

-- The counters of `h` are those of the samples.
pub record Summary (h : LatencyHistogram) (samples : List ℕ) : Type 0 where
  pub sized : length h.buckets ≡ num_buckets
  pub counted : h.total_count ≡ length samples
  pub bucketed :
      (i : ℕ) → i < num_buckets → get_or h.buckets i 0 ≡ count_if (λ x. get_bucket x == i) samples
  pub minimal : h.min ≡ least samples
  pub maximal : h.max ≡ greatest samples
  pub summed : h.sum ≡ u64 (total samples)

-- Recording a history, however often the compare-exchange operations fail without cause.
unfoldable pub record_all : ℕ → LatencyHistogram → List ℕ → LatencyHistogram
record_all failures h [] = reset h
record_all failures h (x ∷ samples) = record_latency failures x (record_all failures h samples)

update_min_lem :
    (failures value current : ℕ) → update_min failures value current ≡ min_nat value current
unfolding update_min
update_min_lem zero value current = ground arith
update_min_lem (suc failures) value current = ground (arith, update_min_lem failures value current)

update_max_lem :
    (failures value current : ℕ) → update_max failures value current ≡ max_nat value current
unfolding update_max
update_max_lem zero value current = ground arith
update_max_lem (suc failures) value current = ground (arith, update_max_lem failures value current)

-- Failures without cause do not change what is recorded.
pub record_latency-failures :
    (failures x : ℕ) (h : LatencyHistogram) → record_latency failures x h ≡ record_latency 0 x h
unfolding record_latency
record_latency-failures failures x h =
    rw
      (
        update_min_lem failures x h.min,
        update_min_lem 0 x h.min,
        update_max_lem failures x h.max,
        update_max_lem 0 x h.max,
      )
      refl

pub count_if-le : (p : ℕ → Bool) (xs : List ℕ) → count_if p xs ≤ length xs
count_if-le p [] = omega arith
count_if-le p (x ∷ xs) = ground (arith, count_if-le p xs)

get_or-replicate : (n i : ℕ) → get_or {A = ℕ} (replicate n 0) i 0 ≡ 0
get_or-replicate zero i = refl
get_or-replicate (suc n) zero = refl
get_or-replicate (suc n) (suc i) = get_or-replicate n i

pub reset-Summary : (h : LatencyHistogram) → Summary (reset h) []
unfolding reset
reset-Summary h = record {
  sized = refl;
  counted = refl;
  bucketed = λ i p. get_or-replicate 32 i;
  minimal = refl;
  maximal = refl;
  summed = refl;
}

module _ (failures x : ℕ) {h : LatencyHistogram} {samples : List ℕ} (s : Summary h samples)
    (room : length samples + 1 < u64_mod) where
  bucket_counted :
      (i : ℕ)
      → i < num_buckets
      → get_or (set h.buckets (get_bucket x) (u64 (get_or h.buckets (get_bucket x) 0 + 1))) i 0
        ≡ count_if (λ y. get_bucket y == i) (x ∷ samples)
  bucket_counted i p = elim (ℕ_discrete (get_bucket x) i) [
    | yes e ↦ rw e (
        ground (
          arith,
          ==_refl i,
          get_or-set_self h.buckets i (u64 (get_or h.buckets i 0 + 1)) 0,
          s.sized,
          s.bucketed i p,
          count_if-le (λ y. get_bucket y == i) samples,
        ))
    | no ne ↦
        rw (get_or-set_ne h.buckets (get_bucket x) i _ 0 ne, ==_ne (get_bucket x) i ne)
          (omega (arith, s.bucketed i p))
  ]

  record_latency-Summary : Summary (record_latency failures x h) (x ∷ samples)
  unfolding record_latency
  record_latency-Summary = record {
    sized = length-set h.buckets (get_bucket x) _ ∙ s.sized;
    counted = omega (arith, s.counted);
    bucketed = bucket_counted;
    minimal = update_min_lem failures x h.min ∙ ap (min_nat x) s.minimal;
    maximal = update_max_lem failures x h.max ∙ ap (max_nat x) s.maximal;
    summed = omega (arith, s.summed);
  }

-- The counters of a histogram that was reset and then recorded a history of fewer than 2^64 samples
-- are those of the history: the number of samples, that of each bucket, the extremes and, modulo 2^64, the sum.
pub record_all-Summary :
    (failures : ℕ) (h : LatencyHistogram) (samples : List ℕ)
    → length samples < u64_mod
    → Summary (record_all failures h samples) samples
unfolding record_all
record_all-Summary failures h [] room = reset-Summary h
record_all-Summary failures h (x ∷ samples) room =
    record_latency-Summary failures x (record_all-Summary failures h samples (omega arith))
      (omega arith)
