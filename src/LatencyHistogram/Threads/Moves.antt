-- ===== src/LatencyHistogram/Threads/Moves.antt =====
-- One access of a thread, on what the histogram has and what the thread has pending.
use Prim.Native.Nat.{min as min_nat, max as max_nat}
use native.Mathlib.Decide.{ℕ_discrete}
use market_data_feed_handler.Prelude.{
  ℕ, ◌+◌, ◌≤◌, ◌<◌, ◌≡◌, refl, ==_ne, ==_refl, arith, length, length-set, get_or, get_or-set_self,
  get_or-set_ne, u64, u64_mod,
}
use market_data_feed_handler.LatencyHistogram.{LatencyHistogram, num_buckets, get_bucket}
use market_data_feed_handler.LatencyHistogram.Threads.{
  Thread, counted, lowering, lowered, raising, raised, Act, add_bucket, add_count, load_min, lower,
  lower_again, low_enough, load_max, raise, raise_again, high_enough, add_sum,
}
use market_data_feed_handler.LatencyHistogram.Threads.Pending.{
  to_bucket, to_count, to_sum, to_min, to_max, Knows,
}

-- What one thread's access leaves of the histogram and what the thread has pending, taken together.
pub record Moves (h : LatencyHistogram) (t : Thread) (h' : LatencyHistogram) (t' : Thread)
    : Type 0 where
  pub sized : length h'.buckets ≡ length h.buckets
  pub bucketed :
      (i : ℕ)
      → i < num_buckets
      → get_or h.buckets i 0 + to_bucket i t < u64_mod
      → get_or h'.buckets i 0 + to_bucket i t' ≡ get_or h.buckets i 0 + to_bucket i t
  pub grows :
      (i : ℕ)
      → i < num_buckets
      → get_or h.buckets i 0 + to_bucket i t < u64_mod
      → get_or h.buckets i 0 ≤ get_or h'.buckets i 0
  pub counted :
      h.total_count + to_count t < u64_mod
      → h'.total_count + to_count t' ≡ h.total_count + to_count t
  pub summed :
      h.sum < u64_mod → (h'.sum < u64_mod) × (u64 (h'.sum + to_sum t') ≡ u64 (h.sum + to_sum t))
  pub minimal : min_nat h'.min (to_min t') ≡ min_nat h.min (to_min t)
  pub maximal : max_nat h'.max (to_max t') ≡ max_nat h.max (to_max t)
  pub falls : h'.min ≤ h.min
  pub rises : h.max ≤ h'.max
  pub knows : Knows h' t'

-- A step that leaves the histogram as it is.
still :
    (h : LatencyHistogram) (t t' : Thread)
    → ((i : ℕ) → to_bucket i t' ≡ to_bucket i t)
    → to_count t' ≡ to_count t
    → to_sum t' ≡ to_sum t
    → min_nat h.min (to_min t') ≡ min_nat h.min (to_min t)
    → max_nat h.max (to_max t') ≡ max_nat h.max (to_max t)
    → Knows h t'
    → Moves h t h t'
still h t t' b c s low high k = record {
  sized = refl;
  bucketed = λ i p w. omega (arith, b i);
  grows = λ i p w. omega arith;
  counted = λ w. omega (arith, c);
  summed = λ w. (w, omega (arith, s));
  minimal = low;
  maximal = high;
  falls = omega arith;
  rises = omega arith;
  knows = k;
}

pub Act-Moves :
    {h h' : LatencyHistogram} {t t' : Thread}
    → length h.buckets ≡ num_buckets
    → h.min < u64_mod
    → Knows h t
    → Act h t h' t'
    → Moves h t h' t'
Act-Moves {h} sized w k (add_bucket {x}) = record {
  sized = length-set h.buckets (get_bucket x) _;
  bucketed = λ i p word. elim (ℕ_discrete (get_bucket x) i) [
    | yes e ↦
        let word' : get_or h.buckets i 0 + 1 < u64_mod = rw (e, ==_refl i) at word in
        rw
          (
            e,
            ==_refl i,
            get_or-set_self h.buckets i (u64 (get_or h.buckets i 0 + 1)) 0
                (omega (arith, sized, p)),
          )
          (omega (arith, word'))
    | no ne ↦ rw (get_or-set_ne h.buckets (get_bucket x) i _ 0 ne, ==_ne (get_bucket x) i ne) refl
  ];
  grows = λ i p word. elim (ℕ_discrete (get_bucket x) i) [
    | yes e ↦
        let word' : get_or h.buckets i 0 + 1 < u64_mod = rw (e, ==_refl i) at word in
        rw
          (
            e,
            get_or-set_self h.buckets i (u64 (get_or h.buckets i 0 + 1)) 0
                (omega (arith, sized, p)),
          )
          (omega (arith, word'))
    | no ne ↦ rw (get_or-set_ne h.buckets (get_bucket x) i _ 0 ne) (omega arith)
  ];
  counted = λ word. refl;
  summed = λ word. (word, refl);
  minimal = refl;
  maximal = refl;
  falls = omega arith;
  rises = omega arith;
  knows = tt;
}
Act-Moves {h} sized w k (add_count {x}) = record {
  sized = refl;
  bucketed = λ i p word. refl;
  grows = λ i p word. omega arith;
  counted = λ word. omega arith;
  summed = λ word. (word, refl);
  minimal = refl;
  maximal = refl;
  falls = omega arith;
  rises = omega arith;
  knows = tt;
}
Act-Moves {h} sized w k (load_min {x}) =
    still h (counted x) (lowering x h.min) (λ i. refl) refl refl refl refl (omega arith)
Act-Moves {h} sized w k (lower {x} {current} l e) = record {
  sized = refl;
  bucketed = λ i p word. refl;
  grows = λ i p word. omega arith;
  counted = λ word. refl;
  summed = λ word. (word, refl);
  minimal = omega (arith, e);
  maximal = refl;
  falls = omega (arith, e);
  rises = omega arith;
  knows = tt;
}
Act-Moves {h} sized w k (lower_again {x} {current} l) =
    still h (lowering x current) (lowering x h.min) (λ i. refl) refl refl refl refl (omega arith)
Act-Moves {h} sized w k (low_enough {x} {current} l) =
    still h (lowering x current) (lowered x) (λ i. refl) refl refl (omega (arith, k)) refl tt
Act-Moves {h} sized w k (load_max {x}) =
    still h (lowered x) (raising x h.max) (λ i. refl) refl refl refl refl (omega arith)
Act-Moves {h} sized w k (raise {x} {current} l e) = record {
  sized = refl;
  bucketed = λ i p word. refl;
  grows = λ i p word. omega arith;
  counted = λ word. refl;
  summed = λ word. (word, refl);
  minimal = refl;
  maximal = omega (arith, e);
  falls = omega arith;
  rises = omega (arith, e);
  knows = tt;
}
Act-Moves {h} sized w k (raise_again {x} {current} l) =
    still h (raising x current) (raising x h.max) (λ i. refl) refl refl refl refl (omega arith)
Act-Moves {h} sized w k (high_enough {x} {current} l) =
    still h (raising x current) (raised x) (λ i. refl) refl refl refl (omega (arith, k)) tt
Act-Moves {h} sized w k (add_sum {x}) = record {
  sized = refl;
  bucketed = λ i p word. refl;
  grows = λ i p word. omega arith;
  counted = λ word. refl;
  summed = λ word. (omega arith, omega arith);
  minimal = refl;
  maximal = refl;
  falls = omega arith;
  rises = omega arith;
  knows = tt;
}
