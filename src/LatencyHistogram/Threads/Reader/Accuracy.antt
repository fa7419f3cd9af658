-- ===== src/LatencyHistogram/Threads/Reader/Accuracy.antt =====
-- What a percentile says that is read while other threads record.
use market_data_feed_handler.Prelude.{
  ℕ, suc, ◌+◌, ◌*◌, ◌^◌, ◌≤◌, ◌<◌, ◌≡◌, refl, ap, true, false, List, [], ◌∷◌, ◌==◌, ltb, leb, ◌&&◌,
  arith, length, get_or, u64, u64_mod, Bool-cases, inl, inr,
}
use market_data_feed_handler.LatencyHistogram.{
  LatencyHistogram, num_buckets, get_bucket, get_bucket_upper_bound, percentile_loop,
  get_percentile, count,
}
use market_data_feed_handler.LatencyHistogram.Summary.{count_if, count_if-le}
use market_data_feed_handler.LatencyHistogram.Percentile.{
  below, below-suc, below-zero, below_all, AreBelow, count_if_mono, lt_of_bucket, bucket_of_lt,
}
use market_data_feed_handler.LatencyHistogram.Threads.{
  Thread, idle, entered, bucketed, counted, lowering, lowered, raising, raised, System, start,
  Reach,
}
use market_data_feed_handler.LatencyHistogram.Threads.Pending.{sum_of, to_bucket, to_count}
use market_data_feed_handler.LatencyHistogram.Threads.Invariant.{Inv, Reach-Inv}
use market_data_feed_handler.LatencyHistogram.Threads.Quiescent.{length-Reach}
use market_data_feed_handler.LatencyHistogram.Threads.Reader.{
  Loads, Loads-seen, Loads-length, Loads-AreBelow, Loads-samples,
}

-- The latencies that threads have begun and not added to a bucket yet.
abbrev pending : List Thread → List ℕ
pending [] = []
pending (entered x ∷ ts) = x ∷ pending ts
pending (_ ∷ ts) = pending ts

pending-to_bucket :
    (i : ℕ) (ts : List Thread)
    → sum_of (to_bucket i) ts ≡ count_if (λ x. get_bucket x == i) (pending ts)
pending-to_bucket i [] = refl
pending-to_bucket i (idle ∷ ts) = omega (arith, pending-to_bucket i ts)
pending-to_bucket i (entered x ∷ ts) = omega (arith, pending-to_bucket i ts)
pending-to_bucket i (bucketed x ∷ ts) = omega (arith, pending-to_bucket i ts)
pending-to_bucket i (counted x ∷ ts) = omega (arith, pending-to_bucket i ts)
pending-to_bucket i (lowering x current ∷ ts) = omega (arith, pending-to_bucket i ts)
pending-to_bucket i (lowered x ∷ ts) = omega (arith, pending-to_bucket i ts)
pending-to_bucket i (raising x current ∷ ts) = omega (arith, pending-to_bucket i ts)
pending-to_bucket i (raised x ∷ ts) = omega (arith, pending-to_bucket i ts)

-- A latency is added to its bucket before it is counted.
length-pending :
    (ts : List Thread)
    → (length (pending ts) ≤ sum_of to_count ts) × (length (pending ts) ≤ length ts)
length-pending [] = omega arith
length-pending (idle ∷ ts) = omega (arith, length-pending ts)
length-pending (entered x ∷ ts) = omega (arith, length-pending ts)
length-pending (bucketed x ∷ ts) = omega (arith, length-pending ts)
length-pending (counted x ∷ ts) = omega (arith, length-pending ts)
length-pending (lowering x current ∷ ts) = omega (arith, length-pending ts)
length-pending (lowered x ∷ ts) = omega (arith, length-pending ts)
length-pending (raising x current ∷ ts) = omega (arith, length-pending ts)
length-pending (raised x ∷ ts) = omega (arith, length-pending ts)

-- The loop stops at a bucket up to which `target` latencies have been begun in the end, and below
-- which fewer were recorded in the beginning.
record Found (samples out later : List ℕ) (target result : ℕ) : Type 0 where
  bucket : ℕ
  in_range : bucket < 32
  reported : result ≡ get_bucket_upper_bound bucket
  enough : target ≤ below (bucket + 1) later
  fewer : below bucket samples < target + below bucket out

module _ (samples out later : List ℕ) (target : ℕ) (few : length later < u64_mod)
    (reachable : target + length out ≤ length samples) where
  percentile_loop-Found :
      (seen : List ℕ) (i cumulative : ℕ)
      → length seen + i ≡ 32
      → ((j k : ℕ)
          → k ≡ i + j
          → j < length seen
          → (count_if (λ x. get_bucket x == k) samples
              ≤ get_or seen j 0 + count_if (λ x. get_bucket x == k) out)
            × (get_or seen j 0 ≤ count_if (λ x. get_bucket x == k) later))
      → below i samples ≤ cumulative + below i out
      → cumulative ≤ below i later
      → cumulative < target
      → Found samples out later target (percentile_loop target seen i cumulative)
  unfolding percentile_loop
  percentile_loop-Found [] i cumulative sized counts low high short =
      let last : i ≡ 32 = omega arith in
      absurd (
        omega (
          arith,
          low,
          short,
          reachable,
          below_all samples,
          below_all out,
          ap (λ k. below k samples) last,
          ap (λ k. below k out) last,
        ))
  percentile_loop-Found (c ∷ seen) i cumulative sized counts low high short =
      let (more, most) = counts 0 i (omega arith) (omega arith) in
      let so_far : u64 (cumulative + c) ≡ cumulative + c = omega (
        arith,
        high,
        most,
        few,
        below-suc i later,
        count_if-le (λ x. ltb (get_bucket x) (i + 1)) later,
      ) in
      elim (Bool-cases (leb target (u64 (cumulative + c)))) [
        | inl stop ↦ rw stop (record {
          bucket = i;
          in_range = omega arith;
          reported = refl;
          enough = ground (arith, so_far, high, most, below-suc i later);
          fewer = omega (arith, low, short);
        })
        | inr go ↦ rw go (
            percentile_loop-Found seen (i + 1) (u64 (cumulative + c)) (omega arith)
              (λ j k e p. counts (suc j) k (omega arith) (omega arith))
              (omega (arith, so_far, low, more, below-suc i samples, below-suc i out))
              (omega (arith, so_far, high, most, below-suc i later)) (ground (arith, so_far)))
      ]

-- A percentile that is read while any number of threads record is right up to a factor of two and what
-- they do meanwhile. Let `target` be the number of latencies that it asks for, not 0 and no more than
-- the count that is loaded first, and let all latencies be below 2^31 microseconds and fewer than 2^64.
-- Then at least `target` of the latencies that are begun by the last load are below the result; and of
-- those that were begun before the first load, and take one microsecond or more, fewer than `target`
-- and the number of threads together are below half of the result.
pub Loads-get_percentile :
    (number : ℕ) (raw : LatencyHistogram) (scale : ℕ → ℕ) {s last : System} {seen : List ℕ}
    → Reach (start number raw) s
    → Loads 32 0 s last seen
    → length last.samples < u64_mod
    → 0 < scale (count s.histogram)
    → scale (count s.histogram) ≤ count s.histogram
    → AreBelow (2 ^ 31 * 1000) last.samples
    → let result = get_percentile scale (record (s.histogram) { buckets = seen }) in
      let target = scale (count s.histogram) in
      (target ≤ count_if (λ x. ltb x result) last.samples)
      × (count_if (λ x. leb 1000 x && ltb (2 * x) result) s.samples < target + number)
unfolding count get_percentile
Loads-get_percentile number raw scale {s} {last} {seen} r l few pos reachable small =
    rw (some_yet, found.reported)
      (
        omega (
          arith,
          found.enough,
          count_if_mono _ _ _ last.samples (lt_of_bucket found.bucket found.in_range) small,
        ),
        omega (
          arith,
          found.fewer,
          count_if-le (λ x. ltb (get_bucket x) found.bucket) (pending s.threads),
          length-pending s.threads,
          length-Reach number raw r,
          count_if_mono _ _ _ s.samples (bucket_of_lt found.bucket found.in_range)
              (Loads-AreBelow _ l small),
        ),
      )
  where
    i : Inv s.histogram s.threads s.samples
    i = Reach-Inv number raw r

    few_yet : length s.samples < u64_mod
    few_yet = omega (arith, few, (Loads-samples (λ x. true) l).1)

    some_yet : (s.histogram.total_count == 0) ≡ false
    some_yet = ground (arith, pos, reachable)

    found :
        Found s.samples
          (pending s.threads)
          last.samples
          (scale s.histogram.total_count)
          (percentile_loop (scale s.histogram.total_count) seen 0 0)
    found =
        percentile_loop-Found s.samples (pending s.threads) last.samples
          (scale s.histogram.total_count) few
          (omega (arith, reachable, i.counted few_yet, (length-pending s.threads).0)) seen 0 0
          (omega (arith, Loads-length l))
          (λ j k e p.
            let in_range : k < num_buckets = omega (arith, e, p, Loads-length l) in
            let (low, high) =
              Loads-seen j k e i l few (omega (arith, p, Loads-length l)) in_range in
            (
              omega (arith, low, i.bucketed few_yet k in_range, pending-to_bucket k s.threads),
              high,
            ))
          (omega (arith, below-zero s.samples)) (omega arith) pos
