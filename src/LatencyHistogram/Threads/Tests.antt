-- ===== src/LatencyHistogram/Threads/Tests.antt =====
-- Two threads record 5 and 3 microseconds, access for access.
use market_data_feed_handler.Prelude.{
  ℕ, List, zero, suc, ◌*◌, ◌/◌, ◌<◌, ltb, leb, ◌&&◌, ◌+◌, ◌≤◌, ◌≡◌, refl, ap, [], ◌∷◌, arith,
  length,
}
use market_data_feed_handler.LatencyHistogram.{get_percentile, LatencyHistogram, reset, count}
use market_data_feed_handler.LatencyHistogram.Summary.{count_if, record_all, least, greatest}
use market_data_feed_handler.LatencyHistogram.Threads.{
  idle, entered, bucketed, counted, lowering, lowered, raising, raised, add_bucket, add_count,
  load_min, lower, lower_again, load_max, raise, raise_again, high_enough, add_sum, System, begin,
  act, start, Reach, here, next,
}
use market_data_feed_handler.LatencyHistogram.Threads.Pending.{AreIdle}
use market_data_feed_handler.LatencyHistogram.Threads.Quiescent.{Reach-record_all, Reach-bounds}
use market_data_feed_handler.LatencyHistogram.Threads.Reader.{Loads, done, load}
use market_data_feed_handler.LatencyHistogram.Threads.Reader.Accuracy.{Loads-get_percentile}

abbrev raw : LatencyHistogram
raw = record { buckets = []; total_count = 7; min = 7; max = 7; sum = 7 }

-- One has added to the bucket alone.
running : (s : System) × Reach (start 2 raw) s × (length s.samples ≡ 2)
unfolding reset
running = (
  _,
  next
      (next
        (next
          (next
            (next (next (here) (begin [] (idle ∷ []) 5_000 (omega arith) refl))
              (begin (entered 5_000 ∷ []) [] 3_000 (omega arith) refl))
            (act [] (entered 3_000 ∷ []) refl (add_bucket)))
          (act (bucketed 5_000 ∷ []) [] refl (add_bucket)))
        (act [] (bucketed 3_000 ∷ []) refl (add_count)))
      (act (counted 5_000 ∷ []) [] refl (add_count)),
  refl,
)

both_done :
    (s : System) × Reach (start 2 raw) s × AreIdle s.threads × (s.samples ≡ 3_000 ∷ 5_000 ∷ [])
unfolding reset
both_done = (
  _,
  next
      (next
        (next
          (next
            (next
              (next
                (next
                  (next
                    (next
                      (next
                        (next
                          (next
                            (next
                              (next
                                (next
                                  (next
                                    (next
                                      (next (here) (begin [] (idle ∷ []) 5_000 (omega arith) refl))
                                      (begin (entered 5_000 ∷ []) [] 3_000 (omega arith) refl))
                                    (act [] (entered 3_000 ∷ []) refl (add_bucket)))
                                  (act (bucketed 5_000 ∷ []) [] refl (add_bucket)))
                                (act [] (bucketed 3_000 ∷ []) refl (add_count)))
                              (act (counted 5_000 ∷ []) [] refl (add_count)))
                            (act [] (counted 3_000 ∷ []) refl (load_min)))
                          (act (lowering 5_000 0xffff_ffff_ffff_ffff ∷ []) [] refl (load_min)))
                        (act [] (lowering 3_000 0xffff_ffff_ffff_ffff ∷ []) refl
                          (lower (omega arith) refl)))
                      (act (lowered 5_000 ∷ []) [] refl (lower_again (omega arith))))
                    (act (lowered 5_000 ∷ []) [] refl (lower (omega arith) refl)))
                  (act [] (lowered 3_000 ∷ []) refl (load_max)))
                (act (raising 5_000 0 ∷ []) [] refl (load_max)))
              (act [] (raising 3_000 0 ∷ []) refl (raise (omega arith) refl)))
            (act (raised 5_000 ∷ []) [] refl (raise_again (omega arith))))
          (act (raised 5_000 ∷ []) [] refl (high_enough (omega arith))))
        (act [] (raised 3_000 ∷ []) refl (add_sum)))
      (act (idle ∷ []) [] refl (add_sum)),
  (refl, (refl, tt)),
  refl,
)

Reach-record_all_example : both_done.0.histogram ≡ record_all 0 raw both_done.0.samples
Reach-record_all_example =
    Reach-record_all 2 0 raw both_done.1 both_done.2 (omega (arith, ap length both_done.3))

Reach-bounds_example :
    let s = running.0 in
    (count s.histogram ≤ length s.samples)
    × (length s.samples ≤ count s.histogram + 2)
    × (least s.samples ≤ s.histogram.min)
    × (s.histogram.max ≤ greatest s.samples)
Reach-bounds_example = Reach-bounds 2 raw running.1 (omega (arith, running.2))

-- A reader of all buckets while nobody moves.
read_all : (number i : ℕ) (s : System) → (seen : List ℕ) × Loads number i s s seen
read_all zero i s = ([], done)
read_all (suc number) i s = (_, load here (read_all number (i + 1) s).1)

-- A third recording begins after the load of the count.
read_meanwhile :
    (last : System) × ((seen : List ℕ) × Loads 32 0 both_done.0 last seen
      × (last.samples ≡ 7_000 ∷ 3_000 ∷ 5_000 ∷ [])
      × (count both_done.0.histogram ≡ 2))
unfolding both_done count reset
read_meanwhile = (
  _,
  (
    _,
    load (next here (begin [] (idle ∷ []) 7_000 (omega arith) refl)) (read_all 31 1 _).1,
    refl,
    refl,
  ),
)

abbrev median : ℕ → ℕ
median n = n * 50 / 100

Loads-get_percentile_example :
    let last = read_meanwhile.0 in
    let (seen, l, few, n) = read_meanwhile.1 in
    let result = get_percentile median (record (both_done.0.histogram) { buckets = seen }) in
    let target = median (count both_done.0.histogram) in
    (target ≤ count_if (λ x. ltb x result) last.samples)
    × (count_if (λ x. leb 1000 x && ltb (2 * x) result) both_done.0.samples < target + 2)
Loads-get_percentile_example =
    Loads-get_percentile 2 raw median both_done.1 read_meanwhile.1.1
      (omega (arith, ap length read_meanwhile.1.2)) (omega (arith, read_meanwhile.1.3))
      (omega (arith, read_meanwhile.1.3)) (rw read_meanwhile.1.2 (omega arith))
