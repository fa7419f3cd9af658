-- ===== src/LatencyHistogram/Percentile.antt =====
-- What a percentile of a histogram says of the recorded latencies.
use native.Mathlib.Decide.{dec_lt}
use market_data_feed_handler.Prelude.{
  ℕ, suc, ◌+◌, ◌*◌, ◌^◌, ◌≤◌, ◌<◌, ◌≡◌, refl, sym, ◌∙◌, ap, Bool, true, false, List, [], ◌∷◌, ◌==◌,
  ltb, leb, arith, u64, u64_mod, length, get_or, Bool-cases, inl, inr, lt→ltb, ◌&&◌,
}
use market_data_feed_handler.LatencyHistogram.{
  LatencyHistogram, get_bucket, get_bucket_upper_bound, percentile_loop, get_percentile,
}
use market_data_feed_handler.LatencyHistogram.Bucket.{
  get_bucket_bounds, get_bucket_brackets, upper_bound-le,
}
use market_data_feed_handler.LatencyHistogram.Summary.{
  count_if, count_if-le, Summary, record_all, record_all-Summary,
}

-- The samples in buckets below `i`.
abbrev pub below : ℕ → List ℕ → ℕ
below i samples = count_if (λ x. ltb (get_bucket x) i) samples

pub below-suc :
    (i : ℕ) (samples : List ℕ)
    → below (i + 1) samples ≡ below i samples + count_if (λ x. get_bucket x == i) samples
below-suc i [] = refl
below-suc i (x ∷ xs) = ground (arith, below-suc i xs)

pub below-zero : (samples : List ℕ) → below 0 samples ≡ 0
below-zero [] = refl
below-zero (x ∷ xs) = ground (arith, below-zero xs)

pub below_all : (samples : List ℕ) → below 32 samples ≡ length samples
below_all [] = refl
below_all (x ∷ xs) = ground (arith, below_all xs, (get_bucket_bounds x).0)

-- The loop stops at the first bucket up to which there are `target` samples.
record Found (samples : List ℕ) (target result : ℕ) : Type 0 where
  bucket : ℕ
  in_range : bucket < 32
  reported : result ≡ get_bucket_upper_bound bucket
  enough : target ≤ below (bucket + 1) samples
  fewer : below bucket samples < target

module _ (samples : List ℕ) (target : ℕ) (few : length samples < u64_mod)
    (reachable : target ≤ length samples) where
  percentile_loop-Found :
      (buckets : List ℕ) (i cumulative : ℕ)
      → length buckets + i ≡ 32
      → ((j : ℕ)
          → j < length buckets
          → get_or buckets j 0 ≡ count_if (λ x. get_bucket x == i + j) samples)
      → cumulative ≡ below i samples
      → below i samples < target
      → Found samples target (percentile_loop target buckets i cumulative)
  unfolding percentile_loop
  percentile_loop-Found [] i cumulative sized counts e short =
      let last : i ≡ 32 = omega arith in
      absurd (omega (arith, below_all samples, ap (λ k. below k samples) last))
  percentile_loop-Found (c ∷ buckets) i cumulative sized counts e short =
      elim (Bool-cases (leb target (u64 (cumulative + c)))) [
        | inl stop ↦ rw stop (record {
          bucket = i;
          in_range = omega arith;
          reported = refl;
          enough = ground (arith, so_far);
          fewer = short;
        })
        | inr go ↦ rw go (
            percentile_loop-Found buckets (i + 1) (u64 (cumulative + c)) (omega arith)
              (λ j p.
                counts (suc j) (omega arith)
                ∙ ap (λ k. count_if (λ x. get_bucket x == k) samples) (omega arith))
              so_far (ground (arith, so_far)))
      ]
    where
      so_far : u64 (cumulative + c) ≡ below (i + 1) samples
      so_far = omega (
        arith,
        below-suc i samples,
        counts 0 (omega arith),
        ap (λ k. count_if (λ x. get_bucket x == k) samples) first,
        count_if-le (λ x. ltb (get_bucket x) (i + 1)) samples,
      )
        where
          first : i + 0 ≡ i
          first = omega arith

get_percentile-loop :
    (scale : ℕ → ℕ) {h : LatencyHistogram} {samples : List ℕ}
    → Summary h samples
    → 0 < length samples
    → get_percentile scale h ≡ percentile_loop (scale (length samples)) h.buckets 0 0
unfolding get_percentile
get_percentile-loop scale {h} s pos =
    let ne : (h.total_count == 0) ≡ false = ground (arith, s.counted) in rw (ne, s.counted)

percentile_loop-zero :
    (buckets : List ℕ) → 0 < length buckets → percentile_loop 0 buckets 0 0 ≡ 1000
unfolding percentile_loop get_bucket_upper_bound
percentile_loop-zero [] h = absurd (omega arith)
percentile_loop-zero (c ∷ buckets) h = ground arith

abbrev pub AreBelow : ℕ → List ℕ → Type 0
AreBelow bound [] = Unit
AreBelow bound (x ∷ xs) = (x < bound) × AreBelow bound xs

-- A test that implies another passes on no more samples.
pub count_if_mono :
    (p q : ℕ → Bool) (bound : ℕ) (xs : List ℕ)
    → ((x : ℕ) → x < bound → p x ≡ true → q x ≡ true)
    → AreBelow bound xs
    → count_if p xs ≤ count_if q xs
count_if_mono p q bound [] h b = omega arith
count_if_mono p q bound (x ∷ xs) h b = ground (arith, h x b.0, count_if_mono p q bound xs h b.1)

module _ (b : ℕ) (in_range : b < 32) where
  pub lt_of_bucket :
      (x : ℕ)
      → x < 2 ^ 31 * 1000
      → ltb (get_bucket x) (b + 1) ≡ true
      → ltb x (get_bucket_upper_bound b) ≡ true
  lt_of_bucket x h t = lt→ltb x (get_bucket_upper_bound b) (
      omega
        (arith, get_bucket_brackets x h, upper_bound-le (get_bucket x) b (ground arith) in_range))

  pub bucket_of_lt :
      (x : ℕ)
      → x < 2 ^ 31 * 1000
      → (leb 1000 x && ltb (2 * x) (get_bucket_upper_bound b)) ≡ true
      → ltb (get_bucket x) b ≡ true
  bucket_of_lt x h t = elim (dec_lt (get_bucket x) b) [
    | yes p ↦ lt→ltb (get_bucket x) b p
    | no p ↦ absurd (
        ground (
          arith,
          get_bucket_brackets x h,
          upper_bound-le b (get_bucket x) (omega arith) (get_bucket_bounds x).0,
        ))
  ]

-- A percentile is right up to a factor of two. Let `target` be the number of samples that it asks
-- for, not 0 and no more than there are, and let there be fewer than 2^64 samples, below 2^31 microseconds. Then at
-- least `target` samples are below the result, and fewer than `target` of those from one microsecond
-- on are below half of it.
pub get_percentile_brackets :
    (failures : ℕ) (h : LatencyHistogram) (scale : ℕ → ℕ) (samples : List ℕ)
    → length samples < u64_mod
    → 0 < scale (length samples)
    → scale (length samples) ≤ length samples
    → AreBelow (2 ^ 31 * 1000) samples
    → let result = get_percentile scale (record_all failures h samples) in
      let target = scale (length samples) in
      (target ≤ count_if (λ x. ltb x result) samples)
      × (count_if (λ x. leb 1000 x && ltb (2 * x) result) samples < target)
get_percentile_brackets failures h scale samples few pos reachable small =
    rw (get_percentile-loop scale s (omega arith), found.reported)
      (
        omega (
          arith,
          found.enough,
          count_if_mono _ _ _ samples (lt_of_bucket found.bucket found.in_range) small,
        ),
        omega (
          arith,
          found.fewer,
          count_if_mono _ _ _ samples (bucket_of_lt found.bucket found.in_range) small,
        ),
      )
  where
    s : Summary (record_all failures h samples) samples
    s = record_all-Summary failures h samples few

    found :
        Found samples
          (scale (length samples))
          (percentile_loop (scale (length samples)) (record_all failures h samples).buckets 0 0)
    found =
        percentile_loop-Found samples (scale (length samples)) few reachable _ 0 0
          (omega (arith, s.sized))
          (λ j p.
            s.bucketed j (omega (arith, s.sized))
            ∙ ap (λ k. count_if (λ x. get_bucket x == k) samples) (omega arith))
          (sym (below-zero samples)) (omega (arith, below-zero samples))

-- A target of 0 is met by the first bucket, whatever it holds: the result is one microsecond for
-- every history that is not empty.
pub get_percentile_of_zero :
    (failures : ℕ) (h : LatencyHistogram) (scale : ℕ → ℕ) (x : ℕ) (samples : List ℕ)
    → length (x ∷ samples) < u64_mod
    → scale (length (x ∷ samples)) ≡ 0
    → get_percentile scale (record_all failures h (x ∷ samples)) ≡ 1000
get_percentile_of_zero failures h scale x samples few none_asked =
    let s = record_all-Summary failures h (x ∷ samples) few in
    rw (get_percentile-loop scale s (omega arith), none_asked)
      (percentile_loop-zero (record_all failures h (x ∷ samples)).buckets (omega (arith, s.sized)))
