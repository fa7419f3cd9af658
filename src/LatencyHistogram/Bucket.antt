-- ===== src/LatencyHistogram/Bucket.antt =====
-- Which latencies share a bucket, and the bound that stands for them.
use native.Mathlib.Decide.{dec_lt, ℕ_discrete}
use native.Mathlib.Nat.{pow-suc, pow-le-pow_right, sub-zero}
use market_data_feed_handler.Prelude.{
  ℕ, zero, suc, ◌+◌, ◌-◌, ◌*◌, ◌/◌, ◌^◌, ◌≤◌, ◌<◌, ◌≡◌, refl, ◌&&◌, ltb, arith, Bool-cases, inl,
  inr, max,
}
use market_data_feed_handler.LatencyHistogram.{shift_loop, get_bucket, get_bucket_upper_bound}

-- The loop ends by its test: the result is the number of shifts that take `val` to 0, or 31.
record Shifted (val bucket r : ℕ) : Type 0 where
  from : bucket ≤ r
  most : r ≤ 31
  above : r < 31 → val < 2 ^ (r - bucket)
  below : bucket < r → 2 ^ (r - bucket - 1) ≤ val

stopped : (val bucket : ℕ) → bucket ≤ 31 → (bucket < 31 → val ≡ 0) → Shifted val bucket bucket
stopped val bucket k h = record {
  from = omega arith;
  most = k;
  above = λ p. let e : bucket - bucket ≡ 0 = omega arith in rw e (omega (arith, h p));
  below = λ p. absurd (omega arith);
}

-- One round: `val` is halved and the bucket goes up.
halved-Shifted :
    (val bucket r : ℕ) → 0 < val → Shifted (val / 2) (bucket + 1) r → Shifted val bucket r
halved-Shifted val bucket r pos s = record {
  from = omega (arith, s);
  most = s.most;
  above = λ p. rw gap (omega (arith, s.above p, pow-suc 2 (r - (bucket + 1))));
  below = λ p. elim (dec_lt (bucket + 1) r) [
    | yes q ↦
        let e : r - bucket - 1 ≡ suc (r - (bucket + 1) - 1) = omega arith in
        rw e (omega (arith, s.below q, pow-suc 2 (r - (bucket + 1) - 1)))
    | no q ↦ let e : r - bucket - 1 ≡ 0 = omega (arith, s) in rw e (omega arith)
  ];
}
  where
    gap : r - bucket ≡ suc (r - (bucket + 1))
    gap = omega (arith, s)

shift_loop_bounds :
    (fuel val bucket : ℕ)
    → 31 ≤ fuel + bucket
    → bucket ≤ 31
    → Shifted val bucket (shift_loop fuel val bucket)
unfolding shift_loop
shift_loop_bounds zero val bucket h k = stopped val bucket k (λ p. absurd (omega arith))
shift_loop_bounds (suc fuel) val bucket h k = elim (Bool-cases (ltb 0 val && ltb bucket 31)) [
  | inl go ↦ rw go (
      halved-Shifted val bucket _ (ground arith)
        (shift_loop_bounds fuel (val / 2) (bucket + 1) (omega arith) (ground arith)))
  | inr stop ↦ rw stop (stopped val bucket k (λ p. ground arith))
]

shift_loop-zero : shift_loop 31 0 0 ≡ 0
unfolding shift_loop
shift_loop-zero = refl

-- The early returns of `get_bucket` and its `std::min` change nothing.
get_bucket-loop : (latency_ns : ℕ) → get_bucket latency_ns ≡ shift_loop 31 (latency_ns / 1000) 0
unfolding get_bucket
get_bucket-loop latency_ns = elim (ℕ_discrete (latency_ns / 1000) 0) [
  | yes e ↦ rw e (ground (arith, shift_loop-zero))
  | no ne ↦
      ground (arith, (shift_loop_bounds 31 (latency_ns / 1000) 0 (omega arith) (omega arith)).most)
]

-- The bucket of a latency, by its microseconds: bucket 0 is below one, bucket `b` is from 2^(b - 1)
-- to 2^b, and the last bucket takes all from 2^30 on.
pub get_bucket_bounds :
    (latency_ns : ℕ)
    → let b = get_bucket latency_ns in
      let us = latency_ns / 1000 in (b < 32) × (b < 31 → us < 2 ^ b) × (0 < b → 2 ^ (b - 1) ≤ us)
get_bucket_bounds latency_ns =
    let s = shift_loop_bounds 31 (latency_ns / 1000) 0 (omega arith) (omega arith) in
    rw (get_bucket-loop latency_ns) (
      omega (arith, s.most),
      λ p. let a = s.above p in rw sub-zero at a,
      λ p. let a = s.below p in rw sub-zero at a,
    )

pub upper_bound-pow : (b : ℕ) → b < 32 → get_bucket_upper_bound b ≡ 2 ^ b * 1000
unfolding get_bucket_upper_bound
upper_bound-pow zero h = refl
upper_bound-pow (suc b) h =
    ground (arith, pow-le-pow_right {n = 2} (omega arith) {i = suc b} {j = 31} (omega arith))

pub upper_bound-le :
    (a b : ℕ) → a ≤ b → b < 32 → get_bucket_upper_bound a ≤ get_bucket_upper_bound b
upper_bound-le a b h k =
    rw (upper_bound-pow a (omega arith), upper_bound-pow b k)
      (omega (arith, pow-le-pow_right {n = 2} (omega arith) h))

-- The reported bound of a latency's bucket is above the latency, if that is below 2^31
-- microseconds, and at most twice the latency, or one microsecond.
pub get_bucket_brackets :
    (latency_ns : ℕ)
    → latency_ns < 2 ^ 31 * 1000
    → let bound = get_bucket_upper_bound (get_bucket latency_ns) in
      (latency_ns < bound) × (bound ≤ max 1000 (2 * latency_ns))
get_bucket_brackets latency_ns p = rw (upper_bound-pow b in_range) (
  elim (dec_lt b 31) [
    | yes q ↦ omega (arith, bounds.1 q)
    | no q ↦ let e : b ≡ 31 = omega (arith, in_range) in rw e (omega arith)
  ],
  elim (dec_lt 0 b) [
    | yes q ↦
        let e : b ≡ suc (b - 1) = omega arith in rw e (omega (arith, bounds.2 q, pow-suc 2 (b - 1)))
    | no q ↦ let e : b ≡ 0 = omega arith in rw e (omega arith)
  ],
)
  where
    b : ℕ
    b = get_bucket latency_ns

    bounds :
        (b < 32) × (b < 31 → latency_ns / 1000 < 2 ^ b) × (0 < b → 2 ^ (b - 1) ≤ latency_ns / 1000)
    bounds = get_bucket_bounds latency_ns

    in_range : b < 32
    in_range = bounds.0
