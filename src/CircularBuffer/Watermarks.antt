-- ===== src/CircularBuffer/Watermarks.antt =====
-- The thresholds of a circular buffer.
use market_data_feed_handler.Prelude.{
  ℕ, ◌+◌, ◌*◌, ◌^◌, ◌≤◌, ◌<◌, ◌≡◌, ◌↔◌, true, List, arith, length,
}
use market_data_feed_handler.CircularBuffer.{
  CircularBuffer, init, high_watermark_exceeded, below_low_watermark, set_watermarks, size,
}
use market_data_feed_handler.CircularBuffer.Invariant.{IsCapacity, IsValid}
use market_data_feed_handler.CircularBuffer.Refine.{contents, size_refines}

-- A constructed buffer's thresholds are a tenth and nine tenths of the capacity, rounded down, for
-- every capacity below 2^50.
pub init-watermarks :
    {A : Type 0} (capacity : ℕ) (storage : List A)
    → capacity < 2 ^ 50
    → let b = init capacity storage in
      (10 * b.high_watermark ≤ 9 * capacity)
      × (9 * capacity < 10 * b.high_watermark + 10)
      × (10 * b.low_watermark ≤ capacity)
      × (capacity < 10 * b.low_watermark + 10)
unfolding init
init-watermarks capacity storage h = omega arith

-- Each watermark test compares the number of stored elements with the threshold last set.
pub watermarks_refine :
    {A : Type 0} {capacity : ℕ} (c : IsCapacity capacity) (d : A) {b : CircularBuffer A}
    (low high : ℕ)
    → IsValid capacity b
    → let b' = set_watermarks b low high in
      let n = length (contents capacity d b) in
      ((high_watermark_exceeded capacity b' ≡ true) ↔ (high ≤ n))
      × ((below_low_watermark capacity b' ≡ true) ↔ (n ≤ low))
unfolding set_watermarks high_watermark_exceeded below_low_watermark
watermarks_refine {capacity} c d {b} low high v =
    let b' = record b { low_watermark = low; high_watermark = high } in
    let v' : IsValid capacity b' = record {
      storage = v.storage;
      write_in = v.write_in;
      read_in = v.read_in;
    } in
    let e : size capacity b' ≡ length (contents capacity d b) = (size_refines c d v').0 in
    rw e ((λ p. ground arith, λ p. ground arith), (λ p. ground arith, λ p. ground arith))
