-- ===== src/Report.antt =====
-- What `stats_thread` and the end of `main` in src/main.cpp print of the metrics, and the accessors of
-- include/market_data/metrics/latency_tracker.hpp that they call. The text around the numbers is left
-- out.
pub mod Order
mod Tests
use mathlib.Core.Option
use market_data_feed_handler.Prelude.{ℕ, ◌/◌, Option, none, some, ltb, if◌then◌else◌}
use market_data_feed_handler.LatencyHistogram
use market_data_feed_handler.LatencyHistogram.{LatencyHistogram, get_percentile, mean, count}
use market_data_feed_handler.Metrics.{MetricsCollector}

-- `static_cast<uint64_t>(total * percentile)` for the percentiles of the accessors.
pub record Products : Type 0 where
  pub of_50 : ℕ → ℕ
  pub of_99 : ℕ → ℕ
  pub of_999 : ℕ → ℕ
  pub of_9999 : ℕ → ℕ

module _ (products : Products) where
  unfoldable pub p50 : LatencyHistogram → ℕ
  p50 h = get_percentile products.of_50 h

  unfoldable pub p99 : LatencyHistogram → ℕ
  p99 h = get_percentile products.of_99 h

  unfoldable pub p999 : LatencyHistogram → ℕ
  p999 h = get_percentile products.of_999 h

  unfoldable pub p9999 : LatencyHistogram → ℕ
  p9999 h = get_percentile products.of_9999 h

-- `min` and `max`
unfoldable pub min_latency : LatencyHistogram → ℕ
min_latency h = h.min

unfoldable pub max_latency : LatencyHistogram → ℕ
max_latency h = h.max

-- The latencies of a report, in microseconds.
pub record Latencies : Type 0 where
  pub min : ℕ
  pub at_50 : ℕ
  pub at_99 : ℕ
  pub at_999 : ℕ
  pub at_9999 : ℕ
  pub max : ℕ
  pub mean : ℕ

-- The latencies are printed where there is a sample.
unfoldable pub latencies : Products → LatencyHistogram → Option Latencies
latencies products h =
    if ltb 0 (count h)
    then some (record {
      min = min_latency h / 1000;
      at_50 = p50 products h / 1000;
      at_99 = p99 products h / 1000;
      at_999 = p999 products h / 1000;
      at_9999 = p9999 products h / 1000;
      max = max_latency h / 1000;
      mean = mean h / 1000;
    })
    else none

-- A round of `stats_thread`.
pub record Statistics : Type 0 where
  pub received : ℕ
  pub processed : ℕ
  pub dropped : ℕ
  pub gaps : ℕ
  pub queue_full : ℕ
  pub latency : Option Latencies

unfoldable pub statistics : Products → MetricsCollector → Statistics
statistics products m = record {
  received = m.messages_received;
  processed = m.messages_processed;
  dropped = m.messages_dropped;
  gaps = m.sequence_gaps;
  queue_full = m.queue_full_events;
  latency = latencies products m.end_to_end_latency;
}

-- What `main` prints in the end.
pub record FinalStatistics : Type 0 where
  pub total_received : ℕ
  pub total_processed : ℕ
  pub total_dropped : ℕ
  pub sequence_gaps : ℕ
  pub latency : Option (ℕ × Latencies)  -- with their number

unfoldable pub final_statistics : Products → MetricsCollector → FinalStatistics
final_statistics products m = record {
  total_received = m.messages_received;
  total_processed = m.messages_processed;
  total_dropped = m.messages_dropped;
  sequence_gaps = m.sequence_gaps;
  latency =
      Option.map (λ l. (count m.end_to_end_latency, l)) (latencies products m.end_to_end_latency);
}
