-- ===== src/Metrics.antt =====
-- `MetricsCollector` of include/market_data/metrics/latency_tracker.hpp.
use market_data_feed_handler.Prelude.{ℕ, ◌+◌, u64}
use market_data_feed_handler.LatencyHistogram
use market_data_feed_handler.LatencyHistogram.{LatencyHistogram}

pub record MetricsCollector : Type 0 where
  pub messages_received : ℕ
  pub messages_processed : ℕ
  pub messages_dropped : ℕ
  pub parse_errors : ℕ
  pub sequence_gaps : ℕ
  pub queue_full_events : ℕ
  pub end_to_end_latency : LatencyHistogram
  pub parse_latency : LatencyHistogram
  pub queue_latency : LatencyHistogram

unfoldable pub record_message_received : MetricsCollector → MetricsCollector
record_message_received m = record m { messages_received = u64 (m.messages_received + 1) }

unfoldable pub record_message_processed : MetricsCollector → MetricsCollector
record_message_processed m = record m { messages_processed = u64 (m.messages_processed + 1) }

unfoldable pub record_message_dropped : MetricsCollector → MetricsCollector
record_message_dropped m = record m { messages_dropped = u64 (m.messages_dropped + 1) }

unfoldable pub record_parse_error : MetricsCollector → MetricsCollector
record_parse_error m = record m { parse_errors = u64 (m.parse_errors + 1) }

unfoldable pub record_sequence_gap : MetricsCollector → MetricsCollector
record_sequence_gap m = record m { sequence_gaps = u64 (m.sequence_gaps + 1) }

unfoldable pub record_queue_full : MetricsCollector → MetricsCollector
record_queue_full m = record m { queue_full_events = u64 (m.queue_full_events + 1) }

unfoldable pub reset : MetricsCollector → MetricsCollector
reset m = record {
  messages_received = 0;
  messages_processed = 0;
  messages_dropped = 0;
  parse_errors = 0;
  sequence_gaps = 0;
  queue_full_events = 0;
  end_to_end_latency = LatencyHistogram.reset m.end_to_end_latency;
  parse_latency = LatencyHistogram.reset m.parse_latency;
  queue_latency = LatencyHistogram.reset m.queue_latency;
}
