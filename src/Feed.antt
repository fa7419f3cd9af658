-- ===== src/Feed.antt =====
-- The producer and the consumer thread of src/main.cpp on their shared buffer and metrics. A step is
-- one call on what the threads share, with what its thread does to its locals: `try_push`, `try_pop`,
-- `empty`, a load of `g_shutdown`, the histogram's `record`, or an addition to a counter; and so is a
-- gap check that finds none, and `main`'s store to `g_shutdown`. The steps of the two threads interleave in any order. The accesses
-- inside of the calls are in `CircularBuffer.Spsc` and `LatencyHistogram.Threads`.
pub mod Numbers
pub mod Invariant
pub mod Shutdown
pub mod Liveness
pub mod Statistics
mod Tests
use mathlib.Core.Option
use market_data_feed_handler.Prelude.{
  ℕ, ◌+◌, ◌-◌, ◌*◌, ◌≡◌, List, [], ◌∷◌, Bool, true, false, not, ◌&&◌, ◌==◌, ltb, if◌then◌else◌,
  Option, none, some, u64, u64_mod,
}
use market_data_feed_handler.Prelude.Int.{pos}
use market_data_feed_handler.Core.Symbol.{of_text}
use market_data_feed_handler.Core.Event.{MarketEvent, default_event, EventType, Side}
use market_data_feed_handler.CircularBuffer
use market_data_feed_handler.CircularBuffer.{CircularBuffer, try_push, try_pop, empty}
use market_data_feed_handler.LatencyHistogram.{record_latency}
use market_data_feed_handler.Timestamp.{tsc_to_ns}
use market_data_feed_handler.Metrics.{
  MetricsCollector, record_message_received, record_message_processed, record_sequence_gap,
  record_queue_full,
}

-- The event that the producer makes, with the clock and the counter that it reads.
unfoldable pub make_event : ℕ → ℕ → ℕ → MarketEvent
make_event sequence now_ns tsc = record default_event {
  venue_id = 1;
  sequence_number = sequence;
  event_type = EventType.trade;
  exchange_timestamp = now_ns;
  receive_timestamp = tsc;
  symbol = of_text (65 ∷ 65 ∷ 80 ∷ 76 ∷ []);
  price = pos 15_000_000_000;
  quantity = pos (100 * 100_000_000);
  side = Side.bid;
}

-- The consumer's locals.
pub record Consumer : Type 0 where
  pub processed : ℕ
  pub last_sequence : ℕ

-- The gap check: `event.sequence_number != last_sequence + 1 && processed > 0`.
unfoldable pub is_gap : Consumer → MarketEvent → Bool
is_gap c event = not (event.sequence_number == u64 (c.last_sequence + 1)) && ltb 0 c.processed

-- `latency_ns` of a popped event. `none` is the division by a frequency of 0.
unfoldable pub measure_latency : (frequency current_tsc : ℕ) → MarketEvent → Option ℕ
measure_latency frequency current_tsc event =
    let latency_tsc = u64 (current_tsc + u64_mod - event.receive_timestamp) in
    tsc_to_ns frequency latency_tsc

-- `g_metrics.end_to_end_latency.record(latency_ns)`
unfoldable pub record_end_to_end : (failures latency_ns : ℕ) → MetricsCollector → MetricsCollector
record_end_to_end failures latency_ns m = record m {
  end_to_end_latency = record_latency failures latency_ns m.end_to_end_latency;
}

-- Where the producer stands in its loop.
pub data Producer : Type 0 where
  idle : Producer  -- before the next event is made
  ready : MarketEvent → Producer  -- before a `try_push`
  refused : MarketEvent → Producer  -- after one that failed, before the load of `g_shutdown`
  waiting_on : MarketEvent → Producer  -- before `record_queue_full`
  pushed : Producer  -- before `record_message_received`
  stopped : Producer  -- after its return

-- Where the consumer stands in its loop, whose condition is `!g_shutdown || !buffer.empty()`.
pub data Standing : Type 0 where
  at_flag : Standing  -- before the load of `g_shutdown`
  at_buffer : Standing  -- before `buffer.empty()`
  in_body : Standing  -- before the `try_pop`
  popped : MarketEvent → Standing  -- before the latency is recorded
  measured : MarketEvent → Standing  -- before the gap check
  checked : Standing  -- before `record_message_processed`
  ended : Standing  -- after the loop

pub record System : Type 0 where
  pub buffer : CircularBuffer MarketEvent
  pub metrics : MetricsCollector
  pub producer : Producer
  pub sequence : ℕ
  pub consumer : Consumer
  pub standing : Standing
  pub shutdown : Bool

pub data Step (capacity frequency : ℕ) (s : System) : System → Type 0 where
  make :
      (now_ns tsc : ℕ)
      → s.producer ≡ idle
      → s.shutdown ≡ false
      → Step capacity frequency s (record s {
        producer = ready (make_event s.sequence now_ns tsc);
        sequence = u64 (s.sequence + 1);
      })
  push :
      {event : MarketEvent}
      → s.producer ≡ ready event
      → (try_push capacity s.buffer event).0 ≡ true
      → Step capacity frequency s
          (record s { buffer = (try_push capacity s.buffer event).1; producer = pushed })
  push_full :
      {event : MarketEvent}
      → s.producer ≡ ready event
      → (try_push capacity s.buffer event).0 ≡ false
      → Step capacity frequency s (record s { producer = refused event })
  give_up :
      {event : MarketEvent}
      → s.producer ≡ refused event
      → s.shutdown ≡ true
      → Step capacity frequency s (record s { producer = stopped })
  keep_on :
      {event : MarketEvent}
      → s.producer ≡ refused event
      → s.shutdown ≡ false
      → Step capacity frequency s (record s { producer = waiting_on event })
  count_full :
      {event : MarketEvent}
      → s.producer ≡ waiting_on event
      → Step capacity frequency s
          (record s { metrics = record_queue_full s.metrics; producer = ready event })
  count_received :
      s.producer ≡ pushed
      → Step capacity frequency s
          (record s { metrics = record_message_received s.metrics; producer = idle })
  stop :
      s.producer ≡ idle
      → s.shutdown ≡ true
      → Step capacity frequency s (record s { producer = stopped })
  enter :
      s.standing ≡ at_flag
      → s.shutdown ≡ false
      → Step capacity frequency s (record s { standing = in_body })
  look :
      s.standing ≡ at_flag
      → s.shutdown ≡ true
      → Step capacity frequency s (record s { standing = at_buffer })
  enter_again :
      s.standing ≡ at_buffer
      → empty s.buffer ≡ false
      → Step capacity frequency s (record s { standing = in_body })
  leave :
      s.standing ≡ at_buffer
      → empty s.buffer ≡ true
      → Step capacity frequency s (record s { standing = ended })
  consume :
      (item : MarketEvent)
      → s.standing ≡ in_body
      → (try_pop capacity s.buffer item).0 ≡ true
      → Step capacity frequency s (record s {
        buffer = (try_pop capacity s.buffer item).2;
        standing = popped (try_pop capacity s.buffer item).1;
      })
  measure :
      (failures current_tsc : ℕ) {event : MarketEvent} {latency_ns : ℕ}
      → s.standing ≡ popped event
      → measure_latency frequency current_tsc event ≡ some latency_ns
      → Step capacity frequency s (record s {
        metrics = record_end_to_end failures latency_ns s.metrics;
        standing = measured event;
      })
  find_gap :
      {event : MarketEvent}
      → s.standing ≡ measured event
      → is_gap s.consumer event ≡ true
      → Step capacity frequency s (record s {
        metrics = record_sequence_gap s.metrics;
        consumer = record (s.consumer) { last_sequence = event.sequence_number };
        standing = checked;
      })
  find_none :
      {event : MarketEvent}
      → s.standing ≡ measured event
      → is_gap s.consumer event ≡ false
      → Step capacity frequency s (record s {
        consumer = record (s.consumer) { last_sequence = event.sequence_number };
        standing = checked;
      })
  count_processed :
      s.standing ≡ checked
      → Step capacity frequency s (record s {
        metrics = record_message_processed s.metrics;
        consumer = record (s.consumer) { processed = u64 (s.consumer.processed + 1) };
        standing = at_flag;
      })
  spin :
      (item : MarketEvent)
      → s.standing ≡ in_body
      → (try_pop capacity s.buffer item).0 ≡ false
      → Step capacity frequency s (record s { standing = at_flag })
  signal_shutdown : s.shutdown ≡ false → Step capacity frequency s (record s { shutdown = true })

-- `main` when the threads start.
abbrev pub start : ℕ → List MarketEvent → MetricsCollector → System
start capacity storage metrics = record {
  buffer = CircularBuffer.init capacity storage;
  metrics = metrics;
  producer = idle;
  sequence = 0;
  consumer = record { processed = 0; last_sequence = 0 };
  standing = at_flag;
  shutdown = false;
}

pub data Reach (capacity frequency : ℕ) (first : System) : System → Type 0 where
  here : Reach capacity frequency first first
  next :
      {s t : System}
      → Reach capacity frequency first s
      → Step capacity frequency s t
      → Reach capacity frequency first t
