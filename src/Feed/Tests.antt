-- ===== src/Feed/Tests.antt =====
-- The producer and the consumer on a buffer of four.
use mathlib.Core.Option
use market_data_feed_handler.Prelude.{
  [], ◌∷◌, ℕ, ◌*◌, ◌/◌, ◌≤◌, true, ◌+◌, ◌≡◌, refl, List, arith, length, replicate, u64,
}
use market_data_feed_handler.Core.Common.{is_power_of_2}
use market_data_feed_handler.Core.Event.{MarketEvent, default_event}
use market_data_feed_handler.CircularBuffer
use market_data_feed_handler.CircularBuffer.{try_push, try_pop, empty}
use market_data_feed_handler.CircularBuffer.Invariant.{IsCapacity}
use market_data_feed_handler.CircularBuffer.Refine.{contents}
use market_data_feed_handler.LatencyHistogram.{LatencyHistogram}
use market_data_feed_handler.Metrics
use market_data_feed_handler.Metrics.{MetricsCollector}
use market_data_feed_handler.Timestamp.{tsc_to_ns}
use market_data_feed_handler.Feed.{
  make_event, System, stopped, ended, make, push, count_received, stop, enter, look, leave, consume,
  measure, measure_latency, is_gap, find_none, count_processed, signal_shutdown, start, Reach, here,
  next,
}
use market_data_feed_handler.Feed.Shutdown.{waiting, start-leaves_one}
use market_data_feed_handler.Feed.Liveness.{steps, Reach-stops, Reach-ends}
use market_data_feed_handler.Feed.Statistics.{latencies_of, Reach-final_statistics}
use market_data_feed_handler.LatencyHistogram.Summary.{record_all}
use market_data_feed_handler.Report.{Products, latencies, final_statistics}
use market_data_feed_handler.Feed.Numbers.{uncounted, in_hand, Numbered}
use market_data_feed_handler.Feed.Invariant.{Reach-gapless}

four-IsCapacity : IsCapacity 4
unfolding is_power_of_2
four-IsCapacity = record { power = refl; fits = omega arith }

abbrev histogram : LatencyHistogram
histogram = record { buckets = replicate 64 7; total_count = 7; min = 7; max = 7; sum = 7 }

abbrev raw : MetricsCollector
raw = record {
  messages_received = 7;
  messages_processed = 7;
  messages_dropped = 7;
  parse_errors = 7;
  sequence_gaps = 7;
  queue_full_events = 7;
  end_to_end_latency = histogram;
  parse_latency = histogram;
  queue_latency = histogram;
}

abbrev storage : List MarketEvent
storage = replicate 4 default_event

abbrev first : System
first = start 4 storage (Metrics.reset raw)

-- Two events are made and pushed, of which the second is not counted yet; the consumer has the first
-- in hand, with its latency recorded.
feed_run : (s : System) × Reach 4 2_000_000_000 first s
unfolding try_push try_pop Metrics.reset CircularBuffer.increment CircularBuffer.init tsc_to_ns
    measure_latency
feed_run = (
  _,
  next
      (next
        (next
          (next
            (next
              (next (next (next here (make 100 50 refl refl)) (push refl refl))
                (count_received refl))
              (make 200 60 refl refl))
            (push refl refl))
          (enter refl refl))
        (consume default_event refl refl))
      (measure 0 90 refl refl),
)

Reach-gapless_example :
    let s = feed_run.0 in
    (s.metrics.sequence_gaps ≡ 0)
    × (s.metrics.messages_processed ≡ s.consumer.processed)
    × (u64 (s.metrics.messages_received + uncounted s.producer)
        ≡ u64 (
            s.metrics.messages_processed
            + in_hand s.standing
            + length (contents 4 default_event s.buffer)))
    × Numbered
        (s.metrics.messages_processed + in_hand s.standing)
        (contents 4 default_event s.buffer)
Reach-gapless_example = Reach-gapless four-IsCapacity storage raw refl feed_run.1

-- One event is in the buffer when `g_shutdown` is set.
shutdown_run : (s : System) × Reach 4 2_000_000_000 first s × (s.shutdown ≡ true)
unfolding try_push Metrics.reset CircularBuffer.increment CircularBuffer.init
shutdown_run = (
  _,
  next (next (next (next (here) (make 100 50 refl refl)) (push refl refl)) (count_received refl))
      (signal_shutdown refl),
  refl,
)

-- The producer ends after that.
stop_run : (t : System) × Reach 4 2_000_000_000 shutdown_run.0 t
unfolding shutdown_run
stop_run = (_, next here (stop refl refl))

-- One event is consumed, and both threads end.
ended_run :
    (s : System) × Reach 4 2_000_000_000 first s × (s.producer ≡ stopped) × (s.standing ≡ ended)
unfolding try_push try_pop Metrics.reset CircularBuffer.increment CircularBuffer.init tsc_to_ns
    measure_latency is_gap empty make_event
ended_run = (
  _,
  next
      (next
        (next
          (next
            (next
              (next
                (next
                  (next
                    (next
                      (next (next (next here (enter refl refl)) (make 100 50 refl refl))
                        (push refl refl))
                      (count_received refl))
                    (consume default_event refl refl))
                  (measure 0 90 refl refl))
                (find_none refl refl))
              (count_processed refl))
            (signal_shutdown refl))
          (look refl refl))
        (leave refl refl))
      (stop refl refl),
  refl,
  refl,
)

start-leaves_one_example :
    (s : System) × Reach 4 2_000_000_000 first s
    × (s.producer ≡ stopped)
    × (s.standing ≡ ended)
    × (s.metrics.messages_received ≡ 1)
    × (s.metrics.messages_processed ≡ 0)
    × (waiting 4 s.buffer ≡ 1)
start-leaves_one_example = start-leaves_one four-IsCapacity storage raw refl (omega arith)

Reach-stops_example : steps stop_run.1 ≤ 33
Reach-stops_example =
    Reach-stops four-IsCapacity storage raw refl shutdown_run.1 shutdown_run.2 stop_run.1

Reach-ends_example :
    (t : System) × Reach 4 2_000_000_000 shutdown_run.0 t
    × (t.producer ≡ stopped)
    × (t.standing ≡ ended)
Reach-ends_example =
    Reach-ends four-IsCapacity storage raw refl shutdown_run.1 shutdown_run.2 (omega arith)

-- The products at totals that products of natural numbers give exactly.
abbrev products : Products
products = record {
  of_50 = λ n. n * 50 / 100;
  of_99 = λ n. n * 99 / 100;
  of_999 = λ n. n * 999 / 1000;
  of_9999 = λ n. n * 9999 / 10000;
}

Reach-final_statistics_example :
    let f = final_statistics products ended_run.0.metrics in
    (f.sequence_gaps ≡ 0)
    × (f.total_dropped ≡ 0)
    × ((left : ℕ) × (left ≤ 1) × (u64 f.total_received ≡ u64 (f.total_processed + left)))
    × (f.total_processed ≡ u64 (length (latencies_of ended_run.1)))
    × (f.latency
        ≡ Option.map
            (λ l. (f.total_processed, l))
            (latencies products (record_all 0 raw.end_to_end_latency (latencies_of ended_run.1))))
Reach-final_statistics_example =
    Reach-final_statistics storage raw four-IsCapacity products refl ended_run.1 ended_run.2
      ended_run.3

-- The consumer read the counter 40 cycles after the producer, at two gigahertz.
ended_latencies : latencies_of ended_run.1 ≡ 20 ∷ []
unfolding ended_run try_push try_pop Metrics.reset CircularBuffer.increment CircularBuffer.init
    tsc_to_ns make_event
ended_latencies = refl
