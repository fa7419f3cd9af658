-- ===== src/Feed/Statistics.antt =====
-- What the end of `main` prints of the metrics that the feed's threads leave.
use mathlib.Core.Option
use market_data_feed_handler.Prelude.{
  ℕ, ◌+◌, ◌≤◌, ◌≡◌, refl, sym, ◌∙◌, ap, ap₂, arith, List, [], ◌∷◌, length, u64,
}
use market_data_feed_handler.Core.Event.{MarketEvent}
use market_data_feed_handler.CircularBuffer.Invariant.{IsCapacity}
use market_data_feed_handler.LatencyHistogram
use market_data_feed_handler.LatencyHistogram.{LatencyHistogram, record_latency, count}
use market_data_feed_handler.LatencyHistogram.Summary.{record_all, record_latency-failures}
use market_data_feed_handler.Metrics
use market_data_feed_handler.Metrics.{
  MetricsCollector, record_message_processed, record_message_received, record_queue_full,
  record_sequence_gap,
}
use market_data_feed_handler.Report.{Products, latencies, final_statistics}
use market_data_feed_handler.Feed.{
  record_end_to_end, Standing, measured, checked, stopped, ended, System, Step, make, push,
  push_full, give_up, keep_on, count_full, count_received, stop, enter, look, enter_again, leave,
  consume, spin, measure, find_gap, find_none, count_processed, signal_shutdown, start, Reach, here,
  next,
}
use market_data_feed_handler.Feed.Invariant.{Reach-Inv}
use market_data_feed_handler.Feed.Shutdown.{waiting, Reach-ended}

-- The latencies that are recorded and whose events are not counted yet.
abbrev uncounted_latency : Standing → ℕ
uncounted_latency (measured event) = 1
uncounted_latency checked = 1
uncounted_latency _ = 0

-- The metrics of a feed whose consumer has recorded the latencies `samples` into the histogram `h`.
record Recorded (h : LatencyHistogram) (s : System) (samples : List ℕ) : Type 0 where
  latency : s.metrics.end_to_end_latency ≡ record_all 0 h samples
  counted : u64 (s.metrics.messages_processed + uncounted_latency s.standing) ≡ u64 (length samples)
  kept : s.metrics.messages_dropped ≡ 0

-- A step that changes none of this.
same :
    {s t : System} {h : LatencyHistogram} {samples : List ℕ}
    → Recorded h s samples
    → t.metrics.end_to_end_latency ≡ s.metrics.end_to_end_latency
    → t.metrics.messages_dropped ≡ s.metrics.messages_dropped
    → u64 (t.metrics.messages_processed + uncounted_latency t.standing)
      ≡ u64 (s.metrics.messages_processed + uncounted_latency s.standing)
    → Recorded h t samples
same r l d p = record { latency = l ∙ r.latency; counted = p ∙ r.counted; kept = d ∙ r.kept }

record_all-total_count :
    (h : LatencyHistogram) (samples : List ℕ)
    → (record_all 0 h samples).total_count ≡ u64 (length samples)
unfolding record_all record_latency LatencyHistogram.reset
record_all-total_count h [] = refl
record_all-total_count h (x ∷ samples) = omega (arith, record_all-total_count h samples)

module _ {capacity frequency : ℕ} where
  abbrev step_latencies : {s t : System} → Step capacity frequency s t → List ℕ → List ℕ
  step_latencies (measure failures current_tsc {latency_ns} p e) samples = latency_ns ∷ samples
  step_latencies _ samples = samples

  -- The latencies that the consumer measures in a run, the latest first.
  abbrev pub latencies_of : {s t : System} → Reach capacity frequency s t → List ℕ
  latencies_of here = []
  latencies_of (next r step) = step_latencies step (latencies_of r)

  Step-Recorded :
      {s t : System} {h : LatencyHistogram} {samples : List ℕ}
      → Recorded h s samples
      → (step : Step capacity frequency s t) → Recorded h t (step_latencies step samples)
  unfolding record_message_received record_queue_full record_message_processed record_sequence_gap
      record_end_to_end record_all
  Step-Recorded r (make now_ns tsc p g) = same r refl refl refl
  Step-Recorded r (push p ok) = same r refl refl refl
  Step-Recorded r (push_full p ok) = same r refl refl refl
  Step-Recorded r (give_up p g) = same r refl refl refl
  Step-Recorded r (keep_on p g) = same r refl refl refl
  Step-Recorded r (count_full p) = same r refl refl refl
  Step-Recorded r (count_received p) = same r refl refl refl
  Step-Recorded r (stop p g) = same r refl refl refl
  Step-Recorded r (enter p g) = same r refl refl (rw p refl)
  Step-Recorded r (look p g) = same r refl refl (rw p refl)
  Step-Recorded r (enter_again p e) = same r refl refl (rw p refl)
  Step-Recorded r (leave p e) = same r refl refl (rw p refl)
  Step-Recorded r (consume item p ok) = same r refl refl (rw p refl)
  Step-Recorded r (spin item p ok) = same r refl refl (rw p refl)
  Step-Recorded {s} {samples} r (measure failures current_tsc {latency_ns} p e) =
      let before : u64 (s.metrics.messages_processed + 0) ≡ u64 (length samples) =
        rw p at r.counted in
      record {
        latency =
            record_latency-failures failures latency_ns s.metrics.end_to_end_latency
            ∙ ap (record_latency 0 latency_ns) r.latency;
        counted = omega (arith, before);
        kept = r.kept;
      }
  Step-Recorded r (find_gap p g) = same r refl refl (rw p refl)
  Step-Recorded r (find_none p g) = same r refl refl (rw p refl)
  Step-Recorded r (count_processed p) = same r refl refl (rw p (omega arith))
  Step-Recorded r (signal_shutdown g) = same r refl refl refl

module _ {capacity frequency : ℕ} (storage : List MarketEvent) (raw : MetricsCollector) where
  Reach-Recorded :
      {s : System} (r : Reach capacity frequency (start capacity storage (Metrics.reset raw)) s)
      → Recorded raw.end_to_end_latency s (latencies_of r)
  unfolding Metrics.reset record_all
  Reach-Recorded here = record { latency = refl; counted = refl; kept = refl }
  Reach-Recorded (next r step) = Step-Recorded (Reach-Recorded r) step

  -- What `main` prints once both threads have ended, in whatever interleaving: no gaps and no drops;
  -- as received, the processed messages and at most one more, modulo 2^64; as processed, the number
  -- of latencies that the consumer measured in the run, modulo 2^64; and, as latencies, those of a
  -- histogram that recorded just these, with that number.
  pub Reach-final_statistics :
      (c : IsCapacity capacity) (products : Products) {s : System}
      → length storage ≡ capacity
      → (r : Reach capacity frequency (start capacity storage (Metrics.reset raw)) s)
      → s.producer ≡ stopped
      → s.standing ≡ ended
      → let f = final_statistics products s.metrics in
        let measured_in_run = record_all 0 raw.end_to_end_latency (latencies_of r) in
        (f.sequence_gaps ≡ 0)
        × (f.total_dropped ≡ 0)
        × ((left : ℕ) × (left ≤ 1) × (u64 f.total_received ≡ u64 (f.total_processed + left)))
        × (f.total_processed ≡ u64 (length (latencies_of r)))
        × (f.latency
            ≡ Option.map (λ l. (f.total_processed, l)) (latencies products measured_in_run))
  unfolding final_statistics count
  Reach-final_statistics c products {s} h r p e =
      let (few, received) = Reach-ended c storage raw h r p e in
      let recorded = Reach-Recorded r in
      let counts = (Reach-Inv c storage raw h r).counts in
      let processed : s.metrics.messages_processed ≡ u64 (length (latencies_of r)) =
        let all = rw e at recorded.counted in omega (arith, all, counts.counted) in
      let total : s.metrics.end_to_end_latency.total_count ≡ s.metrics.messages_processed =
        ap (λ g. g.total_count) recorded.latency
        ∙ record_all-total_count raw.end_to_end_latency (latencies_of r)
        ∙ sym processed in
      (
        counts.gapless,
        recorded.kept,
        (waiting capacity s.buffer, few, received),
        processed,
        ap₂ (λ n g. Option.map (λ l. (n, l)) (latencies products g)) total recorded.latency,
      )
