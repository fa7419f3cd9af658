-- ===== src/LatencyHistogram/Threads.antt =====
-- `LatencyHistogram::record` of include/market_data/metrics/latency_tracker.hpp, access by access, for
-- several threads that record into one histogram in any interleaving.
pub mod Pending
pub mod Moves
pub mod Invariant
pub mod Quiescent
pub mod Reader
mod Tests
use market_data_feed_handler.Prelude.{
  ℕ, ◌+◌, ◌≤◌, ◌<◌, ◌≡◌, List, [], ◌∷◌, ◌++◌, set, get_or, replicate, u64, u64_mod,
}
use market_data_feed_handler.LatencyHistogram.{LatencyHistogram, get_bucket, reset}

-- Where a thread stands in `record(latency_ns)`, with the locals of `update_min` and `update_max`.
pub data Thread : Type 0 where
  idle : Thread
  entered : (latency_ns : ℕ) → Thread  -- before the addition to the bucket
  bucketed : (latency_ns : ℕ) → Thread  -- before the addition to `total_count_`
  counted : (latency_ns : ℕ) → Thread  -- before the load of `min_`
  lowering : (value current : ℕ) → Thread  -- in the loop of `update_min`
  lowered : (latency_ns : ℕ) → Thread  -- before the load of `max_`
  raising : (value current : ℕ) → Thread  -- in the loop of `update_max`
  raised : (latency_ns : ℕ) → Thread  -- before the addition to `sum_`

-- One access of a thread to the histogram, or the end of a loop. A weak exchange may fail at any time,
-- and reads the atomic then.
pub data Act (h : LatencyHistogram) : Thread → LatencyHistogram → Thread → Type 0 where
  add_bucket :
      {x : ℕ}
      → Act h
          (entered x)
          (record h {
            buckets = set h.buckets (get_bucket x) (u64 (get_or h.buckets (get_bucket x) 0 + 1));
          })
          (bucketed x)
  add_count :
      {x : ℕ} → Act h (bucketed x) (record h { total_count = u64 (h.total_count + 1) }) (counted x)
  load_min : {x : ℕ} → Act h (counted x) h (lowering x h.min)
  lower :
      {x current : ℕ}
      → x < current
      → h.min ≡ current
      → Act h (lowering x current) (record h { min = x }) (lowered x)
  lower_again : {x current : ℕ} → x < current → Act h (lowering x current) h (lowering x h.min)
  low_enough : {x current : ℕ} → current ≤ x → Act h (lowering x current) h (lowered x)
  load_max : {x : ℕ} → Act h (lowered x) h (raising x h.max)
  raise :
      {x current : ℕ}
      → current < x
      → h.max ≡ current
      → Act h (raising x current) (record h { max = x }) (raised x)
  raise_again : {x current : ℕ} → current < x → Act h (raising x current) h (raising x h.max)
  high_enough : {x current : ℕ} → x ≤ current → Act h (raising x current) h (raised x)
  add_sum : {x : ℕ} → Act h (raised x) (record h { sum = u64 (h.sum + x) }) idle

-- `samples` are the latencies whose recording has begun, the latest first.
pub record System : Type 0 where
  pub histogram : LatencyHistogram
  pub threads : List Thread
  pub samples : List ℕ

-- A step of the thread behind those of `before`.
pub data Step (s : System) : System → Type 0 where
  begin :
      (before after : List Thread) (latency_ns : ℕ)
      → latency_ns < u64_mod
      → s.threads ≡ before ++ (idle ∷ after)
      → Step s (record s {
        threads = before ++ (entered latency_ns ∷ after);
        samples = latency_ns ∷ s.samples;
      })
  act :
      (before after : List Thread) {t t' : Thread} {h : LatencyHistogram}
      → s.threads ≡ before ++ (t ∷ after)
      → Act s.histogram t h t'
      → Step s (record s { histogram = h; threads = before ++ (t' ∷ after) })

-- `number` threads start on a histogram that has been reset.
abbrev pub start : ℕ → LatencyHistogram → System
start number raw = record { histogram = reset raw; threads = replicate number idle; samples = [] }

pub data Reach (first : System) : System → Type 0 where
  here : Reach first first
  next : {s u : System} → Reach first s → Step s u → Reach first u
