-- ===== src/LatencyHistogram/Threads/Quiescent.antt =====
-- The histogram while no thread is inside a call.
use market_data_feed_handler.Prelude.{
  ℕ, suc, ◌+◌, ◌-◌, ◌≤◌, ◌<◌, ◌≡◌, refl, sym, ◌∙◌, List, [], ◌∷◌, arith, length, get_or, u64_mod,
  ap₂, length-append, length-replicate,
}
use market_data_feed_handler.LatencyHistogram.{LatencyHistogram, num_buckets, count}
use market_data_feed_handler.LatencyHistogram.Summary.{
  least, greatest, Summary, record_all, record_all-Summary,
}
use market_data_feed_handler.LatencyHistogram.Threads.{
  Thread, idle, entered, bucketed, counted, lowering, lowered, raising, raised, System, Step, begin,
  act, start, Reach, here, next,
}
use market_data_feed_handler.LatencyHistogram.Threads.Pending.{
  sum_of, least_of, greatest_of, to_bucket, to_count, to_sum, to_min, to_max, AreIdle,
}
use market_data_feed_handler.LatencyHistogram.Threads.Invariant.{Inv, Reach-Inv}

AreIdle-none :
    (ts : List Thread) (i : ℕ)
    → AreIdle ts
    → (sum_of (to_bucket i) ts ≡ 0)
      × (sum_of to_count ts ≡ 0)
      × (sum_of to_sum ts ≡ 0)
      × (least_of to_min ts ≡ u64_mod - 1)
      × (greatest_of to_max ts ≡ 0)
AreIdle-none [] i a = (refl, refl, refl, refl, refl)
AreIdle-none (t ∷ ts) i (e, a) =
    let r = AreIdle-none ts i a in rw e (omega (arith, r.0, r.1, r.2, r.3, r.4))

-- With no thread inside a call, the counters are those of the samples.
Inv-Summary :
    {h : LatencyHistogram} {ts : List Thread} {samples : List ℕ}
    → AreIdle ts
    → length samples < u64_mod
    → Inv h ts samples
    → Summary h samples
Inv-Summary {h} {ts} {samples} a few i =
    let r = AreIdle-none ts 0 a in
    record {
      sized = i.sized;
      counted = omega (arith, i.counted few, r.1);
      bucketed = λ j p. omega (arith, i.bucketed few j p, (AreIdle-none ts j a).0);
      minimal = omega (arith, i.minimal, i.word, r.3);
      maximal = omega (arith, i.maximal, r.4);
      summed = omega (arith, i.summed.0, i.summed.1, r.2);
    }

list_ext :
    (xs ys : List ℕ)
    → length xs ≡ length ys
    → ((i : ℕ) → i < length xs → get_or xs i 0 ≡ get_or ys i 0)
    → xs ≡ ys
list_ext [] [] l e = refl
list_ext [] (y ∷ ys) l e = absurd (omega arith)
list_ext (x ∷ xs) [] l e = absurd (omega arith)
list_ext (x ∷ xs) (y ∷ ys) l e =
    ap₂ (λ a b. a ∷ b) (e 0 (omega arith))
      (list_ext xs ys (omega arith) (λ i p. e (suc i) (omega arith)))

-- The samples determine the histogram.
Summary-same :
    (h k : LatencyHistogram) {samples : List ℕ} → Summary h samples → Summary k samples → h ≡ k
Summary-same h k s t =
    let buckets = list_ext h.buckets k.buckets (s.sized ∙ sym t.sized) (λ i p.
      let q : i < num_buckets = omega (arith, s.sized) in s.bucketed i q ∙ sym (t.bucketed i q)) in
    let count = s.counted ∙ sym t.counted in
    let low = s.minimal ∙ sym t.minimal in
    let high = s.maximal ∙ sym t.maximal in
    let sum = s.summed ∙ sym t.summed in
    λ i. record {
      buckets = buckets i;
      total_count = count i;
      min = low i;
      max = high i;
      sum = sum i;
    }

-- Recording is linearizable where nobody is inside a call: after any interleaving of the accesses of
-- any number of threads, once all of them are idle, the histogram is the one that a single thread
-- leaves that records the same fewer than 2^64 latencies one after another.
pub Reach-record_all :
    (number failures : ℕ) (raw : LatencyHistogram) {s : System}
    → Reach (start number raw) s
    → AreIdle s.threads
    → length s.samples < u64_mod
    → s.histogram ≡ record_all failures raw s.samples
Reach-record_all number failures raw {s} r a few =
    Summary-same s.histogram (record_all failures raw s.samples)
      (Inv-Summary a few (Reach-Inv number raw r)) (record_all-Summary failures raw s.samples few)

to_count_bound : (ts : List Thread) → sum_of to_count ts ≤ length ts
to_count_bound [] = omega arith
to_count_bound (idle ∷ ts) = omega (arith, to_count_bound ts)
to_count_bound (entered x ∷ ts) = omega (arith, to_count_bound ts)
to_count_bound (bucketed x ∷ ts) = omega (arith, to_count_bound ts)
to_count_bound (counted x ∷ ts) = omega (arith, to_count_bound ts)
to_count_bound (lowering x current ∷ ts) = omega (arith, to_count_bound ts)
to_count_bound (lowered x ∷ ts) = omega (arith, to_count_bound ts)
to_count_bound (raising x current ∷ ts) = omega (arith, to_count_bound ts)
to_count_bound (raised x ∷ ts) = omega (arith, to_count_bound ts)

length-Step : {s u : System} → Step s u → length u.threads ≡ length s.threads
length-Step (begin before after x w e) =
    rw e (length-append before _ ∙ sym (length-append before _))
length-Step (act before after e a) = rw e (length-append before _ ∙ sym (length-append before _))

pub length-Reach :
    (number : ℕ) (raw : LatencyHistogram) {s : System}
    → Reach (start number raw) s
    → length s.threads ≡ number
length-Reach number raw here = length-replicate number idle
length-Reach number raw (next r step) = length-Step step ∙ length-Reach number raw r

-- What a reader sees at any moment, of fewer than 2^64 latencies begun by some threads: the count
-- lacks at most one latency of each thread, the minimum is no less than the least of them, and the
-- maximum is no greater than the greatest.
pub Reach-bounds :
    (number : ℕ) (raw : LatencyHistogram) {s : System}
    → Reach (start number raw) s
    → length s.samples < u64_mod
    → (count s.histogram ≤ length s.samples)
      × (length s.samples ≤ count s.histogram + number)
      × (least s.samples ≤ s.histogram.min)
      × (s.histogram.max ≤ greatest s.samples)
unfolding count
Reach-bounds number raw {s} r few =
    let i = Reach-Inv number raw r in
    omega (
      arith,
      i.counted few,
      to_count_bound s.threads,
      length-Reach number raw r,
      i.minimal,
      i.maximal,
    )
