-- ===== src/LatencyHistogram/Threads/Reader.antt =====
-- `get_percentile` on a histogram into which other threads record meanwhile: it loads the count first,
-- and the buckets then, one after another. The accesses are taken in one order that all threads see,
-- which their relaxed memory order does not promise on every machine.
pub mod Accuracy
use market_data_feed_handler.Prelude.{
  ℕ, zero, suc, ◌+◌, ◌≤◌, ◌<◌, ◌≡◌, refl, ap, List, [], ◌∷◌, ◌++◌, ◌==◌, Bool, true, arith, length,
  get_or, u64_mod, if◌then◌else◌,
}
use market_data_feed_handler.LatencyHistogram.{LatencyHistogram, num_buckets, get_bucket}
use market_data_feed_handler.LatencyHistogram.Summary.{count_if, count_if-le}
use market_data_feed_handler.LatencyHistogram.Percentile.{AreBelow}
use market_data_feed_handler.LatencyHistogram.Threads.{
  Thread, idle, entered, bucketed, counted, lowering, lowered, raising, raised, System, Step, begin,
  act, Reach, here, next,
}
use market_data_feed_handler.LatencyHistogram.Threads.Pending.{
  sum_of, sum_of-append, to_bucket, to_count,
}
use market_data_feed_handler.LatencyHistogram.Threads.Moves.{Moves, Act-Moves}
use market_data_feed_handler.LatencyHistogram.Threads.Invariant.{Inv, Step-Inv, Knows-at}

-- The loads of `number` buckets from `i` on, with the states before the first and after the last, and
-- what they see. Other threads may make steps before each.
pub data Loads : (number i : ℕ) (s last : System) (seen : List ℕ) → Type 0 where
  done : {i : ℕ} {s : System} → Loads 0 i s s []
  load :
      {number i : ℕ} {s u last : System} {seen : List ℕ}
      → Reach s u
      → Loads number (i + 1) u last seen
      → Loads (suc number) i s last (get_or u.histogram.buckets i 0 ∷ seen)

-- What is recorded later is recorded in front.
Step-samples :
    {s u : System} (p : ℕ → Bool)
    → Step s u
    → (count_if p s.samples ≤ count_if p u.samples) × (length s.samples ≤ length u.samples)
Step-samples p (begin before after x w e) = omega arith
Step-samples p (act before after e a) = omega arith

Reach-samples :
    {s u : System} (p : ℕ → Bool)
    → Reach s u
    → (count_if p s.samples ≤ count_if p u.samples) × (length s.samples ≤ length u.samples)
Reach-samples p here = omega arith
Reach-samples p (next r step) = omega (arith, Reach-samples p r, Step-samples p step)

pub Loads-samples :
    {number i : ℕ} {s last : System} {seen : List ℕ} (p : ℕ → Bool)
    → Loads number i s last seen
    → (count_if p s.samples ≤ count_if p last.samples) × (length s.samples ≤ length last.samples)
Loads-samples p done = omega arith
Loads-samples p (load r l) = omega (arith, Reach-samples p r, Loads-samples p l)

Step-AreBelow :
    {s u : System} (bound : ℕ) → Step s u → AreBelow bound u.samples → AreBelow bound s.samples
Step-AreBelow bound (begin before after x w e) (b, bs) = bs
Step-AreBelow bound (act before after e a) b = b

Reach-AreBelow :
    {s u : System} (bound : ℕ) → Reach s u → AreBelow bound u.samples → AreBelow bound s.samples
Reach-AreBelow bound here b = b
Reach-AreBelow bound (next r step) b = Reach-AreBelow bound r (Step-AreBelow bound step b)

pub Loads-AreBelow :
    {number i : ℕ} {s last : System} {seen : List ℕ} (bound : ℕ)
    → Loads number i s last seen
    → AreBelow bound last.samples
    → AreBelow bound s.samples
Loads-AreBelow bound done b = b
Loads-AreBelow bound (load r l) b = Reach-AreBelow bound r (Loads-AreBelow bound l b)

abbrev pub Holds : System → Type 0
Holds s = Inv s.histogram s.threads s.samples

Reach-Holds : {s u : System} → Holds s → Reach s u → Holds u
Reach-Holds i here = i
Reach-Holds i (next r step) = Step-Inv (Reach-Holds i r) step

-- A bucket only grows.
Step-grows :
    {s u : System} (j : ℕ)
    → Holds s
    → Step s u
    → length u.samples < u64_mod
    → j < num_buckets
    → get_or s.histogram.buckets j 0 ≤ get_or u.histogram.buckets j 0
Step-grows j i (begin before after x w e) few p = omega arith
Step-grows {s} j i (act before after {t} e a) few p =
    let mine : Inv s.histogram (before ++ (t ∷ after)) s.samples = rw e at i in
    let m = Act-Moves i.sized i.word (Knows-at s.histogram before t after mine.known) a in
    let whole = mine.bucketed few j p in
    let most = count_if-le (λ x. get_bucket x == j) s.samples in
    m.grows j p (omega (arith, whole, most, few, sum_of-append (to_bucket j) before (t ∷ after)))

Reach-grows :
    {s u : System} (j : ℕ)
    → Holds s
    → Reach s u
    → length u.samples < u64_mod
    → j < num_buckets
    → get_or s.histogram.buckets j 0 ≤ get_or u.histogram.buckets j 0
Reach-grows j i here few p = omega arith
Reach-grows j i (next r step) few p =
    let few' = (Step-samples (λ x. true) step).1 in
    omega (
      arith,
      Reach-grows j i r (omega (arith, few', few)) p,
      Step-grows j (Reach-Holds i r) step few p,
    )

-- What a load sees is no less than the bucket had before, and no more than what is begun in the end.
pub Loads-seen :
    {number i : ℕ} {s last : System} {seen : List ℕ} (j k : ℕ)
    → k ≡ i + j
    → Holds s
    → Loads number i s last seen
    → length last.samples < u64_mod
    → j < number
    → k < num_buckets
    → (get_or s.histogram.buckets k 0 ≤ get_or seen j 0)
      × (get_or seen j 0 ≤ count_if (λ x. get_bucket x == k) last.samples)
Loads-seen j k e h done few p q = absurd (omega arith)
Loads-seen {i} {last} zero k e h (load {u} r l) few p q =
    let at : k ≡ i = omega arith in
    let in_range : i < num_buckets = omega (arith, at, q) in
    let later = Loads-samples (λ x. get_bucket x == i) l in
    let few' : length u.samples < u64_mod = omega (arith, later.1, few) in
    let whole = (Reach-Holds h r).bucketed few' i in_range in
    rw at (Reach-grows i h r few' in_range, omega (arith, whole, later.0))
Loads-seen (suc j) k e h (load {u} r l) few p q =
    let few' = (Loads-samples (λ x. true) l).1 in
    let (low, high) = Loads-seen j k (omega arith) (Reach-Holds h r) l few (omega arith) q in
    (omega (arith, low, Reach-grows k h r (omega (arith, few', few)) q), high)

pub Loads-length :
    {number i : ℕ} {s last : System} {seen : List ℕ}
    → Loads number i s last seen
    → length seen ≡ number
Loads-length done = refl
Loads-length (load r l) = ap suc (Loads-length l)
