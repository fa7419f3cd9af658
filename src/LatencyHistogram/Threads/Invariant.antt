-- ===== src/LatencyHistogram/Threads/Invariant.antt =====
-- The histogram and what is pending make up what has been begun.
use Prim.Native.Nat.{min as min_nat, max as max_nat}
use market_data_feed_handler.Prelude.{
  ℕ, zero, suc, ◌+◌, ◌-◌, ◌≤◌, ◌<◌, ◌≡◌, refl, ◌∙◌, List, [], ◌∷◌, ◌++◌, ◌==◌, arith, length,
  get_or, replicate, u64, u64_mod,
}
use market_data_feed_handler.LatencyHistogram.{LatencyHistogram, num_buckets, get_bucket, reset}
use market_data_feed_handler.LatencyHistogram.Summary.{
  count_if, count_if-le, total, least, greatest, reset-Summary,
}
use market_data_feed_handler.LatencyHistogram.Threads.{
  Thread, idle, entered, bucketed, counted, lowering, lowered, raising, raised, System, Step, begin,
  act, start, Reach, here, next,
}
use market_data_feed_handler.LatencyHistogram.Threads.Pending.{
  sum_of, least_of, greatest_of, sum_of-append, least_of-append, greatest_of-append, to_bucket,
  to_count, to_sum, to_min, to_max, Knows, AllKnow,
}
use market_data_feed_handler.LatencyHistogram.Threads.Moves.{Moves, Act-Moves}

pub record Inv (h : LatencyHistogram) (threads : List Thread) (samples : List ℕ) : Type 0 where
  pub sized : length h.buckets ≡ num_buckets
  pub bucketed :
      length samples < u64_mod
      → (i : ℕ) → i < num_buckets
      → get_or h.buckets i 0 + sum_of (to_bucket i) threads
        ≡ count_if (λ x. get_bucket x == i) samples
  pub counted : length samples < u64_mod → h.total_count + sum_of to_count threads ≡ length samples
  pub summed : (h.sum < u64_mod) × (u64 (h.sum + sum_of to_sum threads) ≡ u64 (total samples))
  pub minimal : min_nat h.min (least_of to_min threads) ≡ least samples
  pub maximal : max_nat h.max (greatest_of to_max threads) ≡ greatest samples
  pub word : h.min < u64_mod
  pub known : AllKnow h threads

AllKnow-mono :
    (h h' : LatencyHistogram) (ts : List Thread)
    → h'.min ≤ h.min
    → h.max ≤ h'.max
    → AllKnow h ts
    → AllKnow h' ts
AllKnow-mono h h' [] f r k = tt
AllKnow-mono h h' (lowering x current ∷ ts) f r (k, ks) = (omega arith, AllKnow-mono h h' ts f r ks)
AllKnow-mono h h' (raising x current ∷ ts) f r (k, ks) = (omega arith, AllKnow-mono h h' ts f r ks)
AllKnow-mono h h' (idle ∷ ts) f r (k, ks) = (tt, AllKnow-mono h h' ts f r ks)
AllKnow-mono h h' (entered x ∷ ts) f r (k, ks) = (tt, AllKnow-mono h h' ts f r ks)
AllKnow-mono h h' (bucketed x ∷ ts) f r (k, ks) = (tt, AllKnow-mono h h' ts f r ks)
AllKnow-mono h h' (counted x ∷ ts) f r (k, ks) = (tt, AllKnow-mono h h' ts f r ks)
AllKnow-mono h h' (lowered x ∷ ts) f r (k, ks) = (tt, AllKnow-mono h h' ts f r ks)
AllKnow-mono h h' (raised x ∷ ts) f r (k, ks) = (tt, AllKnow-mono h h' ts f r ks)

AllKnow-set :
    (h : LatencyHistogram) (before : List Thread) (t t' : Thread) (after : List Thread)
    → AllKnow h (before ++ (t ∷ after))
    → Knows h t'
    → AllKnow h (before ++ (t' ∷ after))
AllKnow-set h [] t t' after (k, ks) k' = (k', ks)
AllKnow-set h (s ∷ before) t t' after (k, ks) k' = (k, AllKnow-set h before t t' after ks k')

pub Knows-at :
    (h : LatencyHistogram) (before : List Thread) (t : Thread) (after : List Thread)
    → AllKnow h (before ++ (t ∷ after))
    → Knows h t
Knows-at h [] t after (k, ks) = k
Knows-at h (s ∷ before) t after (k, ks) = Knows-at h before t after ks

Moves-Inv :
    {h h' : LatencyHistogram} (before after : List Thread) {t t' : Thread} {samples : List ℕ}
    → Moves h t h' t'
    → Inv h (before ++ (t ∷ after)) samples
    → Inv h' (before ++ (t' ∷ after)) samples
Moves-Inv {h} {h'} before after {t} {t'} {samples} m i = record {
  sized = m.sized ∙ i.sized;
  bucketed = λ few j p.
      let whole = i.bucketed few j p in
      let old = sum_of-append (to_bucket j) before (t ∷ after) in
      let most = count_if-le (λ x. get_bucket x == j) samples in
      let e = m.bucketed j p (omega (arith, whole, old, most, few)) in
      omega (arith, e, whole, old, sum_of-append (to_bucket j) before (t' ∷ after));
  counted = λ few.
      let whole = i.counted few in
      let old = sum_of-append to_count before (t ∷ after) in
      let e = m.counted (omega (arith, whole, old, few)) in
      omega (arith, e, whole, old, sum_of-append to_count before (t' ∷ after));
  summed =
      let (word, e) = m.summed i.summed.0 in
      (
        word,
        omega (
          arith,
          e,
          i.summed.1,
          sum_of-append to_sum before (t ∷ after),
          sum_of-append to_sum before (t' ∷ after),
        ),
      );
  minimal = omega (
    arith,
    m.minimal,
    i.minimal,
    least_of-append to_min before (t ∷ after),
    least_of-append to_min before (t' ∷ after),
  );
  maximal = omega (
    arith,
    m.maximal,
    i.maximal,
    greatest_of-append to_max before (t ∷ after),
    greatest_of-append to_max before (t' ∷ after),
  );
  word = omega (arith, m.falls, i.word);
  known =
      AllKnow-set h' before t t' after
        (AllKnow-mono h h' (before ++ (t ∷ after)) m.falls m.rises i.known) m.knows;
}

idle_none :
    (number : ℕ) (i : ℕ)
    → let ts = replicate number idle in
      (sum_of (to_bucket i) ts ≡ 0)
      × (sum_of to_count ts ≡ 0)
      × (sum_of to_sum ts ≡ 0)
      × (least_of to_min ts ≡ u64_mod - 1)
      × (greatest_of to_max ts ≡ 0)
idle_none zero i = (refl, refl, refl, refl, refl)
idle_none (suc number) i = let r = idle_none number i in omega (arith, r.0, r.1, r.2, r.3, r.4)

idle_know : (number : ℕ) (h : LatencyHistogram) → AllKnow h (replicate number idle)
idle_know zero h = tt
idle_know (suc number) h = (tt, idle_know number h)

reset-Inv : (number : ℕ) (raw : LatencyHistogram) → Inv (reset raw) (replicate number idle) []
unfolding reset
reset-Inv number raw =
    let s = reset-Summary raw in
    let r = idle_none number 0 in
    record {
      sized = s.sized;
      bucketed = λ few i p. omega (arith, (reset-Summary raw).bucketed i p, (idle_none number i).0);
      counted = λ few. omega (arith, r.1);
      summed = omega (arith, r.2);
      minimal = omega (arith, r.3);
      maximal = omega (arith, r.4);
      word = omega arith;
      known = idle_know number (reset raw);
    }

-- A new latency, all of it pending.
begin-Inv :
    {h : LatencyHistogram} (before after : List Thread) (x : ℕ) {samples : List ℕ}
    → x < u64_mod
    → Inv h (before ++ (idle ∷ after)) samples
    → Inv h (before ++ (entered x ∷ after)) (x ∷ samples)
begin-Inv {h} before after x w i = record {
  sized = i.sized;
  bucketed = λ few j p. omega (
    arith,
    i.bucketed (omega arith) j p,
    sum_of-append (to_bucket j) before (idle ∷ after),
    sum_of-append (to_bucket j) before (entered x ∷ after),
  );
  counted = λ few. omega (
    arith,
    i.counted (omega arith),
    sum_of-append to_count before (idle ∷ after),
    sum_of-append to_count before (entered x ∷ after),
  );
  summed = (
    i.summed.0,
    omega (
      arith,
      i.summed.1,
      sum_of-append to_sum before (idle ∷ after),
      sum_of-append to_sum before (entered x ∷ after),
    ),
  );
  minimal = omega (
    arith,
    i.minimal,
    i.word,
    least_of-append to_min before (idle ∷ after),
    least_of-append to_min before (entered x ∷ after),
  );
  maximal = omega (
    arith,
    i.maximal,
    greatest_of-append to_max before (idle ∷ after),
    greatest_of-append to_max before (entered x ∷ after),
  );
  word = i.word;
  known = AllKnow-set h before idle (entered x) after i.known tt;
}

pub Step-Inv :
    {s u : System}
    → Inv s.histogram s.threads s.samples
    → Step s u
    → Inv u.histogram u.threads u.samples
Step-Inv {s} i (begin before after x w e) =
    let mine : Inv s.histogram (before ++ (idle ∷ after)) s.samples = rw e at i in
    begin-Inv before after x w mine
Step-Inv {s} i (act before after {t} e a) =
    let mine : Inv s.histogram (before ++ (t ∷ after)) s.samples = rw e at i in
    Moves-Inv before after
      (Act-Moves i.sized i.word (Knows-at s.histogram before t after mine.known) a) mine

pub Reach-Inv :
    (number : ℕ) (raw : LatencyHistogram) {s : System}
    → Reach (start number raw) s
    → Inv s.histogram s.threads s.samples
Reach-Inv number raw here = reset-Inv number raw
Reach-Inv number raw (next r step) = Step-Inv (Reach-Inv number raw r) step
