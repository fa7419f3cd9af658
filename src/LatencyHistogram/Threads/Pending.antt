-- ===== src/LatencyHistogram/Threads/Pending.antt =====
-- What the threads have begun and not yet added to the histogram.
use Prim.Native.Nat.{min as min_nat, max as max_nat}
use market_data_feed_handler.Prelude.{
  ℕ, ◌+◌, ◌-◌, ◌≤◌, ◌≡◌, List, [], ◌∷◌, ◌++◌, ◌==◌, if◌then◌else◌, arith, u64_mod,
}
use market_data_feed_handler.LatencyHistogram.{LatencyHistogram, get_bucket}
use market_data_feed_handler.LatencyHistogram.Threads.{
  Thread, idle, entered, bucketed, counted, lowering, lowered, raising, raised,
}

abbrev pub sum_of : (Thread → ℕ) → List Thread → ℕ
sum_of w [] = 0
sum_of w (t ∷ ts) = w t + sum_of w ts

abbrev pub least_of : (Thread → ℕ) → List Thread → ℕ
least_of w [] = u64_mod - 1
least_of w (t ∷ ts) = min_nat (w t) (least_of w ts)

abbrev pub greatest_of : (Thread → ℕ) → List Thread → ℕ
greatest_of w [] = 0
greatest_of w (t ∷ ts) = max_nat (w t) (greatest_of w ts)

pub sum_of-append :
    (w : Thread → ℕ) (before after : List Thread)
    → sum_of w (before ++ after) ≡ sum_of w before + sum_of w after
sum_of-append w [] after = omega arith
sum_of-append w (t ∷ before) after = omega (arith, sum_of-append w before after)

least_of_bound : (w : Thread → ℕ) (ts : List Thread) → least_of w ts ≤ u64_mod - 1
least_of_bound w [] = omega arith
least_of_bound w (t ∷ ts) = omega (arith, least_of_bound w ts)

pub least_of-append :
    (w : Thread → ℕ) (before after : List Thread)
    → least_of w (before ++ after) ≡ min_nat (least_of w before) (least_of w after)
least_of-append w [] after = omega (arith, least_of_bound w after)
least_of-append w (t ∷ before) after = omega (arith, least_of-append w before after)

pub greatest_of-append :
    (w : Thread → ℕ) (before after : List Thread)
    → greatest_of w (before ++ after) ≡ max_nat (greatest_of w before) (greatest_of w after)
greatest_of-append w [] after = omega arith
greatest_of-append w (t ∷ before) after = omega (arith, greatest_of-append w before after)

-- What a thread has still to add to bucket `i`, to the count and to the sum.
abbrev pub to_bucket : ℕ → Thread → ℕ
to_bucket i (entered x) = if get_bucket x == i then 1 else 0
to_bucket i _ = 0

abbrev pub to_count : Thread → ℕ
to_count (entered x) = 1
to_count (bucketed x) = 1
to_count _ = 0

abbrev pub to_sum : Thread → ℕ
to_sum idle = 0
to_sum (entered x) = x
to_sum (bucketed x) = x
to_sum (counted x) = x
to_sum (lowering x current) = x
to_sum (lowered x) = x
to_sum (raising x current) = x
to_sum (raised x) = x

-- The latency that the minimum, or the maximum, does not reflect yet.
abbrev pub to_min : Thread → ℕ
to_min (entered x) = x
to_min (bucketed x) = x
to_min (counted x) = x
to_min (lowering x current) = x
to_min _ = u64_mod - 1

abbrev pub to_max : Thread → ℕ
to_max (entered x) = x
to_max (bucketed x) = x
to_max (counted x) = x
to_max (lowering x current) = x
to_max (lowered x) = x
to_max (raising x current) = x
to_max _ = 0

-- What a thread in a loop knows: the minimum only falls, and the maximum only rises.
abbrev pub Knows : LatencyHistogram → Thread → Type 0
Knows h (lowering x current) = h.min ≤ current
Knows h (raising x current) = current ≤ h.max
Knows h _ = Unit

abbrev pub AllKnow : LatencyHistogram → List Thread → Type 0
AllKnow h [] = Unit
AllKnow h (t ∷ ts) = Knows h t × AllKnow h ts

abbrev pub AreIdle : List Thread → Type 0
AreIdle [] = Unit
AreIdle (t ∷ ts) = (t ≡ idle) × AreIdle ts
