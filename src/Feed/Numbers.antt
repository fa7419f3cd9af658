-- ===== src/Feed/Numbers.antt =====
-- The numbers of the events, and the counters of a call, one step at a time.
use market_data_feed_handler.Prelude.{
  ℕ, zero, suc, ◌+◌, ◌-◌, ◌<◌, ◌≡◌, sym, ap, ap₂, Bool, true, false, List, [], ◌∷◌, ◌++◌, arith,
  ◌==◌, length, u64, Bool-cases, inl, inr,
}
use market_data_feed_handler.Core.Event.{MarketEvent}
use market_data_feed_handler.CircularBuffer.Queue
use market_data_feed_handler.Feed.{
  Consumer, is_gap, Producer, ready, refused, waiting_on, pushed, stopped, Standing, popped,
  measured, checked, System,
}

-- Events numbered one after another from `n` on, modulo 2^64.
abbrev pub Numbered : ℕ → List MarketEvent → Type 0
Numbered n [] = Unit
Numbered n (e ∷ es) = (e.sequence_number ≡ u64 n) × Numbered (n + 1) es

-- The received messages that the producer has pushed and not yet counted.
abbrev pub uncounted : Producer → ℕ
uncounted pushed = 1
uncounted _ = 0

-- The number of the next event, and the event that waits to be pushed, after `n` pushes.
abbrev pub Numbers : ℕ → ℕ → Producer → Type 0
Numbers n sequence (ready e) = (e.sequence_number ≡ u64 n) × (sequence ≡ u64 (n + 1))
Numbers n sequence (refused e) = (e.sequence_number ≡ u64 n) × (sequence ≡ u64 (n + 1))
Numbers n sequence (waiting_on e) = (e.sequence_number ≡ u64 n) × (sequence ≡ u64 (n + 1))
Numbers n sequence stopped = Unit
Numbers n sequence _ = sequence ≡ u64 n

-- The events that the consumer has popped and not yet counted.
abbrev pub in_hand : Standing → ℕ
in_hand (popped event) = 1
in_hand (measured event) = 1
in_hand checked = 1
in_hand _ = 0

-- The numbers that the consumer has seen, once it has counted `n` events.
abbrev pub Seen : ℕ → Consumer → Standing → Type 0
Seen n c (popped event) = (event.sequence_number ≡ u64 n) × (0 < n → c.last_sequence ≡ u64 (n - 1))
Seen n c (measured event) =
    (event.sequence_number ≡ u64 n) × (0 < n → c.last_sequence ≡ u64 (n - 1))
Seen n c checked = c.last_sequence ≡ u64 n
Seen n c _ = 0 < n → c.last_sequence ≡ u64 (n - 1)

-- `done` events have been counted as processed, and `queue` is in the buffer.
pub record Counts (done : ℕ) (queue : List MarketEvent) (s : System) : Type 0 where
  pub numbered : Numbered (done + in_hand s.standing) queue
  pub numbers : Numbers (done + in_hand s.standing + length queue) s.sequence s.producer
  pub processed : s.consumer.processed ≡ u64 done
  pub last : Seen done s.consumer s.standing
  pub received :
      u64 (s.metrics.messages_received + uncounted s.producer)
      ≡ u64 (done + in_hand s.standing + length queue)
  pub counted : s.metrics.messages_processed ≡ u64 done
  pub gapless : s.metrics.sequence_gaps ≡ 0

pub Numbered-append :
    (n : ℕ) (xs : List MarketEvent) (e : MarketEvent)
    → Numbered n xs
    → e.sequence_number ≡ u64 (n + length xs)
    → Numbered n (xs ++ (e ∷ []))
Numbered-append n [] e h p = (omega arith, tt)
Numbered-append n (x ∷ xs) e h p = (h.0, Numbered-append (n + 1) xs e h.1 (omega arith))

-- The numbers are those of any other start that agrees modulo 2^64.
pub Numbered-congruent :
    (n m : ℕ) (xs : List MarketEvent) → u64 n ≡ u64 m → Numbered n xs → Numbered m xs
Numbered-congruent n m [] e h = tt
Numbered-congruent n m (x ∷ xs) e h =
    (omega arith, Numbered-congruent (n + 1) (m + 1) xs (omega arith) h.1)

-- An event with the next number is no gap.
pub not_gap :
    (c : Consumer) (e : MarketEvent) (taken : ℕ)
    → e.sequence_number ≡ u64 taken
    → c.processed ≡ u64 taken
    → (0 < taken → c.last_sequence ≡ u64 (taken - 1))
    → is_gap c e ≡ false
unfolding is_gap
not_gap c e zero p q l = ground arith
not_gap c e (suc n) p q l = ground (arith, l (omega arith))

-- What the queue says of a successful push and of a successful pop.
pub append_of_push :
    (capacity : ℕ) (q q' : List MarketEvent) (x : MarketEvent) (ok : Bool)
    → (ok, q') ≡ Queue.push capacity q x
    → ok ≡ true
    → q' ≡ q ++ (x ∷ [])
unfolding Queue.push
append_of_push capacity q q' x ok e t = elim (Bool-cases (length q + 1 == capacity)) [
  | inl h ↦ let f : ok ≡ false = rw h at (ap (λ p. p.0) e) in ground arith
  | inr h ↦ rw h at (ap (λ p. p.1) e)
]

pub cons_of_pop :
    (q q' : List MarketEvent) (item out : MarketEvent) (ok : Bool)
    → (ok, out, q') ≡ Queue.pop q item
    → ok ≡ true
    → q ≡ out ∷ q'
unfolding Queue.pop
cons_of_pop [] q' item out ok e t = let f : ok ≡ false = ap (λ p. p.0) e in ground arith
cons_of_pop (x ∷ q) q' item out ok e t =
    ap₂ (λ a b. a ∷ b) (sym (ap (λ p. p.1) e)) (sym (ap (λ p. p.2) e))
