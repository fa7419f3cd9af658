-- ===== src/CircularBuffer/Spsc/Safety.antt =====
-- What holds in every state that the two threads can reach.
use market_data_feed_handler.Prelude.{
  ℕ, ◌+◌, ◌≤◌, ◌<◌, ◌≡◌, ◌≢◌, ◌↔◌, ◌∙◌, ap, List, ◌++◌, arith, length, length-append,
}
use market_data_feed_handler.CircularBuffer.{increment}
use market_data_feed_handler.CircularBuffer.Invariant.{IsCapacity, increment-after}
use market_data_feed_handler.CircularBuffer.Refine.{contents, length-contents}
use market_data_feed_handler.CircularBuffer.Spsc.{Producer, Consumer, System, Reach, here, next}
use market_data_feed_handler.CircularBuffer.Spsc.Invariant.{
  Inv, Inv-start, Step-Inv, produces_at, consumes_at,
}

module _ {A : Type 0} {capacity : ℕ} {storage : List A} (c : IsCapacity capacity)
    (sized : length storage ≡ capacity) (d : A) where
  pub Reach-Inv : {s : System A} → Reach capacity storage s → Inv capacity d s
  Reach-Inv here = Inv-start c d storage sized
  Reach-Inv (next r st) = Step-Inv c d st (Reach-Inv r)

  module _ {s : System A} (r : Reach capacity storage s) where
    -- First in, first out, with nothing lost and nothing twice, in every interleaving: what was
    -- pushed is what was popped followed by what is in the buffer, which is never more than one
    -- element less than the capacity.
    pub Reach-fifo :
        (s.pushed ≡ s.popped ++ contents capacity d s.shared)
        × (length s.pushed + 1 ≤ length s.popped + capacity)
    Reach-fifo = (inv.fifo, omega (arith, inv.valid, counted, room))
      where
        inv : Inv capacity d s
        inv = Reach-Inv r

        counted : length s.pushed ≡ length s.popped + length (contents capacity d s.shared)
        counted = ap length inv.fifo ∙ length-append s.popped (contents capacity d s.shared)

        room : length (contents capacity d s.shared) + 1 ≤ capacity
        room = ground (arith, inv.valid, length-contents capacity d s.shared)

    -- No data race: while the producer is about to write a slot and the consumer about to read one,
    -- the slots differ, and both lie inside the storage.
    pub no_data_race :
        {x item : A} {w q : ℕ}
        → s.producer ≡ Producer.granted x w
        → s.consumer ≡ Consumer.granted item q
        → (w ≢ q) × (w < length s.shared.buffer) × (q < length s.shared.buffer)
    no_data_race e f = omega (
      arith,
      (Reach-Inv r).valid,
      produces_at c d (Reach-Inv r) e,
      consumes_at c d (Reach-Inv r) f,
    )

    -- The producer's test is exact at the moment of its load of `read_index_`: the call refuses if
    -- and only if the buffer holds as many elements as it can.
    pub push_test_exact :
        {x : A} {w : ℕ}
        → s.producer ≡ Producer.started x w
        → (increment capacity w ≡ s.shared.read_index)
          ↔ (length (contents capacity d s.shared) + 1 ≡ capacity)
    push_test_exact {w} e =
        let inv = Reach-Inv r in
        let n = length-contents capacity d s.shared in
        let own = produces_at c d inv e in
        let wrap = increment-after capacity w c (omega (arith, inv.valid)) in
        (λ p. ground (arith, inv.valid, n, own, wrap), λ p. ground (arith, inv.valid, n, own, wrap))

    -- The consumer's test is exact at the moment of its load of `write_index_`.
    pub pop_test_exact :
        {item : A} {q : ℕ}
        → s.consumer ≡ Consumer.started item q
        → (q ≡ s.shared.write_index) ↔ (length (contents capacity d s.shared) ≡ 0)
    pop_test_exact {q} e =
        let inv = Reach-Inv r in
        let n = length-contents capacity d s.shared in
        let own = consumes_at c d inv e in
        (λ p. ground (arith, inv.valid, n, own), λ p. ground (arith, inv.valid, n, own))
