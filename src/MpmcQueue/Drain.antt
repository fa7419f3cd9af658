-- ===== src/MpmcQueue/Drain.antt =====
-- The destructor of the queue, which drains it.
use market_data_feed_handler.Prelude.{
  ℕ, zero, suc, ◌<◌, ◌≡◌, refl, true, false, Option, none, some, List, [], ◌∷◌, arith, length,
}
use market_data_feed_handler.CircularBuffer.Queue
use market_data_feed_handler.MpmcQueue.{MpmcQueue, try_dequeue}
use market_data_feed_handler.MpmcQueue.Refine.{Represents, try_dequeue_refines}

module _ {A : Type 0} where
  -- `while (try_dequeue(dummy)) {}`. The loop runs on fuel, and each call has enough of its own.
  unfoldable pub drain : (fuel : ℕ) → MpmcQueue A → A → Option (MpmcQueue A)
  drain zero q dummy = none
  drain (suc fuel) q dummy = elim (try_dequeue 2 0 0 q dummy) [
    | none ↦ none
    | some (false, dummy', q') ↦ some q'
    | some (true, dummy', q') ↦ drain fuel q' dummy'
  ]

  -- With more fuel than there are elements the loop ends, with the queue well-formed and empty.
  pub drain_lem :
      {max_nodes : ℕ} (items : List A) (fuel : ℕ) {q : MpmcQueue A} (dummy : A)
      → Represents max_nodes q items
      → length items < fuel
      → (q' : MpmcQueue A) × (drain fuel q dummy ≡ some q') × Represents max_nodes q' []
  unfolding drain Queue.pop
  drain_lem items zero dummy r enough = absurd (omega arith)
  drain_lem [] (suc fuel) {q} dummy r enough =
      let (q', e, r') = try_dequeue_refines 2 0 0 dummy r (omega arith) in
      (q', rw (drain, e) refl, r')
  drain_lem (x ∷ items) (suc fuel) {q} dummy r enough =
      let (q', e, r') = try_dequeue_refines 2 0 0 dummy r (omega arith) in
      let (q'', f, r'') = drain_lem items fuel x r' (omega arith) in (q'', rw (drain, e) f, r'')
