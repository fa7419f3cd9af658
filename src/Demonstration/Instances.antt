-- ===== src/Demonstration/Instances.antt =====
-- The circular buffer and the MPMC queue as what the client relies on, and what it prints of both.
use market_data_feed_handler.Prelude.{
  ℕ, ◌+◌, ◌<◌, ◌≡◌, refl, true, some, List, Bool, Option, arith, length,
}
use market_data_feed_handler.Prelude.Int.{ℤ, pos}
use market_data_feed_handler.CircularBuffer
use market_data_feed_handler.CircularBuffer.{CircularBuffer}
use market_data_feed_handler.CircularBuffer.Invariant.{
  IsCapacity, IsValid, init-IsValid, try_push-IsValid, try_pop-IsValid,
}
use market_data_feed_handler.CircularBuffer.Refine.{
  contents, try_push_refines, try_pop_refines, size_refines,
}
use market_data_feed_handler.CircularBuffer.Queue
use market_data_feed_handler.MpmcQueue.{create}
use market_data_feed_handler.MpmcQueue.Refine.{Represents, try_enqueue_refines, try_dequeue_refines}
use market_data_feed_handler.MpmcQueue.Create.{create-Represents}
use market_data_feed_handler.MpmcQueue.Calls.{counts_refine}
use market_data_feed_handler.Demonstration.{
  circular_calls, mpmc_calls, test_circular_buffer, test_mpmc_queue,
}
use market_data_feed_handler.Demonstration.Interface.{IsBoundedQueue, demonstrate_lem}

-- A valid buffer that holds some numbers.
abbrev HoldsContents : ℕ → CircularBuffer ℤ → List ℤ → Type 0
HoldsContents capacity b items = IsValid capacity b × (contents capacity (pos 0) b ≡ items)

module _ {capacity : ℕ} (c : IsCapacity capacity) {b : CircularBuffer ℤ} (item : ℤ)
    (v : IsValid capacity b) where
  try_push_law :
      let (ok, items') = Queue.push capacity (contents capacity (pos 0) b) item in
      (b' : CircularBuffer ℤ) × (◌≡◌ {A = Option (Bool × CircularBuffer ℤ)}
        (some (CircularBuffer.try_push capacity b item))
        (some (ok, b')))
      × HoldsContents capacity b' items'
  try_push_law =
      let e = try_push_refines c (pos 0) item v in
      let b' = (CircularBuffer.try_push capacity b item).1 in
      (b', (λ i. some ((e i).0, b')), (try_push-IsValid c item v, λ i. (e i).1))

  try_pop_law :
      let (ok, out, items') = Queue.pop (contents capacity (pos 0) b) item in
      (b' : CircularBuffer ℤ) × (◌≡◌ {A = Option (Bool × ℤ × CircularBuffer ℤ)}
        (some (CircularBuffer.try_pop capacity b item))
        (some (ok, out, b')))
      × HoldsContents capacity b' items'
  try_pop_law =
      let e = try_pop_refines c (pos 0) item v in
      let b' = (CircularBuffer.try_pop capacity b item).2 in
      (b', (λ i. some ((e i).0, (e i).1, b')), (try_pop-IsValid c item v, λ i. (e i).2))

pub circular_calls-IsBoundedQueue :
    {capacity : ℕ} → IsCapacity capacity → IsBoundedQueue (circular_calls capacity) capacity
circular_calls-IsBoundedQueue {capacity} c = record {
  Holds = HoldsContents capacity;
  push_law = λ item h. rw (← h.1) (try_push_law c item h.0);
  pop_law = λ item h. rw (← h.1) (try_pop_law c item h.0);
  size_law = λ h. rw (← h.1) (size_refines c (pos 0) h.0).0;
  empty_law = λ h. rw (← h.1) (size_refines c (pos 0) h.0).1;
}

pub mpmc_calls-IsBoundedQueue : (max_nodes : ℕ) → IsBoundedQueue (mpmc_calls max_nodes) max_nodes
mpmc_calls-IsBoundedQueue max_nodes = record {
  Holds = Represents max_nodes;
  push_law = λ item r. try_enqueue_refines (max_nodes + 1) 0 0 item r (omega arith);
  pop_law = λ item r. try_dequeue_refines 2 0 0 item r (omega arith);
  size_law = λ r. (counts_refine r).0;
  empty_law = λ r. (counts_refine r).1;
}

-- The demonstration prints what it pushed, of both structures, for every number of pushes that there
-- is room for: `size` and the number of pops are that number, and the structure is empty in the end.
pub test_lockfree_structures_lem :
    (capacity max_nodes n m : ℕ) (value value' : ℤ) (storage : List ℤ)
    → IsCapacity capacity
    → length storage ≡ capacity
    → n < capacity
    → m < max_nodes
    → (test_circular_buffer capacity n value storage
        ≡ some (record { size = n; popped = n; is_empty = true }))
      × (test_mpmc_queue max_nodes m value'
          ≡ some (record { size = m; popped = m; is_empty = true }))
unfolding test_circular_buffer test_mpmc_queue circular_calls-IsBoundedQueue
    mpmc_calls-IsBoundedQueue CircularBuffer.init
test_lockfree_structures_lem capacity max_nodes n m value value' storage c h room room' = (
  demonstrate_lem (circular_calls-IsBoundedQueue c) n value
      {s = CircularBuffer.init capacity storage} (init-IsValid c storage h, refl) room,
  demonstrate_lem (mpmc_calls-IsBoundedQueue max_nodes) m value' {s = create max_nodes (pos 0)}
      (create-Represents max_nodes (pos 0) (omega arith)) room',
)
