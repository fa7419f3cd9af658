-- ===== src/Demonstration.antt =====
-- `test_lockfree_structures` of src/main.cpp, a client of the circular buffer and of the MPMC queue
-- that uses both in the same way: it pushes some numbers and pops until it is refused.
pub mod Interface
pub mod Instances
mod Tests
use market_data_feed_handler.Prelude.{
  ℕ, zero, suc, ◌+◌, Bool, true, false, Option, none, some, List,
}
use market_data_feed_handler.Prelude.Int.{ℤ, pos}
use market_data_feed_handler.CircularBuffer
use market_data_feed_handler.CircularBuffer.{CircularBuffer}
use market_data_feed_handler.MpmcQueue
use market_data_feed_handler.MpmcQueue.{MpmcQueue, try_enqueue, try_dequeue}

-- The calls that the client makes. `none` is a loop that is not done.
pub record Calls (S : Type 0) : Type 0 where
  pub push : S → ℤ → Option (Bool × S)
  pub pop : S → ℤ → Option (Bool × ℤ × S)
  pub size : S → ℕ
  pub empty : S → Bool

module _ {S : Type 0} (calls : Calls S) where
  -- `for (; i < n; ++i) buffer.try_push(i);`, with the number of rounds that are left.
  unfoldable pub push_loop : (left i : ℕ) → S → Option S
  push_loop zero i s = some s
  push_loop (suc left) i s = elim (calls.push s (pos i)) [
    | none ↦ none
    | some (ok, s') ↦ push_loop left (i + 1) s'
  ]

  -- `while (buffer.try_pop(value)) count++;`. The loop runs on fuel.
  unfoldable pub pop_loop : (fuel : ℕ) (value : ℤ) (count : ℕ) → S → Option (ℕ × S)
  pop_loop zero value count s = none
  pop_loop (suc fuel) value count s = elim (calls.pop s value) [
    | none ↦ none
    | some (false, value', s') ↦ some (count, s')
    | some (true, value', s') ↦ pop_loop fuel value' (count + 1) s'
  ]

-- What is printed: the size after the pushes, the pops, and whether the structure is empty then.
pub record Printed : Type 0 where
  pub size : ℕ
  pub popped : ℕ
  pub is_empty : Bool

module _ {S : Type 0} (calls : Calls S) where
  -- With `n` pushes. `value` is what the variable holds before the first pop.
  unfoldable pub demonstrate : (n : ℕ) (value : ℤ) → S → Option Printed
  demonstrate n value s = elim (push_loop calls n 0 s) [
    | none ↦ none
    | some full ↦ elim (pop_loop calls (n + 1) value 0 full) [
      | none ↦ none
      | some (count, last) ↦
          some (record { size = calls.size full; popped = count; is_empty = calls.empty last })
    ]
  ]

abbrev pub circular_calls : ℕ → Calls (CircularBuffer ℤ)
circular_calls capacity = record {
  push = λ b item. some (CircularBuffer.try_push capacity b item);
  pop = λ b item. some (CircularBuffer.try_pop capacity b item);
  size = CircularBuffer.size capacity;
  empty = CircularBuffer.empty;
}

-- With enough fuel for the loops inside, whose compare-exchange operations do not fail without cause.
abbrev pub mpmc_calls : ℕ → Calls (MpmcQueue ℤ)
mpmc_calls max_nodes = record {
  push = λ q item. try_enqueue (max_nodes + 1) 0 0 q item;
  pop = λ q item. try_dequeue 2 0 0 q item;
  size = MpmcQueue.size max_nodes;
  empty = MpmcQueue.empty;
}

-- `test_lockfree_structures`, with 10 pushes to 16 slots, and 100 to 1024 nodes.
unfoldable pub test_circular_buffer : (capacity n : ℕ) (value : ℤ) → List ℤ → Option Printed
test_circular_buffer capacity n value storage =
    demonstrate (circular_calls capacity) n value (CircularBuffer.init capacity storage)

unfoldable pub test_mpmc_queue : (max_nodes n : ℕ) (value : ℤ) → Option Printed
test_mpmc_queue max_nodes n value =
    demonstrate (mpmc_calls max_nodes) n value (MpmcQueue.create max_nodes (pos 0))
