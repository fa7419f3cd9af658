-- ===== src/MpmcQueue.antt =====
-- `MPMCQueue` of include/market_data/lockfree/mpmc_queue.hpp, for the calls of one thread on a queue
-- that another thread may have left between linking a node and moving `tail_`. The second load in
-- "check if tail is still the same" then reads what the first one did. Node `i` of the pool has the
-- address `i + 1`, and 0 is `nullptr`. The loops run on fuel, and `none` is a loop that is not done.
-- Several threads at the same time: see `Threads`.
pub mod Invariant
pub mod Steps
pub mod Refine
pub mod Create
pub mod Calls
pub mod Drain
pub mod Threads
pub mod Spsc
pub mod Aba
mod Tests
use market_data_feed_handler.Prelude.{
  ℕ, zero, suc, ◌+◌, ◌-◌, ◌^◌, Bool, true, false, not, ◌&&◌, ◌||◌, Option, none, some, List, [],
  ◌∷◌, ◌==◌, ltb, if◌then◌else◌,
}
use market_data_feed_handler.Chain.{Links, store, walk}

pub record MpmcQueue (A : Type 0) : Type 0 where
  pub head : ℕ
  pub tail : ℕ
  pub free_list : ℕ
  pub next : Links  -- of the nodes, by address
  pub data_at : ℕ → A

-- The counter of `ExponentialBackoff`, with the number of times that it calls `cpu_relax`. Past the
-- bound it yields instead.
abbrev max_backoff : ℕ
max_backoff = 10

unfoldable pub backoff : ℕ → ℕ × ℕ
backoff count = if ltb count max_backoff then (2 ^ count, count + 1) else (0, count)

-- `reset` of `ExponentialBackoff`, which its constructor's initializer does too.
unfoldable pub reset_backoff : ℕ → ℕ
reset_backoff count = 0

-- `&node_pool_[i]`
abbrev pub node_at : ℕ → ℕ
node_at i = i + 1

module _ {A : Type 0} where
  -- The constructor's loop, from node `i` on, with the number of nodes that are left.
  unfoldable pub fill : ℕ → ℕ → MpmcQueue A → MpmcQueue A
  fill zero i q = q
  fill (suc left) i q =
      fill left (i + 1)
        (record q { next = store q.next (node_at i) q.free_list; free_list = node_at i })

  -- The constructor. The nodes' own constructor has set `next` to null, and `data` to `initial`.
  unfoldable pub create : ℕ → A → MpmcQueue A
  create max_nodes initial = fill (max_nodes - 1) 1 (record {
    head = node_at 0;
    tail = node_at 0;
    free_list = 0;
    next = store (λ _. 0) (node_at 0) 0;
    data_at = λ _. initial;
  })

  -- `failures` is how often `compare_exchange_weak` fails without cause.
  unfoldable pub allocate_node : ℕ → MpmcQueue A → ℕ × MpmcQueue A
  allocate_node zero q =
      let node = q.free_list in
      if node == 0 then (0, q) else (node, record q { free_list = q.next node })
  allocate_node (suc failures) q =
      let again = allocate_node failures q in if q.free_list == 0 then (0, q) else again

  unfoldable pub reclaim_node : ℕ → MpmcQueue A → ℕ → MpmcQueue A
  reclaim_node zero q node =
      if node == 0 then q else record q { next = store q.next node q.free_list; free_list = node }
  reclaim_node (suc failures) q node =
      let again = reclaim_node failures (record q { next = store q.next node q.free_list }) node in
      if node == 0 then q else again

  -- The loop of `try_enqueue`.
  unfoldable pub link : ℕ → ℕ → MpmcQueue A → ℕ → Option (MpmcQueue A)
  link zero failures q node = none
  link (suc fuel) failures q node =
      let next = q.next q.tail in
      let again =
        link fuel (if next == 0 then failures - 1 else failures)
          (if next == 0 then q else record q { tail = next }) node in
      if (next == 0) && (failures == 0)
      then some (record q { next = store q.next q.tail node; tail = node })
      else again

  unfoldable pub try_enqueue :
      (fuel failures_allocate failures_link : ℕ) → MpmcQueue A → A → Option (Bool × MpmcQueue A)
  try_enqueue fuel failures_allocate failures_link q item =
      let (node, taken) = allocate_node failures_allocate q in
      let filled = record taken {
        data_at = store taken.data_at node item;
        next = store taken.next node 0;
      } in
      if node == 0 then some (false, taken) else elim (link fuel failures_link filled node) [
        | none ↦ none
        | some linked ↦ some (true, linked)
      ]

  -- The loop of `try_dequeue`. `item` is the caller's, which an attempt that fails has overwritten.
  unfoldable pub unlink :
      (fuel failures failures_reclaim : ℕ) → MpmcQueue A → A → Option (Bool × A × MpmcQueue A)
  unlink zero failures failures_reclaim q item = none
  unlink (suc fuel) failures failures_reclaim q item =
      let next = q.next q.head in
      let helping = q.head == q.tail in
      let waiting = next == 0 in
      let retried =
        unlink fuel (if helping || waiting then failures else failures - 1) failures_reclaim
          (if helping then record q { tail = next } else q)
          (if helping || waiting then item else q.data_at next) in
      if helping && waiting
      then some (false, item, q)
      else if helping || waiting || not (failures == 0)
      then retried
      else some
          (true, q.data_at next, reclaim_node failures_reclaim (record q { head = next }) q.head)

  unfoldable pub try_dequeue :
      (fuel failures failures_reclaim : ℕ) → MpmcQueue A → A → Option (Bool × A × MpmcQueue A)
  try_dequeue fuel failures failures_reclaim q item = unlink fuel failures failures_reclaim q item

  -- The loop of `try_dequeue_bulk` from `count` on, over the elements of `items` that are left, with how
  -- many of them were dequeued. Each of its dequeues has its own fuel and its own failures.
  unfoldable pub try_dequeue_bulk :
      (fuel failures failures_reclaim : ℕ → ℕ) (count : ℕ)
      → MpmcQueue A
      → List A
      → Option (ℕ × List A × MpmcQueue A)
  try_dequeue_bulk fuel failures failures_reclaim count q [] = some (0, [], q)
  try_dequeue_bulk fuel failures failures_reclaim count q (slot ∷ items) =
      elim (try_dequeue (fuel count) (failures count) (failures_reclaim count) q slot) [
        | none ↦ none
        | some (ok, item, q') ↦ elim ok [
          | false ↦ some (0, item ∷ items, q')
          | true ↦ elim (try_dequeue_bulk fuel failures failures_reclaim (count + 1) q' items) [
            | none ↦ none
            | some (more, items', q'') ↦ some (suc more, item ∷ items', q'')
          ]
        ]
      ]

  unfoldable pub empty : MpmcQueue A → Bool
  empty q = q.next q.head == 0

  -- The count stops at the number of nodes.
  unfoldable pub size : ℕ → MpmcQueue A → ℕ
  size max_nodes q = walk q.next max_nodes (q.next q.head)
