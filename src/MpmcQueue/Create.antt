-- ===== src/MpmcQueue/Create.antt =====
-- The constructor of the queue, node by node.
use market_data_feed_handler.Prelude.{
  ℕ, zero, suc, ◌+◌, ◌-◌, ◌<◌, ◌≡◌, refl, ◌≢◌, false, List, [], ◌∷◌, arith, ◌==◌,
}
use market_data_feed_handler.Chain.{store, occurs, Chain-cons}
use market_data_feed_handler.MpmcQueue.{MpmcQueue, node_at, fill, create}
use market_data_feed_handler.MpmcQueue.Invariant.{Inv}
use market_data_feed_handler.MpmcQueue.Refine.{Represents}

module _ {A : Type 0} where
  -- One more free node, whose address is not in use.
  filled-Inv :
      (count a : ℕ) (q : MpmcQueue A) (free : List ℕ)
      → a ≢ 0
      → occurs a (1 ∷ free) ≡ 0
      → Inv count q [] [] 1 free
      → Inv
          (count + 1)
          (record q { next = store q.next a q.free_list; free_list = a })
          []
          []
          1
          (a ∷ free)
  filled-Inv count a q free ne new i =
      let apart : (a == 1) ≡ false = ground arith in
      record {
        queue = rw apart i.queue;
        tail = rw apart i.tail;
        free_nodes = Chain-cons q.next q.free_list free a ne (ground arith) i.free_nodes;
        once = λ b. ground (arith, i.once b);
        total = omega (arith, i.total);
      }

  -- The loop, from a queue whose nodes are those below `i`.
  fill-Represents :
      (left i : ℕ) (q : MpmcQueue A) (free : List ℕ)
      → 0 < i
      → ((a : ℕ) → i < a → occurs a (1 ∷ free) ≡ 0)
      → Inv i q [] [] 1 free
      → Represents (i + left) (fill left i q) []
  unfolding fill
  fill-Represents zero i q free pos fresh v =
      let e : i + 0 ≡ i = omega arith in
      record { before = []; lag = []; last = 1; free = free; inv = rw e v; holds = refl }
  fill-Represents (suc left) i q free pos fresh v =
      let step : i + suc left ≡ i + 1 + left = omega arith in
      rw step (
        fill-Represents left (i + 1)
          (record q { next = store q.next (node_at i) q.free_list; free_list = node_at i })
          (node_at i ∷ free) (omega arith) (λ a h. ground (arith, fresh a))
          (filled-Inv i (node_at i) q free (omega arith) (fresh (node_at i) (omega arith)) v))

  -- The constructor with at least one node gives a queue that holds nothing.
  pub create-Represents :
      (max_nodes : ℕ) (initial : A)
      → 0 < max_nodes
      → Represents max_nodes (create max_nodes initial) []
  unfolding create
  create-Represents max_nodes initial h =
      let e : 1 + (max_nodes - 1) ≡ max_nodes = omega arith in
      let q : MpmcQueue A = record {
        head = node_at 0;
        tail = node_at 0;
        free_list = 0;
        next = store (λ _. 0) (node_at 0) 0;
        data_at = λ _. initial;
      } in
      rw e at (
        fill-Represents (max_nodes - 1) 1 q [] (omega arith) (λ a h. ground arith)
          (record {
            queue = (refl, omega arith, refl);
            tail = (refl, omega arith, refl);
            free_nodes = refl;
            once = λ a. ground arith;
            total = refl;
          }))
