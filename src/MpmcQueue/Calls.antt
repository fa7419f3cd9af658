-- ===== src/MpmcQueue/Calls.antt =====
-- What a client sees of a queue, call by call.
use market_data_feed_handler.Prelude.{
  ℕ, suc, ◌+◌, ◌-◌, ◌≤◌, ◌<◌, ◌≡◌, refl, Bool, Option, none, some, List, [], ◌∷◌, ◌++◌, arith, ◌==◌,
  length, length-append,
}
use market_data_feed_handler.Chain.{Links, Chain, walk, walk-length}
use market_data_feed_handler.CircularBuffer.Queue
use market_data_feed_handler.CircularBuffer.Queue.{Queue}
use market_data_feed_handler.MpmcQueue.{
  MpmcQueue, create, try_enqueue, try_dequeue, try_dequeue_bulk, empty, size,
}
use market_data_feed_handler.MpmcQueue.Invariant.{nodes}
use market_data_feed_handler.MpmcQueue.Refine.{Represents, try_enqueue_refines, try_dequeue_refines}
use market_data_feed_handler.MpmcQueue.Steps.{length-elements}
use market_data_feed_handler.MpmcQueue.Create.{create-Represents}

module _ {A : Type 0} where
  -- The oldest elements go into the slots, as many as there are of both.
  unfoldable pub drain : List A → Queue A → ℕ × List A × Queue A
  drain [] items = (0, [], items)
  drain (slot ∷ slots) [] = (0, slot ∷ slots, [])
  drain (slot ∷ slots) (x ∷ items) =
      let (count, filled, rest) = drain slots items in (suc count, x ∷ filled, rest)

-- A call, with how often each of its loops fails without cause.
pub data Op (A : Type 0) : Type 0 where
  enqueue : (failures_allocate failures_link : ℕ) → A → Op A
  dequeue : (failures failures_reclaim : ℕ) → A → Op A
  dequeue_bulk : (failures failures_reclaim : ℕ → ℕ) → List A → Op A
  ask_size ask_empty : Op A

pub data Reply (A : Type 0) : Type 0 where
  done : Bool → Reply A
  got : Bool → A → Reply A
  got_bulk : ℕ → List A → Reply A
  count : ℕ → Reply A

module _ {A : Type 0} (max_nodes : ℕ) where
  unfoldable pub step : MpmcQueue A → Op A → Option (Reply A × MpmcQueue A)
  step q (enqueue a b x) = elim (try_enqueue (max_nodes + b + 1) a b q x) [
    | none ↦ none
    | some (ok, q') ↦ some (done ok, q')
  ]
  step q (dequeue b c item) = elim (try_dequeue (b + 2) b c q item) [
    | none ↦ none
    | some (ok, out, q') ↦ some (got ok out, q')
  ]
  step q (dequeue_bulk b c slots) = elim (try_dequeue_bulk (λ i. b i + 2) b c 0 q slots) [
    | none ↦ none
    | some (n, out, q') ↦ some (got_bulk n out, q')
  ]
  step q ask_size = some (count (size max_nodes q), q)
  step q ask_empty = some (done (empty q), q)

  -- A client's calls in order, with what it sees of each. `none` is a loop that is not done.
  unfoldable pub run : MpmcQueue A → List (Op A) → Option (List (Reply A))
  run q [] = some []
  run q (op ∷ ops) = elim (step q op) [
    | none ↦ none
    | some (reply, q') ↦ elim (run q' ops) [ none ↦ none | some replies ↦ some (reply ∷ replies) ]
  ]

  -- The same calls on a bounded queue.
  unfoldable pub specified : Queue A → Op A → Reply A × Queue A
  specified items (enqueue a b x) =
      let (ok, items') = Queue.push max_nodes items x in (done ok, items')
  specified items (dequeue b c item) =
      let (ok, out, items') = Queue.pop items item in (got ok out, items')
  specified items (dequeue_bulk b c slots) =
      let (n, out, items') = drain slots items in (got_bulk n out, items')
  specified items ask_size = (count (length items), items)
  specified items ask_empty = (done (length items == 0), items)

  unfoldable pub run_specified : Queue A → List (Op A) → List (Reply A)
  run_specified items [] = []
  run_specified items (op ∷ ops) =
      let (reply, items') = specified items op in reply ∷ run_specified items' ops

-- The count of the nodes after the first, and whether there is one.
pub walk_nodes :
    (next : Links) (limit p : ℕ) (xs : List ℕ)
    → Chain next p xs
    → 0 < length xs
    → length xs ≤ limit
    → (walk next limit (next p) ≡ length xs - 1) × ((next p == 0) ≡ (length xs - 1 == 0))
walk_nodes next limit p [] c some_node h = absurd (omega arith)
walk_nodes next limit p (x ∷ []) (e, ne, c) some_node h =
    (rw (e, c) (walk-length next limit 0 [] refl (omega arith)), rw (e, c) refl)
walk_nodes next limit p (x ∷ y ∷ xs) (e, ne, c) some_node h =
    let n : length (y ∷ xs) ≡ length (x ∷ y ∷ xs) - 1 = omega arith in
    (rw (e, ← n) (walk-length next limit (next x) (y ∷ xs) c (omega arith)), rw e (ground arith))

module _ {A : Type 0} {max_nodes : ℕ} where
  -- `size` is the number of elements, and `empty` tells whether there is none.
  pub counts_refine :
      {q : MpmcQueue A} {items : Queue A}
      → Represents max_nodes q items
      → (size max_nodes q ≡ length items) × (empty q ≡ (length items == 0))
  unfolding size empty
  counts_refine {q} {items} r =
      let ns = nodes r.before r.lag r.last in
      let e = r.holds in
      let l : length items ≡ length ns - 1 = rw e (length-elements q.data_at ns) in
      rw l (
        walk_nodes q.next max_nodes q.head ns r.inv.queue
          (rw (length-append (r.before ++ r.lag) (r.last ∷ [])) (omega arith))
          (rw (length-append (r.before ++ r.lag) (r.last ∷ []), length-append r.before r.lag)
            (omega (arith, r.inv.total))))

  pub try_dequeue_bulk_refines :
      (fuel b c : ℕ → ℕ) (i : ℕ) (slots : List A) {q : MpmcQueue A} {items : Queue A}
      → Represents max_nodes q items
      → ((k : ℕ) → b k + 1 < fuel k)
      → let (n, out, items') = drain slots items in
        (q' : MpmcQueue A) × (try_dequeue_bulk fuel b c i q slots ≡ some (n, out, q'))
        × Represents max_nodes q' items'
  unfolding try_dequeue_bulk drain Queue.pop
  try_dequeue_bulk_refines fuel b c i [] r h = (_, refl, r)
  try_dequeue_bulk_refines fuel b c i (slot ∷ slots) {q} {items = []} r h =
      let (q', e, r') = try_dequeue_refines (fuel i) (b i) (c i) slot r (h i) in
      (q', rw (try_dequeue_bulk, e) refl, r')
  try_dequeue_bulk_refines fuel b c i (slot ∷ slots) {q} {items = x ∷ items} r h =
      let (q', e, r') = try_dequeue_refines (fuel i) (b i) (c i) slot r (h i) in
      let (q'', e', r'') = try_dequeue_bulk_refines fuel b c (i + 1) slots r' h in
      (q'', rw (try_dequeue_bulk, e, e') refl, r'')

  call_refines :
      (op : Op A) {q : MpmcQueue A} {items : Queue A}
      → Represents max_nodes q items
      → let (reply, items') = specified max_nodes items op in
        (q' : MpmcQueue A) × (step max_nodes q op ≡ some (reply, q'))
        × Represents max_nodes q' items'
  unfolding step specified
  call_refines (enqueue a b x) r =
      let (q', e, r') = try_enqueue_refines (max_nodes + b + 1) a b x r (omega arith) in
      (q', rw (step, e) refl, r')
  call_refines (dequeue b c item) r =
      let (q', e, r') = try_dequeue_refines (b + 2) b c item r (omega arith) in
      (q', rw (step, e) refl, r')
  call_refines (dequeue_bulk b c slots) r =
      let (q', e, r') = try_dequeue_bulk_refines (λ k. b k + 2) b c 0 slots r (λ k. omega arith) in
      (q', rw (step, e) refl, r')
  call_refines ask_size {q} r = (q, rw (counts_refine r).0 refl, r)
  call_refines ask_empty {q} r = (q, rw (counts_refine r).1 refl, r)

  -- Every sequence of calls on a queue that holds `items`, its tail moved on or not, ends, whatever
  -- the numbers of failures, and answers as the bounded queue `items` with room for `max_nodes - 1`.
  pub calls_refine :
      (ops : List (Op A)) {q : MpmcQueue A} {items : Queue A}
      → Represents max_nodes q items
      → run max_nodes q ops ≡ some (run_specified max_nodes items ops)
  unfolding run run_specified
  calls_refine [] r = refl
  calls_refine (op ∷ ops) r =
      let (q', e, r') = call_refines op r in rw (run, e, calls_refine ops r') refl

-- Every sequence of calls on a new queue of at least one node ends, and answers as an empty bounded
-- queue with room for `max_nodes - 1` elements does.
pub create-run :
    {A : Type 0} (max_nodes : ℕ) (initial : A) (ops : List (Op A))
    → 0 < max_nodes
    → run max_nodes (create max_nodes initial) ops ≡ some (run_specified max_nodes [] ops)
create-run max_nodes initial ops h = calls_refine ops (create-Represents max_nodes initial h)
