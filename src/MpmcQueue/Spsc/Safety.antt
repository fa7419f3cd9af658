-- ===== src/MpmcQueue/Spsc/Safety.antt =====
-- What holds in every state that one producer and one consumer can reach.
use market_data_feed_handler.Prelude.{
  ℕ, ◌+◌, ◌≤◌, ◌<◌, ◌≡◌, refl, sym, ◌∙◌, ap, ◌≢◌, ◌-◌, List, [], ◌∷◌, ◌++◌, arith, length,
  length-append, ◌==◌, append_assoc,
}
use market_data_feed_handler.Chain.{Links, occurs, occurs-append, Chain}
use market_data_feed_handler.MpmcQueue.{MpmcQueue, size, empty}
use market_data_feed_handler.MpmcQueue.Invariant as Sequential
use market_data_feed_handler.MpmcQueue.Invariant.{elements, nodes}
use market_data_feed_handler.MpmcQueue.Steps.{length-elements}
use market_data_feed_handler.MpmcQueue.Refine.{Represents}
use market_data_feed_handler.MpmcQueue.Create.{create-Represents}
use market_data_feed_handler.MpmcQueue.Calls.{walk_nodes}
use market_data_feed_handler.MpmcQueue.Threads.{Producer, Consumer, System, enqueue, dequeue, start}
use market_data_feed_handler.MpmcQueue.Spsc.{Inv, Holds, Reach, here, next, owned, reclaimed}
use market_data_feed_handler.MpmcQueue.Spsc.Nodes.{Chain-second, occurs-apart}
use market_data_feed_handler.MpmcQueue.Spsc.Enqueues.{Enqueue-Holds}
use market_data_feed_handler.MpmcQueue.Spsc.Dequeues.{Dequeue-Holds}

Chain-null : (links : Links) (p : ℕ) (xs : List ℕ) → Chain links p xs → p ≡ 0 → length xs ≡ 0
Chain-null links p [] c z = refl
Chain-null links p (x ∷ xs) (e, ne, c) z = absurd (omega arith)

module _ {A : Type 0} {max_nodes : ℕ} where
  -- An empty queue at rest.
  pub at_rest-Holds :
      {q : MpmcQueue A}
      → Represents max_nodes q []
      → Holds max_nodes q Producer.idle Consumer.idle []
  at_rest-Holds {q} r = go r.before r.lag r.inv r.holds
    where
      no_more :
          (before lag : List ℕ)
          → Sequential.Inv max_nodes q before lag r.last r.free
          → [] ≡ elements q.data_at (nodes before lag r.last)
          → ¬ (1 ≤ length before + length lag)
      no_more before lag i e some =
          let n : length (nodes before lag r.last) ≡ length before + length lag + 1 =
            omega (arith, length-append (before ++ lag) (r.last ∷ []), length-append before lag) in
          let l = ap length e ∙ length-elements q.data_at (nodes before lag r.last) in
          omega (arith, n, l)

      go :
          (before lag : List ℕ)
          → Sequential.Inv max_nodes q before lag r.last r.free
          → [] ≡ elements q.data_at (nodes before lag r.last)
          → Holds max_nodes q Producer.idle Consumer.idle []
      go [] [] i e = record {
        before = [];
        last = r.last;
        free = r.free;
        inv = record {
          queue = i.queue;
          free_nodes = i.free_nodes;
          once = λ a. omega (arith, i.once a);
          total = omega (arith, i.total);
          tail = i.tail.0;
          produces = tt;
          consumes = tt;
        };
        holds = refl;
      }
      go [] (x ∷ lag) i e = absurd (no_more [] (x ∷ lag) i e (omega arith))
      go (x ∷ before) lag i e = absurd (no_more (x ∷ before) lag i e (omega arith))

  -- The nodes of the queue, counted.
  Holds-counts :
      {q : MpmcQueue A} {p : Producer A} {c : Consumer A} {items : List A}
      (h : Holds max_nodes q p c items)
      → (length items ≡ length h.before)
        × (size max_nodes q ≡ length h.before)
        × (empty q ≡ (length h.before == 0))
  unfolding size empty
  Holds-counts {q} h =
      let ns = h.before ++ (h.last ∷ []) in
      let l : length ns ≡ length h.before + 1 = length-append h.before (h.last ∷ []) in
      let n : length ns - 1 ≡ length h.before = omega (arith, l) in
      let (counted, tested) = rw n at (
        walk_nodes q.next max_nodes q.head ns h.inv.queue (omega (arith, l))
          (omega (arith, l, h.inv.total))) in
      (ap length h.holds ∙ length-elements q.data_at ns ∙ n, counted, tested)

  module _ (initial : A) (some_node : 0 < max_nodes) where
    Reach-Holds :
        {s : System A}
        → Reach (start max_nodes initial) s
        → (items : List A) × Holds max_nodes s.queue (s.producers 0) (s.consumers 0) items
          × (s.put ≡ s.taken ++ items)
    Reach-Holds here = ([], at_rest-Holds (create-Represents max_nodes initial some_node), refl)
    Reach-Holds (next {s} r (enqueue {l} e)) =
        let (items, h, f) = Reach-Holds r in
        (items ++ l, Enqueue-Holds e h, ap (λ t. t ++ l) f ∙ append_assoc s.taken items l)
    Reach-Holds (next {s} r (dequeue {l} e)) =
        let (items, h, f) = Reach-Holds r in
        let (items', g, h') = Dequeue-Holds e h in
        (items', h', f ∙ ap (λ t. s.taken ++ t) g ∙ sym (append_assoc s.taken l items'))

    module _ {s : System A} (r : Reach (start max_nodes initial) s) where
      -- First in, first out, with nothing lost and nothing twice, in every interleaving of one
      -- producer and one consumer on a new queue of at least one node: what was put in is what was
      -- taken out followed by some elements, which are as many as `size` counts, of which `empty`
      -- tells whether there are any, and which are at most `max_nodes - 1`.
      pub Reach-put :
          (items : List A) × (s.put ≡ s.taken ++ items)
          × (size max_nodes s.queue ≡ length items)
          × (empty s.queue ≡ (length items == 0))
          × (length items + 1 ≤ max_nodes)
      Reach-put =
          let (items, h, f) = Reach-Holds r in
          let (n, counted, tested) = Holds-counts h in
          (items, f, counted ∙ sym n, rw n tested, omega (arith, n, h.inv.total))

      -- No data race on the elements: the producer writes to a node that is neither the one that the
      -- consumer reads, nor any that it can read before the producer has linked it.
      pub Reach-apart :
          {x item : A} {node head n : ℕ}
          → s.producers 0 ≡ Producer.granted x node
          → s.consumers 0 ≡ Consumer.reading item head n
          → node ≢ n
      Reach-apart {node} {n} e f =
          let (items, h, g) = Reach-Holds r in
          let i : Inv max_nodes s.queue (Producer.granted _ node) (Consumer.reading _ _ n) h.before
              h.last h.free =
            rw (e, f) at h.inv in
          let (hd, ne, nn, succ) = i.consumes in
          let out : occurs node (h.before ++ (h.last ∷ [])) ≡ 0 =
            rw (occurs-append node h.before (h.last ∷ [])) (ground (arith, i.once node)) in
          let inside =
            rw succ at
              (Chain-second s.queue.next s.queue.head h.before h.last i.queue (rw succ nn)) in
          occurs-apart n node (h.before ++ (h.last ∷ [])) inside out

      -- A refusal at the load of `free_list_` means that the queue holds `max_nodes - 1` elements,
      -- or one less, while the consumer gives a node back.
      pub Reach-refused :
          s.producers 0 ≡ Producer.idle
          → s.queue.free_list ≡ 0
          → size max_nodes s.queue + 1 + length (reclaimed (s.consumers 0)) ≡ max_nodes
      Reach-refused e z =
          let (items, h, f) = Reach-Holds r in
          let none = Chain-null s.queue.next s.queue.free_list h.free h.inv.free_nodes z in
          let mine : length (owned (s.producers 0)) ≡ 0 = rw e refl in
          omega (arith, (Holds-counts h).1, none, mine, h.inv.total)
