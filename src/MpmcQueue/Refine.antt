-- ===== src/MpmcQueue/Refine.antt =====
-- `try_enqueue` and `try_dequeue`, against a bounded queue.
use market_data_feed_handler.Prelude.{
  ℕ, zero, suc, ◌+◌, ◌<◌, ◌≡◌, refl, ◌≢◌, ◌∙◌, ap, true, false, some, List, [], ◌∷◌, ◌++◌, arith,
  ◌==◌, ==_refl, ==_ne, length, length-append, append-nil,
}
use market_data_feed_handler.Chain.{store, occurs, occurs-append, Chain-store}
use market_data_feed_handler.CircularBuffer.Queue
use market_data_feed_handler.CircularBuffer.Queue.{Queue}
use market_data_feed_handler.MpmcQueue.{MpmcQueue, reclaim_node, unlink, try_enqueue, try_dequeue}
use market_data_feed_handler.MpmcQueue.Invariant.{
  nodes, Inv, elements, Chain-begins, elements-begins, allocate_node_lem, reclaim_node_lem,
  link_lem, unlink_lem,
}
use market_data_feed_handler.MpmcQueue.Steps.{
  Chain-occurs, occurs-nodes, elements-snoc, elements-store, length-elements, enqueued,
  enqueued-Inv, dequeued-Inv, helped-Inv,
}

-- The queue holds `items`, oldest first.
pub record Represents {A : Type 0} (max_nodes : ℕ) (q : MpmcQueue A) (items : Queue A)
    : Type 0 where
  pub before : List ℕ
  pub lag : List ℕ
  pub last : ℕ
  pub free : List ℕ
  pub inv : Inv max_nodes q before lag last free
  pub holds : items ≡ elements q.data_at (nodes before lag last)

module _ {A : Type 0} where
  module _ {max_nodes : ℕ} where
    room :
        {q : MpmcQueue A} {items : Queue A} (r : Represents max_nodes q items)
        → length items + 1 + length r.free ≡ max_nodes
    room {q} r =
        let e = r.holds in
        rw (e, length-elements q.data_at (nodes r.before r.lag r.last))
          (omega (
            arith,
            r.inv.total,
            length-append (r.before ++ r.lag) (r.last ∷ []),
            length-append r.before r.lag,
          ))

    -- Enough fuel gives the result of the bounded queue's push, and a queue that holds what it holds.
    pub try_enqueue_refines :
        (fuel a b : ℕ) {q : MpmcQueue A} {items : Queue A} (item : A)
        → Represents max_nodes q items
        → max_nodes + b < fuel
        → let (ok, items') = Queue.push max_nodes items item in
          (q' : MpmcQueue A) × (try_enqueue fuel a b q item ≡ some (ok, q'))
          × Represents max_nodes q' items'
    unfolding try_enqueue Queue.push
    try_enqueue_refines fuel a b {q} {items} item r h = go r.free r.inv (room r)
      where
        go :
            (free : List ℕ)
            → Inv max_nodes q r.before r.lag r.last free
            → length items + 1 + length free ≡ max_nodes
            → let (ok, items') = Queue.push max_nodes items item in
              (q' : MpmcQueue A) × (try_enqueue fuel a b q item ≡ some (ok, q'))
              × Represents max_nodes q' items'
        go [] i t =
            let full : (length items + 1 == max_nodes) ≡ true = ground arith in
            rw (full, allocate_node_lem a q) (q, rw i.free_nodes refl, r)
        go (f ∷ free) i t =
            let (e, ne, c) = i.free_nodes in
            let full : (length items + 1 == max_nodes) ≡ false = ground arith in
            let taken : (q.free_list == 0) ≡ false = ground arith in
            let new : occurs f (nodes r.before r.lag r.last) ≡ 0 =
              rw (occurs-nodes f r.before r.lag r.last) (ground (arith, i.once f)) in
            rw (full, allocate_node_lem a q, taken)
              (
                enqueued q r.last f item,
                rw (taken, e)
                    (rw
                      (link_lem fuel b
                        (record q {
                          free_list = q.next f;
                          next = store q.next f 0;
                          data_at = store q.data_at f item;
                        })
                        f r.lag r.last
                        (Chain-store q.next q.tail (r.lag ++ (r.last ∷ [])) f 0
                          (rw (occurs-append f r.lag (r.last ∷ [])) (ground (arith, i.once f)))
                          i.tail)
                        (omega (arith, i.total)))
                      refl),
                record {
                  before = nodes r.before r.lag r.last;
                  lag = [];
                  last = f;
                  free = free;
                  inv = enqueued-Inv q r.before r.lag r.last f free item i;
                  holds =
                      rw
                        (
                          append-nil,
                          elements-snoc (store q.data_at f item) (r.before ++ r.lag) r.last f,
                          elements-store q.data_at f item (nodes r.before r.lag r.last) new,
                          ==_refl f,
                        )
                        (ap (λ l. l ++ (item ∷ [])) r.holds);
                },
              )

    unlink_taken :
        (fuel b c : ℕ) {q : MpmcQueue A} {items : Queue A} (item : A) (h : ℕ) (before lag : List ℕ)
        (last : ℕ) (free : List ℕ)
        → Inv max_nodes q (h ∷ before) lag last free
        → items ≡ elements q.data_at (nodes (h ∷ before) lag last)
        → b < fuel
        → let (ok, out, items') = Queue.pop items item in
          (q' : MpmcQueue A) × (unlink fuel b c q item ≡ some (ok, out, q'))
          × Represents max_nodes q' items'
    unfolding Queue.pop
    unlink_taken fuel b c {q} {items} item h before lag last free i holds enough =
        let (e, ne, chain) = i.queue in
        let n : q.next q.head ≢ 0 =
          rw e (Chain-begins q.next (q.next h) (before ++ lag) last chain) in
        let begins : items
            ≡ q.data_at (q.next q.head) ∷ elements q.data_at (nodes before lag last) =
          holds ∙ rw e (elements-begins q.data_at q.next (q.next h) (before ++ lag) last chain) in
        let apart : q.head ≢ q.tail = λ same.
          let t : q.tail ≡ h = omega arith in
          let seen = rw t at (Chain-occurs q.next q.tail lag last i.tail) in
          ground (arith, i.once h, occurs-append h lag (last ∷ []), ==_refl h) in
        rw begins (
          reclaim_node c (record q { head = q.next q.head }) q.head,
          unlink_lem fuel b c q item apart n enough,
          record {
            before = before;
            lag = lag;
            last = last;
            free = h ∷ free;
            inv = dequeued-Inv c q h before lag last free i;
            holds =
                rw (reclaim_node_lem c (record q { head = q.next q.head }) q.head (rw e ne)) refl;
          },
        )

    -- Enough fuel gives the result of the queue's pop, and a queue that holds what is left.
    pub try_dequeue_refines :
        (fuel b c : ℕ) {q : MpmcQueue A} {items : Queue A} (item : A)
        → Represents max_nodes q items
        → b + 1 < fuel
        → let (ok, out, items') = Queue.pop items item in
          (q' : MpmcQueue A) × (try_dequeue fuel b c q item ≡ some (ok, out, q'))
          × Represents max_nodes q' items'
    unfolding try_dequeue unlink Queue.pop
    try_dequeue_refines zero b c item r enough = absurd (omega arith)
    try_dequeue_refines (suc fuel) b c {q} {items} item r enough = go r.before r.lag r.inv r.holds
      where
        go :
            (before lag : List ℕ)
            → Inv max_nodes q before lag r.last r.free
            → items ≡ elements q.data_at (nodes before lag r.last)
            → let (ok, out, items') = Queue.pop items item in
              (q' : MpmcQueue A) × (unlink (suc fuel) b c q item ≡ some (ok, out, q'))
              × Represents max_nodes q' items'
        go (h ∷ before) lag i holds =
            unlink_taken (suc fuel) b c item h before lag r.last r.free i holds (omega arith)
        go [] [] i holds =
            let same : (q.head == q.tail) ≡ true = ground arith in
            let z : q.next q.head ≡ 0 = rw (i.queue.0) (i.queue.2) in
            rw holds (q, rw (same, z) refl, rw holds at r)
        go [] (x ∷ lag) i holds =
            let (e, ne, chain) = i.queue in
            let n : q.next q.head ≢ 0 = rw e (Chain-begins q.next (q.next x) lag r.last chain) in
            let same : (q.head == q.tail) ≡ true = ground arith in
            rw (same, ==_ne (q.next q.head) 0 n)
              (unlink_taken fuel b c {q = record q { tail = q.next q.head }} item x [] lag r.last
                r.free (helped-Inv q x lag r.last r.free i) holds (omega arith))
