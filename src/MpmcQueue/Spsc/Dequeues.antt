-- ===== src/MpmcQueue/Spsc/Dequeues.antt =====
-- What an access of the consumer keeps.
use market_data_feed_handler.Prelude.{
  ℕ, ◌≡◌, refl, sym, ◌∙◌, ap, inr, List, [], ◌∷◌, ◌++◌, arith, ==_refl,
}
use market_data_feed_handler.Chain.{store, occurs, occurs-append, Chain-store}
use market_data_feed_handler.MpmcQueue.{MpmcQueue}
use market_data_feed_handler.MpmcQueue.Invariant.{elements, elements-begins}
use market_data_feed_handler.MpmcQueue.Threads.{Producer, Consumer, Dequeue}
use market_data_feed_handler.MpmcQueue.Spsc.{reclaimed, ConsumerKnows, Inv, Holds}
use market_data_feed_handler.MpmcQueue.Spsc.Nodes.{Chain-ends}
use market_data_feed_handler.MpmcQueue.Spsc.Locals.{
  em_eq, help-Knows, store-Knows, store-Tail, push-Knows, take-Tail,
}

module _ {A : Type 0} {max_nodes : ℕ} where
  -- A load leaves the queue as it is.
  load-Holds :
      {q : MpmcQueue A} {p : Producer A} {c c' : Consumer A} {items : List A}
      (h : Holds max_nodes q p c items)
      → reclaimed c' ≡ reclaimed c
      → ConsumerKnows q.head q.tail q.next q.data_at c'
      → Holds max_nodes q p c' items
  load-Holds h r k = record {
    before = h.before;
    last = h.last;
    free = h.free;
    inv = record {
      queue = h.inv.queue;
      free_nodes = h.inv.free_nodes;
      once = rw r h.inv.once;
      total = rw r h.inv.total;
      tail = h.inv.tail;
      produces = h.inv.produces;
      consumes = k;
    };
    holds = h.holds;
  }

  -- The consumer moves a tail that it has found behind.
  help-Holds :
      {q : MpmcQueue A} {p : Producer A} {item : A} {tail n : ℕ} {items : List A}
      → Holds max_nodes q p (Consumer.helping item tail n) items
      → q.tail ≡ tail
      → Holds max_nodes (record q { tail = n }) p (Consumer.again item) items
  help-Holds {q} {p} {item} {tail} {n} h e =
      let i = h.inv in
      let (t, ne, s) = i.consumes in
      let same : q.tail ≡ q.head = omega (arith, t, e) in
      let both =
        help-Knows q h.before h.last h.free p n (rw same s) ne
          (Chain-ends q.next q.head h.before h.last i.queue) i.tail in
      record {
        before = h.before;
        last = h.last;
        free = h.free;
        inv = record {
          queue = i.queue;
          free_nodes = i.free_nodes;
          once = i.once;
          total = i.total;
          tail = both.0;
          produces = both.1;
          consumes = tt;
        };
        holds = h.holds;
      }

  -- The consumer takes the first element: the old dummy is its own.
  swing-Holds :
      {q : MpmcQueue A} {p : Producer A} {x : A} {head n : ℕ} {items : List A} (before : List ℕ)
      (last : ℕ) (free : List ℕ)
      → Inv max_nodes q p (Consumer.swinging x head n) before last free
      → items ≡ elements q.data_at (before ++ (last ∷ []))
      → (items' : List A) × (items ≡ x ∷ items')
        × Holds max_nodes (record q { head = n }) p (Consumer.freeing head) items'
  swing-Holds {q} [] last free i e =
      let (hd, ne, nn, s, d) = i.consumes in
      let (f, nl, z) = i.queue in absurd (nn (sym s ∙ rw f z))
  swing-Holds {q} {p} {x} {head} {n} (b ∷ before) last free i e =
      let (hd, ne, nn, s, d) = i.consumes in
      let (f, nb, chain) = i.queue in
      let b_head : b ≡ head = omega arith in
      let succ : q.next b ≡ n = rw (← f) s in
      (
        elements q.data_at (before ++ (last ∷ [])),
        e
            ∙ elements-begins q.data_at q.next (q.next b) before last chain
            ∙ ap (λ y. y ∷ elements q.data_at (before ++ (last ∷ []))) (rw succ d),
        record {
          before = before;
          last = last;
          free = free;
          inv = record {
            queue = rw succ at chain;
            free_nodes = i.free_nodes;
            once = λ a. rw (← b_head) (ground (arith, i.once a));
            total = omega (arith, i.total);
            tail = take-Tail q before last free p b (rw f at ne) i.tail;
            produces = i.produces;
            consumes = rw (← b_head) nb;
          };
          holds = refl;
        },
      )

  store-Holds :
      {q : MpmcQueue A} {p : Producer A} {node old_head : ℕ} {items : List A}
      → Holds max_nodes q p (Consumer.storing node old_head) items
      → Holds max_nodes
          (record q { next = store q.next node old_head })
          p
          (Consumer.pushing node old_head)
          items
  store-Holds {q} {p} {node} {old_head} h =
      let i = h.inv in
      let out : occurs node (h.before ++ (h.last ∷ [])) ≡ 0 =
        rw (occurs-append node h.before (h.last ∷ [])) (ground (arith, i.once node)) in
      record {
        before = h.before;
        last = h.last;
        free = h.free;
        inv = record {
          queue = Chain-store q.next q.head (h.before ++ (h.last ∷ [])) node old_head out i.queue;
          free_nodes =
              Chain-store q.next q.free_list h.free node old_head (ground (arith, i.once node))
                i.free_nodes;
          once = i.once;
          total = i.total;
          tail =
              store-Tail q h.before h.last h.free p node old_head (ground (arith, i.once node))
                i.tail;
          produces =
              store-Knows q h.before h.last h.free p node old_head (ground (arith, i.once node))
                i.produces;
          consumes = (i.consumes, rw (==_refl node) refl);
        };
        holds = h.holds;
      }

  push-Holds :
      {q : MpmcQueue A} {p : Producer A} {node old_head : ℕ} {items : List A}
      → Holds max_nodes q p (Consumer.pushing node old_head) items
      → q.free_list ≡ old_head
      → Holds max_nodes (record q { free_list = node }) p Consumer.idle items
  push-Holds {q} {p} {node} {old_head} h e =
      let i = h.inv in
      record {
        before = h.before;
        last = h.last;
        free = node ∷ h.free;
        inv = record {
          queue = i.queue;
          free_nodes = (refl, i.consumes.0, rw (i.consumes.1, ← e) i.free_nodes);
          once = λ a. ground (arith, i.once a);
          total = omega (arith, i.total);
          tail = i.tail;
          produces = push-Knows q h.before h.last h.free p node i.produces;
          consumes = tt;
        };
        holds = h.holds;
      }

  -- An access of the consumer leaves the elements behind those that it has taken.
  pub Dequeue-Holds :
      {q q' : MpmcQueue A} {p : Producer A} {c c' : Consumer A} {l items : List A}
      → Dequeue q c l q' c'
      → Holds max_nodes q p c items
      → (items' : List A) × (items ≡ l ++ items') × Holds max_nodes q' p c' items'
  Dequeue-Holds (Dequeue.load_head item) h = (_, refl, load-Holds h refl refl)
  Dequeue-Holds Dequeue.load_head_again h = (_, refl, load-Holds h refl refl)
  Dequeue-Holds {q} Dequeue.load_tail h =
      (_, refl, load-Holds h refl (h.inv.consumes, em_eq q.head q.tail))
  Dequeue-Holds {q} Dequeue.load_next h =
      let (e, f) = h.inv.consumes in (_, refl, load-Holds h refl (e, f, inr (ap q.next e)))
  Dequeue-Holds (Dequeue.check_moved ne) h = (_, refl, load-Holds h refl tt)
  Dequeue-Holds (Dequeue.check_empty e f z) h = (_, refl, load-Holds h refl tt)
  Dequeue-Holds (Dequeue.check_help e f ne) h =
      let (a, b, c) = h.inv.consumes in
      (_, refl, load-Holds h refl (omega arith, ne, ground (arith, c)))
  Dequeue-Holds (Dequeue.check_wait e ne z) h = (_, refl, load-Holds h refl tt)
  Dequeue-Holds (Dequeue.check_read e ne nn) h =
      let (a, b, c) = h.inv.consumes in
      (_, refl, load-Holds h refl (a, ground (arith, b), nn, ground (arith, c)))
  Dequeue-Holds (Dequeue.help e) h = (_, refl, help-Holds h e)
  Dequeue-Holds (Dequeue.help_late e) h = (_, refl, load-Holds h refl tt)
  Dequeue-Holds Dequeue.read h =
      let (e, ne, nn, s) = h.inv.consumes in (_, refl, load-Holds h refl (e, ne, nn, s, refl))
  Dequeue-Holds (Dequeue.swing e) h = swing-Holds h.before h.last h.free h.inv h.holds
  Dequeue-Holds Dequeue.swing_again h = (_, refl, load-Holds h refl tt)
  Dequeue-Holds Dequeue.load_free h = (_, refl, load-Holds h refl h.inv.consumes)
  Dequeue-Holds Dequeue.store_next h = (_, refl, store-Holds h)
  Dequeue-Holds (Dequeue.push e) h = (_, refl, push-Holds h e)
  Dequeue-Holds Dequeue.push_again h = (_, refl, load-Holds h refl h.inv.consumes.0)
