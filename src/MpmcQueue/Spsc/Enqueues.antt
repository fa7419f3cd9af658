-- ===== src/MpmcQueue/Spsc/Enqueues.antt =====
-- What an access of the producer keeps.
use market_data_feed_handler.Prelude.{
  ℕ, ◌≡◌, refl, ap, inl, inr, List, [], ◌∷◌, ◌++◌, arith, length-append, ==_refl, append-nil,
}
use market_data_feed_handler.Chain.{store, occurs, occurs-append, Chain-store, Chain-first}
use market_data_feed_handler.MpmcQueue.{MpmcQueue}
use market_data_feed_handler.MpmcQueue.Invariant.{Chain-link}
use market_data_feed_handler.MpmcQueue.Steps.{Chain-occurs, elements-snoc, elements-store}
use market_data_feed_handler.MpmcQueue.Threads.{Producer, Consumer, Enqueue}
use market_data_feed_handler.MpmcQueue.Spsc.{owned, ProducerKnows, TailKnows, Inv, Holds}
use market_data_feed_handler.MpmcQueue.Spsc.Nodes.{
  Chain-ends, Chain-second, occurs-apart, Chain-first_apart, data-Knows, next-Knows, tail-Knows,
}

module _ {A : Type 0} {max_nodes : ℕ} where
  -- A load leaves the queue as it is.
  load-Holds :
      {q : MpmcQueue A} {p p' : Producer A} {c : Consumer A} {items : List A}
      (h : Holds max_nodes q p c items)
      → owned p' ≡ owned p
      → TailKnows q.tail q.next h.before h.last p'
      → ProducerKnows q.tail q.next q.data_at h.free p'
      → Holds max_nodes q p' c items
  load-Holds h o t k = record {
    before = h.before;
    last = h.last;
    free = h.free;
    inv = record {
      queue = h.inv.queue;
      free_nodes = h.inv.free_nodes;
      once = rw o h.inv.once;
      total = rw o h.inv.total;
      tail = t;
      produces = k;
      consumes = h.inv.consumes;
    };
    holds = h.holds;
  }

  -- The pop of the free list's first node, with the successor that the producer has loaded.
  pop-Inv :
      {q : MpmcQueue A} {x : A} {node n : ℕ} {c : Consumer A} {before : List ℕ} {last : ℕ}
      (free : List ℕ)
      → Inv max_nodes q (Producer.popped x node n) c before last free
      → q.free_list ≡ node
      → (free' : List ℕ) × Inv max_nodes
          (record q { free_list = n })
          (Producer.granted x node)
          c
          before
          last
          free'
  pop-Inv [] i e = absurd (omega (arith, i.produces))
  pop-Inv {q} {x} {node} {n} (f ∷ free) i e =
      let (g, ne, chain) = i.free_nodes in
      let same : f ≡ node = omega arith in
      let succ : q.next f ≡ n = rw same (i.produces.1) in
      (
        free,
        record {
          queue = i.queue;
          free_nodes = rw succ at chain;
          once = λ a. rw (← same) (ground (arith, i.once a));
          total = omega (arith, i.total);
          tail = i.tail;
          produces = rw (← same) ne;
          consumes = i.consumes;
        },
      )

  -- The write of the data, outside the queue.
  write-Holds :
      {q : MpmcQueue A} {x : A} {node : ℕ} {c : Consumer A} {items : List A}
      → Holds max_nodes q (Producer.granted x node) c items
      → Holds max_nodes
          (record q { data_at = store q.data_at node x })
          (Producer.written x node)
          c
          items
  write-Holds {q} {x} {node} {c} h =
      let i = h.inv in
      let out : occurs node (h.before ++ (h.last ∷ [])) ≡ 0 =
        rw (occurs-append node h.before (h.last ∷ [])) (ground (arith, i.once node)) in
      record {
        before = h.before;
        last = h.last;
        free = h.free;
        inv = record {
          queue = i.queue;
          free_nodes = i.free_nodes;
          once = i.once;
          total = i.total;
          tail = i.tail;
          produces = (i.produces, rw (==_refl node) refl);
          consumes =
              data-Knows q c node x
                (λ ne.
                  occurs-apart (q.next q.head) node (h.before ++ (h.last ∷ []))
                    (Chain-second q.next q.head h.before h.last i.queue ne) out)
                i.consumes;
        };
        holds = rw (elements-store q.data_at node x (h.before ++ (h.last ∷ [])) out) h.holds;
      }

  -- The store of null to the new node, outside the queue and the free list.
  clear-Holds :
      {q : MpmcQueue A} {x : A} {node : ℕ} {c : Consumer A} {items : List A}
      → Holds max_nodes q (Producer.written x node) c items
      → Holds max_nodes (record q { next = store q.next node 0 }) (Producer.trying x node) c items
  clear-Holds {q} {x} {node} {c} h =
      let i = h.inv in
      let (ne, d) = i.produces in
      let out : occurs node (h.before ++ (h.last ∷ [])) ≡ 0 =
        rw (occurs-append node h.before (h.last ∷ [])) (ground (arith, i.once node)) in
      record {
        before = h.before;
        last = h.last;
        free = h.free;
        inv = record {
          queue = Chain-store q.next q.head (h.before ++ (h.last ∷ [])) node 0 out i.queue;
          free_nodes =
              Chain-store q.next q.free_list h.free node 0 (ground (arith, i.once node))
                i.free_nodes;
          once = i.once;
          total = i.total;
          tail = i.tail;
          produces = (ne, (d, rw (==_refl node) refl));
          consumes =
              next-Knows q c node 0
                (inl (
                  occurs-apart q.head node (h.before ++ (h.last ∷ []))
                    (Chain-occurs q.next q.head h.before h.last i.queue) out))
                (ground (arith, i.once node)) i.consumes;
        };
        holds = h.holds;
      }

  link-Holds :
      {q : MpmcQueue A} {x : A} {node tail : ℕ} {c : Consumer A} {items : List A}
      → Holds max_nodes q (Producer.linking x node tail) c items
      → Holds max_nodes
          (record q { next = store q.next tail node })
          (Producer.swinging x node tail)
          c
          (items ++ (x ∷ []))
  link-Holds {q} {x} {node} {tail} {c} h =
      let i = h.inv in
      let (ne, (d, z), t) = i.produces in
      let e : tail ≡ h.last = omega (arith, i.tail) in
      let out : occurs node (h.before ++ (h.last ∷ [])) ≡ 0 =
        rw (occurs-append node h.before (h.last ∷ [])) (ground (arith, i.once node)) in
      let first =
        Chain-first_apart q.next q.head h.before h.last (ground (arith, i.once h.last)) i.queue in
      rw e (record {
        before = h.before ++ (h.last ∷ []);
        last = node;
        free = h.free;
        inv = record {
          queue =
              Chain-link q.next q.head h.before h.last node ne z (ground (arith, i.once h.last)) out
                i.queue;
          free_nodes =
              Chain-store q.next q.free_list h.free h.last node (ground (arith, i.once h.last))
                i.free_nodes;
          once = λ a. rw (occurs-append a h.before (h.last ∷ [])) (ground (arith, i.once a));
          total = omega (arith, i.total, length-append h.before (h.last ∷ []));
          tail = (
            refl,
            inr (
              i.tail,
              rw (i.tail, occurs-append h.last h.before (h.last ∷ []), ==_refl h.last)
                  (omega arith),
              rw (i.tail, ==_refl h.last) refl,
            ),
          );
          produces = tt;
          consumes =
              next-Knows q c h.last node (elim first [ inl ne ↦ inl ne | inr (z, e) ↦ inr z ])
                (ground (arith, i.once h.last)) i.consumes;
        };
        holds =
            rw (elements-snoc q.data_at h.before h.last node, d) (ap (λ l. l ++ (x ∷ [])) h.holds);
      })

  swing-Holds :
      {q : MpmcQueue A} {x : A} {node tail : ℕ} {c : Consumer A} {items : List A}
      → Holds max_nodes q (Producer.swinging x node tail) c items
      → q.tail ≡ tail
      → Holds max_nodes (record q { tail = node }) Producer.idle c items
  swing-Holds {q} {x} {node} {tail} {c} h e =
      let i = h.inv in
      let (n, t) = i.tail in
      let first =
        Chain-first_apart q.next q.head h.before h.last (ground (arith, i.once h.last)) i.queue in
      record {
        before = h.before;
        last = h.last;
        free = h.free;
        inv = record {
          queue = i.queue;
          free_nodes = i.free_nodes;
          once = i.once;
          total = i.total;
          tail = n;
          produces = tt;
          consumes =
              tail-Knows q c node
                (λ ne f. elim t [
                  | inl e ↦ ne (omega arith)
                  | inr (e, o, l) ↦ elim first [
                    | inl g ↦ g (omega arith)
                    | inr (z, none) ↦ omega (arith, rw none at o)
                  ]
                ])
                i.consumes;
        };
        holds = h.holds;
      }

  pub Enqueue-Holds :
      {q q' : MpmcQueue A} {p p' : Producer A} {c : Consumer A} {l items : List A}
      → Enqueue q p l q' p'
      → Holds max_nodes q p c items
      → Holds max_nodes q' p' c (items ++ l)
  Enqueue-Holds (Enqueue.refuse x z) h = rw append-nil (load-Holds h refl h.inv.tail tt)
  Enqueue-Holds {q} (Enqueue.load_free x ne) h =
      rw append-nil
        (load-Holds h refl h.inv.tail (Chain-first q.next q.free_list h.free h.inv.free_nodes ne))
  Enqueue-Holds (Enqueue.refuse_again z) h = rw append-nil (load-Holds h refl h.inv.tail tt)
  Enqueue-Holds {q} (Enqueue.load_free_again ne) h =
      rw append-nil
        (load-Holds h refl h.inv.tail (Chain-first q.next q.free_list h.free h.inv.free_nodes ne))
  Enqueue-Holds Enqueue.load_next h =
      rw append-nil (load-Holds h refl h.inv.tail (h.inv.produces, refl))
  Enqueue-Holds (Enqueue.pop e) h =
      let (free, i) = pop-Inv h.free h.inv e in
      rw append-nil
        (record { before = h.before; last = h.last; free = free; inv = i; holds = h.holds })
  Enqueue-Holds Enqueue.pop_again h = rw append-nil (load-Holds h refl h.inv.tail tt)
  Enqueue-Holds Enqueue.write h = rw append-nil (write-Holds h)
  Enqueue-Holds Enqueue.clear h = rw append-nil (clear-Holds h)
  Enqueue-Holds Enqueue.load_tail h =
      let (ne, f) = h.inv.produces in rw append-nil (load-Holds h refl h.inv.tail (ne, f, refl))
  Enqueue-Holds {q} Enqueue.load_tail_next h =
      let (ne, f, e) = h.inv.produces in
      let ends = Chain-ends q.next q.head h.before h.last h.inv.queue in
      rw append-nil (load-Holds h refl h.inv.tail (ne, f, e, rw (← e, h.inv.tail) ends))
  Enqueue-Holds (Enqueue.check_link e z) h =
      let (ne, f, t, n) = h.inv.produces in rw append-nil (load-Holds h refl h.inv.tail (ne, f, t))
  Enqueue-Holds (Enqueue.check_help e ne) h = absurd (ne h.inv.produces.3)
  Enqueue-Holds (Enqueue.check_again ne) h =
      let (ne', f, t, n) = h.inv.produces in rw append-nil (load-Holds h refl h.inv.tail (ne', f))
  Enqueue-Holds (Enqueue.link z) h = link-Holds h
  Enqueue-Holds Enqueue.link_again h =
      let (ne, f, t) = h.inv.produces in rw append-nil (load-Holds h refl h.inv.tail (ne, f))
  Enqueue-Holds (Enqueue.help e) h = absurd (omega (arith, h.inv.produces))
  Enqueue-Holds (Enqueue.help_late e) h = absurd (omega (arith, h.inv.produces))
  Enqueue-Holds (Enqueue.swing e) h = rw append-nil (swing-Holds h e)
  Enqueue-Holds (Enqueue.swing_late ne) h =
      let (n, t) = h.inv.tail in rw append-nil (load-Holds h refl (ground (arith, t)) tt)
