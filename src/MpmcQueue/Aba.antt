-- ===== src/MpmcQueue/Aba.antt =====
-- Several producers on the queue: the steps of one thread while the others stand still, and a node that
-- leaves the free list and comes back within another thread's pop.
pub mod Lost
use market_data_feed_handler.Prelude.{
  ℕ, ◌≡◌, refl, ◌≢◌, sym, ◌∙◌, ap, List, [], ◌∷◌, ◌++◌, arith, ==_refl, ==_ne, append-nil,
  append_assoc,
}
use market_data_feed_handler.Chain.{store}
use market_data_feed_handler.MpmcQueue.{MpmcQueue}
use market_data_feed_handler.MpmcQueue.Threads.{
  Producer, Consumer, Enqueue, Dequeue, System, enqueue, dequeue, Reach, next,
}

module _ {A : Type 0} where
  -- A thread's accesses in a row, in `try_enqueue`.
  pub data Enqueues : MpmcQueue A → Producer A → List A → MpmcQueue A → Producer A → Type 0 where
    done : {q : MpmcQueue A} {p : Producer A} → Enqueues q p [] q p
    then :
        {q r t : MpmcQueue A} {p p' p'' : Producer A} {l m : List A}
        → Enqueue q p l r p'
        → Enqueues r p' m t p''
        → Enqueues q p (l ++ m) t p''

  -- The same in `try_dequeue`.
  pub data Dequeues : MpmcQueue A → Consumer A → List A → MpmcQueue A → Consumer A → Type 0 where
    done : {q : MpmcQueue A} {c : Consumer A} → Dequeues q c [] q c
    then :
        {q r t : MpmcQueue A} {c c' c'' : Consumer A} {l m : List A}
        → Dequeue q c l r c'
        → Dequeues r c' m t c''
        → Dequeues q c (l ++ m) t c''

  -- The producer `i` has gone on, to `p`, the queue being `q`; nobody else has moved.
  pub record Produced (i : ℕ) (q : MpmcQueue A) (p : Producer A) (l : List A) (s u : System A)
      : Type 0 where
    pub queue : u.queue ≡ q
    pub stands : u.producers i ≡ p
    pub others : (j : ℕ) → i ≢ j → u.producers j ≡ s.producers j
    pub consumers : u.consumers ≡ s.consumers
    pub put : u.put ≡ s.put ++ l
    pub taken : u.taken ≡ s.taken

  -- The consumer `i` has.
  pub record Consumed (i : ℕ) (q : MpmcQueue A) (c : Consumer A) (l : List A) (s u : System A)
      : Type 0 where
    pub queue : u.queue ≡ q
    pub stands : u.consumers i ≡ c
    pub producers : u.producers ≡ s.producers
    pub put : u.put ≡ s.put
    pub taken : u.taken ≡ s.taken ++ l

  module _ {first : System A} where
    pub produce :
        {s : System A} {q : MpmcQueue A} {p p' : Producer A} {l : List A} (i : ℕ)
        → Reach first s
        → s.producers i ≡ p
        → Enqueues s.queue p l q p'
        → (u : System A) × Reach first u × Produced i q p' l s u
    produce {s} i r e done = (
      s,
      r,
      record {
        queue = refl;
        stands = e;
        others = λ j ne. refl;
        consumers = refl;
        put = sym (append-nil s.put);
        taken = refl;
      },
    )
    produce {s} i r e (then {r = q'} {p'} {l} {m} step steps) =
        let moved : System A = record s {
          queue = q';
          producers = store s.producers i p';
          put = s.put ++ l;
        } in
        let mine : Enqueue s.queue (s.producers i) l q' p' = rw e step in
        let (u, r', f) =
          produce {s = moved} i (next i r (enqueue mine)) (rw (==_refl i) refl) steps in
        (
          u,
          r',
          record {
            queue = f.queue;
            stands = f.stands;
            others = λ j ne. f.others j ne ∙ rw (==_ne i j ne) refl;
            consumers = f.consumers;
            put = f.put ∙ append_assoc s.put l m;
            taken = f.taken;
          },
        )

    pub consume :
        {s : System A} {q : MpmcQueue A} {c c' : Consumer A} {l : List A} (i : ℕ)
        → Reach first s
        → s.consumers i ≡ c
        → Dequeues s.queue c l q c'
        → (u : System A) × Reach first u × Consumed i q c' l s u
    consume {s} i r e done = (
      s,
      r,
      record {
        queue = refl;
        stands = e;
        producers = refl;
        put = refl;
        taken = sym (append-nil s.taken);
      },
    )
    consume {s} i r e (then {r = q'} {c'} {l} {m} step steps) =
        let moved : System A = record s {
          queue = q';
          consumers = store s.consumers i c';
          taken = s.taken ++ l;
        } in
        let mine : Dequeue s.queue (s.consumers i) l q' c' = rw e step in
        let (u, r', f) =
          consume {s = moved} i (next i r (dequeue mine)) (rw (==_refl i) refl) steps in
        (
          u,
          r',
          record {
            queue = f.queue;
            stands = f.stands;
            producers = f.producers;
            put = f.put;
            taken = f.taken ∙ append_assoc s.taken l m;
          },
        )

  -- The queue after `x` has been linked in the node `node` behind the tail, the free list being `rest`.
  abbrev pub linked : MpmcQueue A → A → (node rest : ℕ) → MpmcQueue A
  linked q x node rest = record q {
    tail = node;
    free_list = rest;
    next = store (store q.next node 0) q.tail node;
    data_at = store q.data_at node x;
  }

  -- The queue after its first element has been taken, and its dummy given back; `first` is the dummy
  -- of now.
  abbrev pub unlinked : MpmcQueue A → (first : ℕ) → MpmcQueue A
  unlinked q first = record q {
    head = first;
    next = store q.next q.head q.free_list;
    free_list = q.head;
  }

  -- The first two accesses of a call.
  pub pop_loaded :
      {q : MpmcQueue A} (x : A) {rest : ℕ}
      → q.free_list ≢ 0
      → q.next q.free_list ≡ rest
      → Enqueues q Producer.idle [] q (Producer.popped x q.free_list rest)
  pop_loaded {q} x ne e =
      let loaded : Enqueues q Producer.idle [] q
          (Producer.popped x q.free_list (q.next q.free_list)) =
        then (Enqueue.load_free x ne) (then Enqueue.load_next done) in
      rw e at loaded

  -- The rest of the call, where the free list has the node at its head again, or still.
  pub popped_linked :
      {q : MpmcQueue A} (x : A) {node rest : ℕ}
      → q.free_list ≡ node
      → q.next q.tail ≡ 0
      → node ≢ q.tail
      → Enqueues q (Producer.popped x node rest) (x ∷ []) (linked q x node rest) Producer.idle
  popped_linked {q} x {node} {rest} e last ne =
      let null : store q.next node 0 q.tail ≡ 0 = rw (==_ne node q.tail ne) last in
      then (Enqueue.pop e) (
        then Enqueue.write (
          then Enqueue.clear (
            then Enqueue.load_tail (
              then Enqueue.load_tail_next (
                then (Enqueue.check_link refl null)
                  (then (Enqueue.link null) (then (Enqueue.swing refl) done)))))))

  -- A whole call of `try_enqueue`.
  pub idle_linked :
      {q : MpmcQueue A} (x : A) {rest : ℕ}
      → q.free_list ≢ 0
      → q.next q.free_list ≡ rest
      → q.next q.tail ≡ 0
      → q.free_list ≢ q.tail
      → Enqueues q Producer.idle (x ∷ []) (linked q x q.free_list rest) Producer.idle
  idle_linked {q} x {rest} some e last ne =
      let popped : Enqueues q (Producer.popping x q.free_list) (x ∷ [])
          (linked q x q.free_list rest) Producer.idle =
        then Enqueue.load_next (rw e (popped_linked x refl last ne)) in
      then (Enqueue.load_free x some) popped

  -- A whole call of `try_dequeue` on a queue whose first element is `x`.
  pub idle_unlinked :
      {q : MpmcQueue A} (item : A) {x : A} {first : ℕ}
      → q.head ≢ q.tail
      → q.next q.head ≡ first
      → first ≢ 0
      → q.data_at first ≡ x
      → Dequeues q Consumer.idle (x ∷ []) (unlinked q first) Consumer.idle
  idle_unlinked {q} item {x} {first} ne e some f =
      let read : Dequeues q (Consumer.reading item q.head first) (x ∷ []) (unlinked q first)
          Consumer.idle =
        then Dequeue.read (
          rw f (
            then (Dequeue.swing refl) (
              then Dequeue.load_free (then Dequeue.store_next (then (Dequeue.push refl) done))))) in
      let looked : Dequeues q (Consumer.at_tail item q.head q.tail) (x ∷ []) (unlinked q first)
          Consumer.idle =
        then Dequeue.load_next (rw e (then (Dequeue.check_read refl ne some) read)) in
      then (Dequeue.load_head item) (then Dequeue.load_tail looked)
