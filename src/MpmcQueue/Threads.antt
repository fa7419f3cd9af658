-- ===== src/MpmcQueue/Threads.antt =====
-- `try_enqueue` and `try_dequeue` of include/market_data/lockfree/mpmc_queue.hpp, access by access, for
-- any number of threads in any interleaving. A step is one access to what the threads share, with
-- the local test of what it read. The back-off between attempts changes nothing.
use market_data_feed_handler.Prelude.{ℕ, ◌≡◌, ◌≢◌, List, [], ◌∷◌, ◌++◌}
use market_data_feed_handler.Chain.{store}
use market_data_feed_handler.MpmcQueue.{MpmcQueue, create}

-- Where a thread stands in `try_enqueue x`, with its locals. `node` is the new node.
pub data Producer (A : Type 0) : Type 0 where
  idle : Producer A
  again : (x : A) → Producer A  -- before the load of `free_list_`, in a later round
  popping : (x : A) (node : ℕ) → Producer A  -- before the load of `node->next`
  popped : (x : A) (node next : ℕ) → Producer A  -- before the exchange of `free_list_`
  granted : (x : A) (node : ℕ) → Producer A  -- before the write of `node->data`
  written : (x : A) (node : ℕ) → Producer A  -- before the store of null to `node->next`
  trying : (x : A) (node : ℕ) → Producer A  -- before the load of `tail_`
  at_tail : (x : A) (node tail : ℕ) → Producer A  -- before the load of `tail->next`
  at_next : (x : A) (node tail next : ℕ) → Producer A  -- before the second load of `tail_`
  linking : (x : A) (node tail : ℕ) → Producer A  -- before the exchange of `tail->next`
  helping : (x : A) (node tail next : ℕ) → Producer A  -- before that of `tail_`, by a helper
  swinging : (x : A) (node tail : ℕ) → Producer A  -- before that of `tail_`, after a link

-- Where a thread stands in `try_dequeue item`.
pub data Consumer (A : Type 0) : Type 0 where
  idle : Consumer A
  at_head : (item : A) (head : ℕ) → Consumer A  -- before the load of `tail_`
  at_tail : (item : A) (head tail : ℕ) → Consumer A  -- before the load of `head->next`
  at_next : (item : A) (head tail next : ℕ) → Consumer A  -- before the second load of `head_`
  helping : (item : A) (tail next : ℕ) → Consumer A  -- before the exchange of `tail_`
  reading : (item : A) (head next : ℕ) → Consumer A  -- before the read of `next->data`
  swinging : (item : A) (head next : ℕ) → Consumer A  -- before the exchange of `head_`
  again : (item : A) → Consumer A  -- before the load of `head_`, in a later round
  freeing : (node : ℕ) → Consumer A  -- in `reclaim_node`, before the load of `free_list_`
  storing : (node old_head : ℕ) → Consumer A  -- before the store to `node->next`
  pushing : (node old_head : ℕ) → Consumer A  -- before the exchange of `free_list_`

module _ {A : Type 0} where
  -- One access of a thread in `try_enqueue`; the list is what it has put into the queue. A weak
  -- exchange may fail at any time, a strong one only where it finds another value.
  pub data Enqueue (q : MpmcQueue A) : Producer A → List A → MpmcQueue A → Producer A → Type 0 where
    refuse : (x : A) → q.free_list ≡ 0 → Enqueue q Producer.idle [] q Producer.idle
    load_free :
        (x : A) → q.free_list ≢ 0 → Enqueue q Producer.idle [] q (Producer.popping x q.free_list)
    refuse_again : {x : A} → q.free_list ≡ 0 → Enqueue q (Producer.again x) [] q Producer.idle
    load_free_again :
        {x : A}
        → q.free_list ≢ 0
        → Enqueue q (Producer.again x) [] q (Producer.popping x q.free_list)
    load_next :
        {x : A} {node : ℕ}
        → Enqueue q (Producer.popping x node) [] q (Producer.popped x node (q.next node))
    pop :
        {x : A} {node next : ℕ}
        → q.free_list ≡ node
        → Enqueue q
            (Producer.popped x node next)
            []
            (record q { free_list = next })
            (Producer.granted x node)
    pop_again :
        {x : A} {node next : ℕ} → Enqueue q (Producer.popped x node next) [] q (Producer.again x)
    write :
        {x : A} {node : ℕ}
        → Enqueue q
            (Producer.granted x node)
            []
            (record q { data_at = store q.data_at node x })
            (Producer.written x node)
    clear :
        {x : A} {node : ℕ}
        → Enqueue q
            (Producer.written x node)
            []
            (record q { next = store q.next node 0 })
            (Producer.trying x node)
    load_tail :
        {x : A} {node : ℕ}
        → Enqueue q (Producer.trying x node) [] q (Producer.at_tail x node q.tail)
    load_tail_next :
        {x : A} {node tail : ℕ}
        → Enqueue q (Producer.at_tail x node tail) [] q (Producer.at_next x node tail (q.next tail))
    check_link :
        {x : A} {node tail next : ℕ}
        → q.tail ≡ tail
        → next ≡ 0
        → Enqueue q (Producer.at_next x node tail next) [] q (Producer.linking x node tail)
    check_help :
        {x : A} {node tail next : ℕ}
        → q.tail ≡ tail
        → next ≢ 0
        → Enqueue q (Producer.at_next x node tail next) [] q (Producer.helping x node tail next)
    check_again :
        {x : A} {node tail next : ℕ}
        → q.tail ≢ tail
        → Enqueue q (Producer.at_next x node tail next) [] q (Producer.trying x node)
    link :
        {x : A} {node tail : ℕ}
        → q.next tail ≡ 0
        → Enqueue q
            (Producer.linking x node tail)
            (x ∷ [])
            (record q { next = store q.next tail node })
            (Producer.swinging x node tail)
    link_again :
        {x : A} {node tail : ℕ}
        → Enqueue q (Producer.linking x node tail) [] q (Producer.trying x node)
    help :
        {x : A} {node tail next : ℕ}
        → q.tail ≡ tail
        → Enqueue q
            (Producer.helping x node tail next)
            []
            (record q { tail = next })
            (Producer.trying x node)
    help_late :
        {x : A} {node tail next : ℕ}
        → q.tail ≢ tail
        → Enqueue q (Producer.helping x node tail next) [] q (Producer.trying x node)
    swing :
        {x : A} {node tail : ℕ}
        → q.tail ≡ tail
        → Enqueue q (Producer.swinging x node tail) [] (record q { tail = node }) Producer.idle
    swing_late :
        {x : A} {node tail : ℕ}
        → q.tail ≢ tail
        → Enqueue q (Producer.swinging x node tail) [] q Producer.idle

  -- One access of a thread in `try_dequeue`; the list is what it has taken out of the queue.
  pub data Dequeue (q : MpmcQueue A) : Consumer A → List A → MpmcQueue A → Consumer A → Type 0 where
    load_head : (item : A) → Dequeue q Consumer.idle [] q (Consumer.at_head item q.head)
    load_head_again :
        {item : A} → Dequeue q (Consumer.again item) [] q (Consumer.at_head item q.head)
    load_tail :
        {item : A} {head : ℕ}
        → Dequeue q (Consumer.at_head item head) [] q (Consumer.at_tail item head q.tail)
    load_next :
        {item : A} {head tail : ℕ}
        → Dequeue q
            (Consumer.at_tail item head tail)
            []
            q
            (Consumer.at_next item head tail (q.next head))
    check_moved :
        {item : A} {head tail next : ℕ}
        → q.head ≢ head
        → Dequeue q (Consumer.at_next item head tail next) [] q (Consumer.again item)
    check_empty :
        {item : A} {head tail next : ℕ}
        → q.head ≡ head
        → head ≡ tail
        → next ≡ 0
        → Dequeue q (Consumer.at_next item head tail next) [] q Consumer.idle
    check_help :
        {item : A} {head tail next : ℕ}
        → q.head ≡ head
        → head ≡ tail
        → next ≢ 0
        → Dequeue q (Consumer.at_next item head tail next) [] q (Consumer.helping item tail next)
    check_wait :
        {item : A} {head tail next : ℕ}
        → q.head ≡ head
        → head ≢ tail
        → next ≡ 0
        → Dequeue q (Consumer.at_next item head tail next) [] q (Consumer.again item)
    check_read :
        {item : A} {head tail next : ℕ}
        → q.head ≡ head
        → head ≢ tail
        → next ≢ 0
        → Dequeue q (Consumer.at_next item head tail next) [] q (Consumer.reading item head next)
    help :
        {item : A} {tail next : ℕ}
        → q.tail ≡ tail
        → Dequeue q
            (Consumer.helping item tail next)
            []
            (record q { tail = next })
            (Consumer.again item)
    help_late :
        {item : A} {tail next : ℕ}
        → q.tail ≢ tail
        → Dequeue q (Consumer.helping item tail next) [] q (Consumer.again item)
    read :
        {item : A} {head next : ℕ}
        → Dequeue q
            (Consumer.reading item head next)
            []
            q
            (Consumer.swinging (q.data_at next) head next)
    swing :
        {item : A} {head next : ℕ}
        → q.head ≡ head
        → Dequeue q
            (Consumer.swinging item head next)
            (item ∷ [])
            (record q { head = next })
            (Consumer.freeing head)
    swing_again :
        {item : A} {head next : ℕ}
        → Dequeue q (Consumer.swinging item head next) [] q (Consumer.again item)
    load_free :
        {node : ℕ} → Dequeue q (Consumer.freeing node) [] q (Consumer.storing node q.free_list)
    store_next :
        {node old_head : ℕ}
        → Dequeue q
            (Consumer.storing node old_head)
            []
            (record q { next = store q.next node old_head })
            (Consumer.pushing node old_head)
    push :
        {node old_head : ℕ}
        → q.free_list ≡ old_head
        → Dequeue q
            (Consumer.pushing node old_head)
            []
            (record q { free_list = node })
            Consumer.idle
    push_again :
        {node old_head : ℕ}
        → Dequeue q (Consumer.pushing node old_head) [] q (Consumer.freeing node)

-- The queue, the threads, and what has been put in and taken out.
pub record System (A : Type 0) : Type 0 where
  pub queue : MpmcQueue A
  pub producers : ℕ → Producer A
  pub consumers : ℕ → Consumer A
  pub put : List A
  pub taken : List A

module _ {A : Type 0} where
  -- One access of the producer or the consumer `t`.
  pub data Step (t : ℕ) (s : System A) : System A → Type 0 where
    enqueue :
        {l : List A} {q : MpmcQueue A} {p : Producer A}
        → Enqueue s.queue (s.producers t) l q p
        → Step t s (record s { queue = q; producers = store s.producers t p; put = s.put ++ l })
    dequeue :
        {l : List A} {q : MpmcQueue A} {c : Consumer A}
        → Dequeue s.queue (s.consumers t) l q c
        → Step t s (record s { queue = q; consumers = store s.consumers t c; taken = s.taken ++ l })

  -- The threads start on a new queue.
  abbrev pub start : ℕ → A → System A
  start max_nodes initial = record {
    queue = create max_nodes initial;
    producers = λ _. Producer.idle;
    consumers = λ _. Consumer.idle;
    put = [];
    taken = [];
  }

  pub data Reach (first : System A) : System A → Type 0 where
    here : Reach first first
    next : {s u : System A} (t : ℕ) → Reach first s → Step t s u → Reach first u
