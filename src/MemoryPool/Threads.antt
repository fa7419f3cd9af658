-- ===== src/MemoryPool/Threads.antt =====
-- The free list of a pool with several threads at work on it, access by access: `allocate` with
-- `pop_free_list`, and `deallocate` with `push_free_list`.
use market_data_feed_handler.Prelude.{ℕ, ◌<◌, ◌≡◌, ◌≢◌, List, [], ◌∷◌}
use market_data_feed_handler.Chain.{Links, store, occurs}
use market_data_feed_handler.MemoryPool.{MemoryPool}
use market_data_feed_handler.MemoryPool.Invariant.{erase}

-- Where a thread stands, with its locals `node`, `next` and `old_head`.
pub data Thread : Type 0 where
  idle : Thread
  pop_loaded : (node : ℕ) → Thread  -- in the loop, before the load of `node->next`
  pop_ready : (node next : ℕ) → Thread  -- before the compare-exchange
  push_loaded : (node old_head : ℕ) → Thread  -- before the store to `node->next`
  push_linked : (node old_head : ℕ) → Thread  -- before the compare-exchange

-- `held` are the objects that clients hold.
pub record System : Type 0 where
  pub free_list : ℕ
  pub links : Links
  pub threads : ℕ → Thread
  pub held : List ℕ

-- One access of the thread `t`. A weak compare-exchange may fail at any time.
pub data Step (t : ℕ) (s : System) : System → Type 0 where
  pop_none : s.threads t ≡ idle → s.free_list ≡ 0 → Step t s s
  pop_load :
      s.threads t ≡ idle
      → s.free_list ≢ 0
      → Step t s (record s { threads = store s.threads t (pop_loaded s.free_list) })
  pop_next :
      {node : ℕ}
      → s.threads t ≡ pop_loaded node
      → Step t s (record s { threads = store s.threads t (pop_ready node (s.links node)) })
  pop_swap :
      {node next : ℕ}
      → s.threads t ≡ pop_ready node next
      → s.free_list ≡ node
      → Step t s
          (record s { free_list = next; threads = store s.threads t idle; held = node ∷ s.held })
  pop_again :
      {node next : ℕ}
      → s.threads t ≡ pop_ready node next
      → s.free_list ≢ 0
      → Step t s (record s { threads = store s.threads t (pop_loaded s.free_list) })
  pop_give_up :
      {node next : ℕ}
      → s.threads t ≡ pop_ready node next
      → s.free_list ≡ 0
      → Step t s (record s { threads = store s.threads t idle })
  push_load :
      (node : ℕ)
      → s.threads t ≡ idle
      → 0 < occurs node s.held
      → Step t s (record s {
        threads = store s.threads t (push_loaded node s.free_list);
        held = erase node s.held;
      })
  push_link :
      {node old_head : ℕ}
      → s.threads t ≡ push_loaded node old_head
      → Step t s (record s {
        links = store s.links node old_head;
        threads = store s.threads t (push_linked node old_head);
      })
  push_swap :
      {node old_head : ℕ}
      → s.threads t ≡ push_linked node old_head
      → s.free_list ≡ old_head
      → Step t s (record s { free_list = node; threads = store s.threads t idle })
  push_again :
      {node old_head : ℕ}
      → s.threads t ≡ push_linked node old_head
      → Step t s (record s { threads = store s.threads t (push_loaded node s.free_list) })
  -- A client writes into an object that it holds, over the whole of it.
  write :
      (object value : ℕ)
      → 0 < occurs object s.held
      → Step t s (record s { links = store s.links object value })

-- The threads start on a pool of which no object is held.
abbrev pub start : MemoryPool → System
start p = record { free_list = p.free_list; links = p.links; threads = λ _. idle; held = [] }

pub data Reach (first : System) : System → Type 0 where
  here : Reach first first
  next : {s u : System} (t : ℕ) → Reach first s → Step t s u → Reach first u
