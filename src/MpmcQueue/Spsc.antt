-- ===== src/MpmcQueue/Spsc.antt =====
-- One producer thread and one consumer thread on the queue: what they know of it, access by access.
pub mod Nodes
pub mod Locals
pub mod Enqueues
pub mod Dequeues
pub mod Safety
mod Tests
use market_data_feed_handler.Prelude.{
  ℕ, ◌+◌, ◌≤◌, ◌≡◌, refl, ◌≢◌, ◌⊎◌, List, [], ◌∷◌, ◌++◌, arith, length, ==_refl,
}
use market_data_feed_handler.Chain.{Links, occurs, Chain}
use market_data_feed_handler.MpmcQueue.{MpmcQueue}
use market_data_feed_handler.MpmcQueue.Invariant.{elements}
use market_data_feed_handler.MpmcQueue.Threads.{Producer, Consumer, System, Step}

module _ {A : Type 0} where
  -- The node that the producer has taken from the free list and not linked yet.
  abbrev pub owned : Producer A → List ℕ
  owned (Producer.granted x node) = node ∷ []
  owned (Producer.written x node) = node ∷ []
  owned (Producer.trying x node) = node ∷ []
  owned (Producer.at_tail x node tail) = node ∷ []
  owned (Producer.at_next x node tail next) = node ∷ []
  owned (Producer.linking x node tail) = node ∷ []
  owned (Producer.helping x node tail next) = node ∷ []
  owned _ = []

  -- The node that the consumer has taken out of the queue and not given back yet.
  abbrev pub reclaimed : Consumer A → List ℕ
  reclaimed (Consumer.freeing node) = node ∷ []
  reclaimed (Consumer.storing node old_head) = node ∷ []
  reclaimed (Consumer.pushing node old_head) = node ∷ []
  reclaimed _ = []

  -- The node that the producer fills holds its element, and ends a chain.
  abbrev pub IsFilled : Links → (ℕ → A) → A → ℕ → Type 0
  IsFilled next data_at x node = (data_at node ≡ x) × (next node ≡ 0)

  -- What the producer's locals say of the queue. It never has to help.
  abbrev pub ProducerKnows : ℕ → Links → (ℕ → A) → List ℕ → Producer A → Type 0
  ProducerKnows t next data_at free (Producer.popping x node) = 1 ≤ occurs node free
  ProducerKnows t next data_at free (Producer.popped x node n) =
      (1 ≤ occurs node free) × (next node ≡ n)
  ProducerKnows t next data_at free (Producer.granted x node) = node ≢ 0
  ProducerKnows t next data_at free (Producer.written x node) = (node ≢ 0) × (data_at node ≡ x)
  ProducerKnows t next data_at free (Producer.trying x node) =
      (node ≢ 0) × IsFilled next data_at x node
  ProducerKnows t next data_at free (Producer.at_tail x node tail) =
      (node ≢ 0) × IsFilled next data_at x node × (t ≡ tail)
  ProducerKnows t next data_at free (Producer.at_next x node tail n) =
      (node ≢ 0) × IsFilled next data_at x node × (t ≡ tail) × (n ≡ 0)
  ProducerKnows t next data_at free (Producer.linking x node tail) =
      (node ≢ 0) × IsFilled next data_at x node × (t ≡ tail)
  ProducerKnows t next data_at free (Producer.helping x node tail n) = ◌≡◌ {A = ℕ} 1 0
  ProducerKnows t next data_at free _ = Unit

  -- `tail_` is the last node, except that between a link and the move of the tail it may be the node
  -- before that.
  abbrev pub TailKnows : ℕ → Links → List ℕ → ℕ → Producer A → Type 0
  TailKnows t next before last (Producer.swinging x node tail) =
      (node ≡ last) × ((t ≡ last) ⊎ ((t ≡ tail) × (1 ≤ occurs t before) × (next t ≡ last)))
  TailKnows t next before last _ = t ≡ last

  -- What the consumer's locals say of the queue, `h` and `t` being its head and tail.
  abbrev pub ConsumerKnows : ℕ → ℕ → Links → (ℕ → A) → Consumer A → Type 0
  ConsumerKnows h t next data_at (Consumer.at_head item head) = h ≡ head
  ConsumerKnows h t next data_at (Consumer.at_tail item head tail) =
      (h ≡ head) × ((h ≡ tail) ⊎ (h ≢ t))
  ConsumerKnows h t next data_at (Consumer.at_next item head tail n) =
      (h ≡ head) × ((h ≡ tail) ⊎ (h ≢ t)) × ((n ≡ 0) ⊎ (next h ≡ n))
  ConsumerKnows h t next data_at (Consumer.helping item tail n) =
      (h ≡ tail) × (n ≢ 0) × (next h ≡ n)
  ConsumerKnows h t next data_at (Consumer.reading item head n) =
      (h ≡ head) × (h ≢ t) × (n ≢ 0) × (next h ≡ n)
  ConsumerKnows h t next data_at (Consumer.swinging item head n) =
      (h ≡ head) × (h ≢ t) × (n ≢ 0) × (next h ≡ n) × (data_at n ≡ item)
  ConsumerKnows h t next data_at (Consumer.freeing node) = node ≢ 0
  ConsumerKnows h t next data_at (Consumer.storing node old_head) = node ≢ 0
  ConsumerKnows h t next data_at (Consumer.pushing node old_head) =
      (node ≢ 0) × (next node ≡ old_head)
  ConsumerKnows h t next data_at _ = Unit

  -- `before ++ (last ∷ [])` are the nodes of the queue, and `free` those of the free list.
  pub record Inv (max_nodes : ℕ) (q : MpmcQueue A) (p : Producer A) (c : Consumer A)
      (before : List ℕ) (last : ℕ) (free : List ℕ) : Type 0 where
    pub queue : Chain q.next q.head (before ++ (last ∷ []))
    pub free_nodes : Chain q.next q.free_list free
    pub once :
        (a : ℕ)
        → occurs a before + occurs a (last ∷ free) + occurs a (owned p) + occurs a (reclaimed c) ≤ 1
    pub total :
        length before + length (last ∷ free) + length (owned p) + length (reclaimed c) ≡ max_nodes
    pub tail : TailKnows q.tail q.next before last p
    pub produces : ProducerKnows q.tail q.next q.data_at free p
    pub consumes : ConsumerKnows q.head q.tail q.next q.data_at c

  -- The queue holds `items`.
  pub record Holds (max_nodes : ℕ) (q : MpmcQueue A) (p : Producer A) (c : Consumer A)
      (items : List A) : Type 0 where
    pub before : List ℕ
    pub last : ℕ
    pub free : List ℕ
    pub inv : Inv max_nodes q p c before last free
    pub holds : items ≡ elements q.data_at (before ++ (last ∷ []))

  -- What the producer 0 and the consumer 0 reach while no other thread calls.
  pub data Reach (first : System A) : System A → Type 0 where
    here : Reach first first
    next : {s u : System A} → Reach first s → Step 0 s u → Reach first u
