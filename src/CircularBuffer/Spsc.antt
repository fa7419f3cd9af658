-- ===== src/CircularBuffer/Spsc.antt =====
-- One producer thread and one consumer thread on a `CircularBuffer`, in any interleaving of their
-- accesses to the shared indices and slots. A `try_push` (lines 50 to 66 of the source) is four
-- accesses, and so is a `try_pop` (lines 73 to 88); each thread makes one call after another.
-- Every access takes effect at once: the acquire and release orders, which make this so between the
-- two threads, are not modelled further.
pub mod Invariant
pub mod Safety
use market_data_feed_handler.Prelude.{ℕ, ◌≡◌, ◌≢◌, List, [], ◌∷◌, ◌++◌, get_or, set}
use market_data_feed_handler.CircularBuffer.{CircularBuffer, init, increment}

-- Where the producer stands in `try_push`, with the locals that are live there.
pub data Producer (A : Type 0) : Type 0 where
  idle : Producer A
  started : (item : A) (current_write : ℕ) → Producer A  -- before the load of `read_index_`
  granted : (item : A) (current_write : ℕ) → Producer A  -- before the write of the slot
  written : (item : A) (current_write : ℕ) → Producer A  -- before the store of `write_index_`

-- Where the consumer stands in `try_pop`.
pub data Consumer (A : Type 0) : Type 0 where
  idle : Consumer A
  started : (item : A) (current_read : ℕ) → Consumer A  -- before the load of `write_index_`
  granted : (item : A) (current_read : ℕ) → Consumer A  -- before the read of the slot
  taken : (item : A) (current_read : ℕ) → Consumer A  -- before the store of `read_index_`

-- The shared buffer, the two threads, and the elements that the calls have handed over so far: those
-- whose `try_push` published them, and those that `try_pop` returned.
pub record System (A : Type 0) : Type 0 where
  pub shared : CircularBuffer A
  pub producer : Producer A
  pub consumer : Consumer A
  pub pushed : List A
  pub popped : List A

-- One access of one thread.
pub data Step {A : Type 0} (capacity : ℕ) (s : System A) : System A → Type 0 where
  push_load :
      (x : A)
      → s.producer ≡ Producer.idle
      → Step capacity s (record s { producer = Producer.started x s.shared.write_index })
  push_full :
      {x : A} {w : ℕ}
      → s.producer ≡ Producer.started x w
      → increment capacity w ≡ s.shared.read_index
      → Step capacity s (record s { producer = Producer.idle })
  push_free :
      {x : A} {w : ℕ}
      → s.producer ≡ Producer.started x w
      → increment capacity w ≢ s.shared.read_index
      → Step capacity s (record s { producer = Producer.granted x w })
  push_write :
      {x : A} {w : ℕ}
      → s.producer ≡ Producer.granted x w
      → Step capacity s (record s {
        shared = record (s.shared) { buffer = set s.shared.buffer w x };
        producer = Producer.written x w;
      })
  push_publish :
      {x : A} {w : ℕ}
      → s.producer ≡ Producer.written x w
      → Step capacity s (record s {
        shared = record (s.shared) { write_index = increment capacity w };
        producer = Producer.idle;
        pushed = s.pushed ++ (x ∷ []);
      })
  pop_load :
      (item : A)
      → s.consumer ≡ Consumer.idle
      → Step capacity s (record s { consumer = Consumer.started item s.shared.read_index })
  pop_empty :
      {item : A} {r : ℕ}
      → s.consumer ≡ Consumer.started item r
      → r ≡ s.shared.write_index
      → Step capacity s (record s { consumer = Consumer.idle })
  pop_ready :
      {item : A} {r : ℕ}
      → s.consumer ≡ Consumer.started item r
      → r ≢ s.shared.write_index
      → Step capacity s (record s { consumer = Consumer.granted item r })
  pop_read :
      {item : A} {r : ℕ}
      → s.consumer ≡ Consumer.granted item r
      → Step capacity s (record s { consumer = Consumer.taken (get_or s.shared.buffer r item) r })
  pop_publish :
      {x : A} {r : ℕ}
      → s.consumer ≡ Consumer.taken x r
      → Step capacity s (record s {
        shared = record (s.shared) { read_index = increment capacity r };
        consumer = Consumer.idle;
        popped = s.popped ++ (x ∷ []);
      })

-- Both threads outside every call, on a fresh buffer.
abbrev pub start : {A : Type 0} → ℕ → List A → System A
start capacity storage = record {
  shared = init capacity storage;
  producer = Producer.idle;
  consumer = Consumer.idle;
  pushed = [];
  popped = [];
}

pub data Reach {A : Type 0} (capacity : ℕ) (storage : List A) : System A → Type 0 where
  here : Reach capacity storage (start capacity storage)
  next : {s t : System A} → Reach capacity storage s → Step capacity s t → Reach capacity storage t
