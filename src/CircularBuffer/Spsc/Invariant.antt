-- ===== src/CircularBuffer/Spsc/Invariant.antt =====
-- What every access of either thread keeps.
use market_data_feed_handler.Prelude.{
  ℕ, suc, ◌≡◌, refl, ◌≢◌, ◌∙◌, sym, ap, List, [], ◌∷◌, ◌++◌, arith, length, get_or, set,
  get_or-set_self, get_or-set_ne, get_or_default, length-set, append_assoc,
}
use market_data_feed_handler.CircularBuffer.{CircularBuffer, init, increment}
use market_data_feed_handler.CircularBuffer.Window.{span, window-suc, window-set_outside}
use market_data_feed_handler.CircularBuffer.Invariant.{
  IsCapacity, IsValid, increment-after, init-IsValid,
}
use market_data_feed_handler.CircularBuffer.Refine.{contents, contents-pop}
use market_data_feed_handler.CircularBuffer.Spsc.{
  Producer, Consumer, System, Step, push_load, push_full, push_free, push_write, push_publish,
  pop_load, pop_empty, pop_ready, pop_read, pop_publish, start,
}

-- What the producer's locals say about the buffer: its slot is the next one and not the consumer's.
abbrev pub ProducerKnows : {A : Type 0} → ℕ → A → CircularBuffer A → Producer A → Type 0
ProducerKnows capacity d b Producer.idle = Unit
ProducerKnows capacity d b (Producer.started x w) = w ≡ b.write_index
ProducerKnows capacity d b (Producer.granted x w) =
    (w ≡ b.write_index) × (increment capacity w ≢ b.read_index)
ProducerKnows capacity d b (Producer.written x w) =
    (w ≡ b.write_index) × (increment capacity w ≢ b.read_index) × (get_or b.buffer w d ≡ x)

abbrev pub ConsumerKnows : {A : Type 0} → A → CircularBuffer A → Consumer A → Type 0
ConsumerKnows d b Consumer.idle = Unit
ConsumerKnows d b (Consumer.started item r) = r ≡ b.read_index
ConsumerKnows d b (Consumer.granted item r) = (r ≡ b.read_index) × (r ≢ b.write_index)
ConsumerKnows d b (Consumer.taken x r) =
    (r ≡ b.read_index) × (r ≢ b.write_index) × (get_or b.buffer r d ≡ x)

pub record Inv {A : Type 0} (capacity : ℕ) (d : A) (s : System A) : Type 0 where
  pub valid : IsValid capacity s.shared
  pub fifo : s.pushed ≡ s.popped ++ contents capacity d s.shared
  pub produces : ProducerKnows capacity d s.shared s.producer
  pub consumes : ConsumerKnows d s.shared s.consumer

module _ {A : Type 0} {capacity : ℕ} (c : IsCapacity capacity) (d : A) where
  pub Inv-start :
      (storage : List A) → length storage ≡ capacity → Inv capacity d (start capacity storage)
  unfolding init
  Inv-start storage h = record {
    valid = init-IsValid c storage h;
    fifo = refl;
    produces = tt;
    consumes = tt;
  }

  module _ {s : System A} (inv : Inv capacity d s) where
    open inv use {valid, fifo, produces, consumes}

    -- What the invariant says of a thread whose place is known.
    pub produces_at : {p : Producer A} → s.producer ≡ p → ProducerKnows capacity d s.shared p
    produces_at e = rw e at produces

    pub consumes_at : {p : Consumer A} → s.consumer ≡ p → ConsumerKnows d s.shared p
    consumes_at e = rw e at consumes

  -- The accesses that change the buffer, on the buffer alone. `w` and `r` are the threads' locals.
  module _ {b : CircularBuffer A} (v : IsValid capacity b) where
    -- The producer's write is outside the contents.
    contents-write :
        (x : A) {w : ℕ}
        → w ≡ b.write_index
        → contents capacity d (record b { buffer = set b.buffer w x }) ≡ contents capacity d b
    contents-write x e = rw e (
        window-set_outside capacity d b.buffer b.read_index _ b.write_index x v.read_in v.write_in
          refl)

    -- The store of `write_index_` appends the element in the producer's slot.
    contents-publish :
        (x : A) {w : ℕ}
        → w ≡ b.write_index
        → increment capacity w ≢ b.read_index
        → get_or b.buffer w d ≡ x
        → contents capacity d (record b { write_index = increment capacity w })
          ≡ contents capacity d b ++ (x ∷ [])
    contents-publish x {w} e ne stored =
        let step = increment-after capacity w c (omega arith) in
        let n : span capacity b.read_index (increment capacity w)
            ≡ suc (span capacity b.read_index b.write_index) =
          ground (arith, step) in
        rw (n, ← stored, e)
          (window-suc capacity d b.buffer b.read_index _ b.write_index v.read_in v.write_in refl)

    -- The store of `read_index_` drops the element that the consumer has read.
    contents-release :
        (x : A) {r : ℕ}
        → r ≡ b.read_index
        → r ≢ b.write_index
        → get_or b.buffer r d ≡ x
        → contents capacity d b
          ≡ x ∷ contents capacity d (record b { read_index = increment capacity r })
    contents-release x e ne stored = rw (← stored, e) (contents-pop c d d v (omega arith))

    write-IsValid : (x : A) (w : ℕ) → IsValid capacity (record b { buffer = set b.buffer w x })
    write-IsValid x w = omega (arith, length-set b.buffer w x)

    publish-IsValid :
        {w : ℕ}
        → w ≡ b.write_index
        → IsValid capacity (record b { write_index = increment capacity w })
    publish-IsValid {w} e = ground (arith, increment-after capacity w c)

    release-IsValid :
        {r : ℕ}
        → r ≡ b.read_index
        → IsValid capacity (record b { read_index = increment capacity r })
    release-IsValid {r} e = ground (arith, increment-after capacity r c)

    -- Two different indices have different successors.
    apart :
        {w r : ℕ}
        → w ≡ b.write_index
        → r ≡ b.read_index
        → r ≢ b.write_index
        → increment capacity w ≢ increment capacity r
    apart {w} {r} e f ne =
        ground (arith, increment-after capacity w c, increment-after capacity r c)

    write-Knows :
        (x : A) {w : ℕ} (p : Consumer A)
        → w ≡ b.write_index
        → ConsumerKnows d b p
        → ConsumerKnows d (record b { buffer = set b.buffer w x }) p
    write-Knows x Consumer.idle e k = tt
    write-Knows x (Consumer.started item r) e k = k
    write-Knows x (Consumer.granted item r) e k = k
    write-Knows x {w} (Consumer.taken y r) e k =
        (k.0, k.1, get_or-set_ne b.buffer w r x d (omega arith) ∙ k.2)

    publish-Knows :
        (w : ℕ) (p : Consumer A)
        → increment capacity w ≢ b.read_index
        → ConsumerKnows d b p
        → ConsumerKnows d (record b { write_index = increment capacity w }) p
    publish-Knows w Consumer.idle e k = tt
    publish-Knows w (Consumer.started item r) e k = k
    publish-Knows w (Consumer.granted item r) e k = (k.0, omega arith)
    publish-Knows w (Consumer.taken y r) e k = (k.0, omega arith, k.2)

    release-Knows :
        {r : ℕ} (p : Producer A)
        → r ≡ b.read_index
        → r ≢ b.write_index
        → ProducerKnows capacity d b p
        → ProducerKnows capacity d (record b { read_index = increment capacity r }) p
    release-Knows Producer.idle e ne k = tt
    release-Knows (Producer.started item w) e ne k = k
    release-Knows {r} (Producer.granted item w) e ne k = (k.0, apart k.0 e ne)
    release-Knows {r} (Producer.written item w) e ne k = (k.0, apart k.0 e ne, k.2)

  pub Step-Inv : {s t : System A} → Step capacity s t → Inv capacity d s → Inv capacity d t
  Step-Inv (push_load x e) inv = record {
    valid = inv.valid;
    fifo = inv.fifo;
    produces = refl;
    consumes = inv.consumes;
  }
  Step-Inv (push_full e g) inv = record {
    valid = inv.valid;
    fifo = inv.fifo;
    produces = tt;
    consumes = inv.consumes;
  }
  Step-Inv (push_free e g) inv = record {
    valid = inv.valid;
    fifo = inv.fifo;
    produces = (produces_at inv e, g);
    consumes = inv.consumes;
  }
  Step-Inv {s} (push_write {x} {w} e) inv =
      let (own, free) = produces_at inv e in
      record {
        valid = write-IsValid inv.valid x w;
        fifo = inv.fifo ∙ ap (λ q. s.popped ++ q) (sym (contents-write inv.valid x own));
        produces = (
          own,
          free,
          get_or-set_self s.shared.buffer w x d
              (omega (arith, inv.valid.storage, inv.valid.write_in)),
        );
        consumes = write-Knows inv.valid x s.consumer own inv.consumes;
      }
  Step-Inv {s} (push_publish {x} {w} e) inv =
      let (own, free, stored) = produces_at inv e in
      record {
        valid = publish-IsValid inv.valid own;
        fifo =
            ap (λ t. t ++ (x ∷ [])) inv.fifo
            ∙ append_assoc s.popped (contents capacity d s.shared) (x ∷ [])
            ∙ ap (λ q. s.popped ++ q) (sym (contents-publish inv.valid x own free stored));
        produces = tt;
        consumes = publish-Knows inv.valid w s.consumer free inv.consumes;
      }
  Step-Inv (pop_load item e) inv = record {
    valid = inv.valid;
    fifo = inv.fifo;
    produces = inv.produces;
    consumes = refl;
  }
  Step-Inv (pop_empty e g) inv = record {
    valid = inv.valid;
    fifo = inv.fifo;
    produces = inv.produces;
    consumes = tt;
  }
  Step-Inv (pop_ready e g) inv = record {
    valid = inv.valid;
    fifo = inv.fifo;
    produces = inv.produces;
    consumes = (consumes_at inv e, g);
  }
  Step-Inv {s} (pop_read {item} {r} e) inv =
      let (own, some_left) = consumes_at inv e in
      record {
        valid = inv.valid;
        fifo = inv.fifo;
        produces = inv.produces;
        consumes = (
          own,
          some_left,
          get_or_default s.shared.buffer r d item
              (omega (arith, inv.valid.storage, inv.valid.read_in)),
        );
      }
  Step-Inv {s} (pop_publish {x} {r} e) inv =
      let (own, some_left, read) = consumes_at inv e in
      record {
        valid = release-IsValid inv.valid own;
        fifo =
            inv.fifo
            ∙ ap (λ q. s.popped ++ q) (contents-release inv.valid x own some_left read)
            ∙ sym (append_assoc s.popped (x ∷ []) _);
        produces = release-Knows inv.valid s.producer own some_left inv.produces;
        consumes = tt;
      }
