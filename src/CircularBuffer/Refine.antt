-- ===== src/CircularBuffer/Refine.antt =====
-- The operations of a circular buffer, against the queue of the elements that it holds.
use market_data_feed_handler.Prelude.{
  ℕ, suc, ◌+◌, ◌-◌, ◌≡◌, refl, ap, true, List, [], ◌∷◌, arith, ◌==◌, length, get_or, get_or_default,
  set, Bool-cases, inl, inr, true, ◌++◌, ◌≢◌,
}
use market_data_feed_handler.CircularBuffer.{
  CircularBuffer, increment, try_push, try_pop, try_peek, size, empty, full, reset,
}
use market_data_feed_handler.CircularBuffer.Window.{
  span, window, length-window, window_of_pos, window-set,
}
use market_data_feed_handler.CircularBuffer.Invariant.{
  IsCapacity, IsValid, increment-after, try_push-IsValid, try_pop-IsValid, reset-IsValid,
}
use market_data_feed_handler.CircularBuffer.Queue.{
  Queue, Op, put, take, look, ask_size, ask_empty, ask_full, clear, Reply, done, got, count,
}
use market_data_feed_handler.CircularBuffer.Queue

module _ {A : Type 0} (capacity : ℕ) where
  -- One call on the buffer.
  unfoldable pub step : CircularBuffer A → Op A → Reply A × CircularBuffer A
  unfolding try_push try_pop try_peek size empty full reset
  step b (put x) = let (ok, b') = try_push capacity b x in (done ok, b')
  step b (take item) = let (ok, out, b') = try_pop capacity b item in (got ok out, b')
  step b (look item) = let (ok, out) = try_peek capacity b item in (got ok out, b)
  step b ask_size = (count (size capacity b), b)
  step b ask_empty = (done (empty b), b)
  step b ask_full = (done (full capacity b), b)
  step b clear = (done true, reset b)

  -- A client's calls in order, with what it sees of each.
  unfoldable pub run : CircularBuffer A → List (Op A) → List (Reply A)
  unfolding step
  run b [] = []
  run b (op ∷ ops) = let (reply, b') = step b op in reply ∷ run b' ops

  -- The elements in the buffer, oldest first. `d` stands for a slot that is not there, and is read
  -- nowhere in a valid buffer.
  abbrev pub contents : A → CircularBuffer A → Queue A
  contents d b = window capacity d b.buffer b.read_index (span capacity b.read_index b.write_index)

  pub length-contents :
      (d : A) (b : CircularBuffer A)
      → length (contents d b) ≡ span capacity b.read_index b.write_index
  length-contents d b =
      length-window capacity d b.buffer b.read_index (span capacity b.read_index b.write_index)

module _ {A : Type 0} {capacity : ℕ} (c : IsCapacity capacity) (d : A) where
  -- The test for a full buffer, and that for an empty one, by the length of the contents.
  full-contents :
      {b : CircularBuffer A}
      → IsValid capacity b
      → (increment capacity b.write_index == b.read_index)
        ≡ (length (contents capacity d b) + 1 == capacity)
  full-contents {b} v =
      rw (increment-after capacity b.write_index c v.write_in, length-contents capacity d b)
        (ground arith)

  empty-contents :
      {b : CircularBuffer A}
      → IsValid capacity b
      → (b.read_index == b.write_index) ≡ (length (contents capacity d b) == 0)
  empty-contents {b} v = rw (length-contents capacity d b) (ground arith)

  nil_of_empty :
      {b : CircularBuffer A}
      → IsValid capacity b
      → (b.read_index == b.write_index) ≡ true
      → contents capacity d b ≡ []
  nil_of_empty {b} v h =
      let e : b.read_index ≡ b.write_index = ground arith in
      let n : span capacity b.read_index b.write_index ≡ 0 = ground arith in rw n

  -- A successful `try_push` appends the element.
  pub contents-push :
      {b : CircularBuffer A} (x : A)
      → IsValid capacity b
      → increment capacity b.write_index ≢ b.read_index
      → contents capacity d (record b {
        buffer = set b.buffer b.write_index x;
        write_index = increment capacity b.write_index;
      })
        ≡ contents capacity d b ++ (x ∷ [])
  contents-push {b} x v ne =
      let e = increment-after capacity b.write_index c v.write_in in
      let n : span capacity b.read_index (increment capacity b.write_index)
          ≡ suc (span capacity b.read_index b.write_index) =
        ground (arith, e) in
      rw n (
        window-set capacity d b.buffer b.read_index _ b.write_index x v.storage v.read_in v.write_in
          refl)

  -- The contents of a buffer that is not empty: the element at `read_index` is the oldest.
  pub contents-pop :
      {b : CircularBuffer A} (item : A)
      → IsValid capacity b
      → b.read_index ≢ b.write_index
      → contents capacity d b
        ≡ get_or b.buffer b.read_index item
          ∷ contents capacity d (record b { read_index = increment capacity b.read_index })
  contents-pop {b} item v ne =
      let e = increment-after capacity b.read_index c v.read_in in
      let n : span capacity (increment capacity b.read_index) b.write_index
          ≡ span capacity b.read_index b.write_index - 1 =
        ground (arith, e) in
      rw (n, e, get_or_default b.buffer b.read_index item d (omega arith))
        (window_of_pos capacity d b.buffer b.read_index (span capacity b.read_index b.write_index)
          (ground arith))

  -- `try_push` returns what the bounded queue returns, and leaves the buffer holding its queue.
  pub try_push_refines :
      {b : CircularBuffer A} (x : A)
      → IsValid capacity b
      → let (ok, b') = try_push capacity b x in
        (ok, contents capacity d b') ≡ Queue.push capacity (contents capacity d b) x
  unfolding try_push Queue.push
  try_push_refines {b} x v =
      rw (← full-contents v) (elim (Bool-cases (increment capacity b.write_index == b.read_index)) [
        | inl h ↦ rw h
        | inr h ↦ rw h (ap (λ q. (true, q)) (contents-push x v (ground arith)))
      ])

  -- `try_pop` returns what the queue returns, with the oldest element in `item`.
  pub try_pop_refines :
      {b : CircularBuffer A} (item : A)
      → IsValid capacity b
      → let (ok, out, b') = try_pop capacity b item in
        (ok, out, contents capacity d b') ≡ Queue.pop (contents capacity d b) item
  unfolding try_pop
  try_pop_refines {b} item v = elim (Bool-cases (b.read_index == b.write_index)) [
    | inl h ↦ rw (h, nil_of_empty v h) (unfold Queue.pop in refl)
    | inr h ↦ rw (h, contents-pop item v (ground arith)) (unfold Queue.pop in refl)
  ]

  pub try_peek_refines :
      {b : CircularBuffer A} (item : A)
      → IsValid capacity b
      → try_peek capacity b item ≡ Queue.peek (contents capacity d b) item
  unfolding try_peek
  try_peek_refines {b} item v = elim (Bool-cases (b.read_index == b.write_index)) [
    | inl h ↦ rw (h, nil_of_empty v h) (unfold Queue.peek in refl)
    | inr h ↦ rw (h, contents-pop item v (ground arith)) (unfold Queue.peek in refl)
  ]

  -- `size`, `empty` and `full` of a valid buffer, in terms of the length of the queue.
  pub size_refines :
      {b : CircularBuffer A}
      → IsValid capacity b
      → (size capacity b ≡ length (contents capacity d b))
        × (empty b ≡ (length (contents capacity d b) == 0))
        × (full capacity b ≡ (length (contents capacity d b) + 1 == capacity))
  unfolding size empty full
  size_refines {b} v = (
    rw (length-contents capacity d b) (ground (arith, c.fits)),
    empty-contents v,
    full-contents v,
  )

  -- Every call on a valid buffer answers as the bounded queue of the contents does, and leaves the
  -- contents of the new queue.
  pub step_refines :
      {b : CircularBuffer A} (op : Op A)
      → IsValid capacity b
      → let (reply, b') = step capacity b op in
        (reply, contents capacity d b') ≡ Queue.step capacity (contents capacity d b) op
  unfolding step Queue.step
  step_refines (put x) v = let e = try_push_refines x v in λ i. (done (e i).0, (e i).1)
  step_refines (take item) v = let e = try_pop_refines item v in λ i. (got (e i).0 (e i).1, (e i).2)
  step_refines {b} (look item) v =
      let e = try_peek_refines item v in λ i. (got (e i).0 (e i).1, contents capacity d b)
  step_refines {b} ask_size v = ap (λ n. (count n, contents capacity d b)) (size_refines v).0
  step_refines {b} ask_empty v = ap (λ t. (done t, contents capacity d b)) (size_refines v).1
  step_refines {b} ask_full v = ap (λ t. (done t, contents capacity d b)) (size_refines v).2
  step_refines clear v = unfold reset in refl

  pub step-IsValid :
      {b : CircularBuffer A} (op : Op A)
      → IsValid capacity b
      → IsValid capacity (step capacity b op).1
  unfolding step
  step-IsValid (put x) v = try_push-IsValid c x v
  step-IsValid (take item) v = try_pop-IsValid c item v
  step-IsValid clear v = reset-IsValid c v
  step-IsValid _ v = v

  -- No sequence of calls tells a valid buffer from the bounded queue of its contents.
  pub run_refines :
      (ops : List (Op A)) {b : CircularBuffer A}
      → IsValid capacity b
      → run capacity b ops ≡ Queue.run capacity (contents capacity d b) ops
  unfolding run Queue.run
  run_refines [] v = refl
  run_refines (op ∷ ops) v = rw (run_refines ops (step-IsValid op v), ← step_refines op v)
