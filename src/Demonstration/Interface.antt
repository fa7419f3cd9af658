-- ===== src/Demonstration/Interface.antt =====
-- What the client relies on, and what it prints then.
use market_data_feed_handler.Prelude.{
  ℕ, zero, suc, ◌+◌, ◌<◌, ◌≡◌, refl, ◌∙◌, ap, true, false, some, [], ◌∷◌, ◌++◌, ◌==◌, arith, length,
  length-append,
}
use market_data_feed_handler.Prelude.Int.{ℤ, pos}
use market_data_feed_handler.CircularBuffer.Queue
use market_data_feed_handler.CircularBuffer.Queue.{Queue}
use market_data_feed_handler.Demonstration.{Calls, push_loop, pop_loop, demonstrate}

-- The calls are those of a bounded queue with room for `capacity - 1` numbers. A state that holds
-- some numbers answers as the queue of them does.
pub record IsBoundedQueue {S : Type 0} (calls : Calls S) (capacity : ℕ) : Type 1 where
  pub Holds : S → Queue ℤ → Type 0
  pub push_law :
      {s : S} {items : Queue ℤ} (item : ℤ)
      → Holds s items
      → let (ok, items') = Queue.push capacity items item in
        (s' : S) × (calls.push s item ≡ some (ok, s')) × Holds s' items'
  pub pop_law :
      {s : S} {items : Queue ℤ} (item : ℤ)
      → Holds s items
      → let (ok, out, items') = Queue.pop items item in
        (s' : S) × (calls.pop s item ≡ some (ok, out, s')) × Holds s' items'
  pub size_law : {s : S} {items : Queue ℤ} → Holds s items → calls.size s ≡ length items
  pub empty_law : {s : S} {items : Queue ℤ} → Holds s items → calls.empty s ≡ (length items == 0)

module _ {S : Type 0} {calls : Calls S} {capacity : ℕ} (laws : IsBoundedQueue calls capacity) where
  push_accepted :
      {s : S} {items : Queue ℤ} (item : ℤ)
      → laws.Holds s items
      → length items + 1 < capacity
      → (s' : S) × (calls.push s item ≡ some (true, s')) × laws.Holds s' (items ++ (item ∷ []))
  unfolding Queue.push
  push_accepted {items} item h room =
      let other : (length items + 1 == capacity) ≡ false = ground arith in
      rw other at (laws.push_law item h)

  push_loop_lem :
      (left i : ℕ) {s : S} {items : Queue ℤ}
      → laws.Holds s items
      → length items + left < capacity
      → (s' : S) × (items' : Queue ℤ) × (push_loop calls left i s ≡ some s')
        × laws.Holds s' items'
        × (length items' ≡ length items + left)
  unfolding push_loop
  push_loop_lem zero i {s} {items} h room = (s, items, refl, h, omega arith)
  push_loop_lem (suc left) i {s} {items} h room =
      let (s', e, h') = push_accepted (pos i) h (omega arith) in
      let l = length-append items (pos i ∷ []) in
      let (s'', items', f, h'', n) = push_loop_lem left (i + 1) h' (omega (arith, l)) in
      (s'', items', rw (push_loop, e) f, h'', omega (arith, n, l))

  pop_loop_lem :
      (fuel : ℕ) (value : ℤ) (count : ℕ) {s : S} (items : Queue ℤ)
      → laws.Holds s items
      → length items < fuel
      → (s' : S) × (pop_loop calls fuel value count s ≡ some (count + length items, s'))
        × laws.Holds s' []
  unfolding pop_loop Queue.pop
  pop_loop_lem zero value count items h enough = absurd (omega arith)
  pop_loop_lem (suc fuel) value count {s} [] h enough =
      let (s', e, h') = laws.pop_law value h in
      (s', rw (pop_loop, e) (ap (λ n. some (n, s')) (omega arith)), h')
  pop_loop_lem (suc fuel) value count {s} (x ∷ items) h enough =
      let (s', e, h') = laws.pop_law value h in
      let (s'', f, h'') = pop_loop_lem fuel x (count + 1) items h' (omega arith) in
      (s'', rw (pop_loop, e) (f ∙ ap (λ n. some (n, s'')) (omega arith)), h'')

  -- From a state that holds nothing, with room for `n` numbers, `n` of them are counted by `size`, and
  -- `n` are popped, after which the structure is empty.
  pub demonstrate_lem :
      (n : ℕ) (value : ℤ) {s : S}
      → laws.Holds s []
      → n < capacity
      → demonstrate calls n value s ≡ some (record { size = n; popped = n; is_empty = true })
  unfolding demonstrate
  demonstrate_lem n value {s} h room =
      let (full, items, e, h', l) = push_loop_lem n 0 h (omega arith) in
      let m : length items ≡ n = omega (arith, l) in
      let z : 0 + n ≡ n = omega arith in
      let (last, f, h'') = pop_loop_lem (n + 1) value 0 items h' (omega (arith, l)) in
      rw (demonstrate, e, f, laws.size_law h', laws.empty_law h'', m, z) refl
