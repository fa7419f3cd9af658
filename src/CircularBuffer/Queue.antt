-- ===== src/CircularBuffer/Queue.antt =====
-- What a circular buffer promises: a queue, oldest first, with one element less than the capacity.
use market_data_feed_handler.Prelude.{
  ℕ, ◌+◌, Bool, true, false, List, [], ◌∷◌, ◌++◌, ◌==◌, if◌then◌else◌, length,
}

abbrev pub Queue : Type 0 → Type 0
Queue A = List A

-- What a client can call.
pub data Op (A : Type 0) : Type 0 where
  put : A → Op A
  take : A → Op A
  look : A → Op A
  ask_size ask_empty ask_full clear : Op A

-- What it sees of a call.
pub data Reply (A : Type 0) : Type 0 where
  done : Bool → Reply A
  got : Bool → A → Reply A
  count : ℕ → Reply A

-- A full queue refuses.
unfoldable pub push : {A : Type 0} → ℕ → Queue A → A → Bool × Queue A
push capacity q x = if length q + 1 == capacity then (false, q) else (true, q ++ (x ∷ []))

module _ {A : Type 0} where
  -- An empty queue leaves the caller's `item` as it is.
  unfoldable pub pop : Queue A → A → Bool × A × Queue A
  pop [] item = (false, item, [])
  pop (x ∷ q) item = (true, x, q)

  unfoldable pub peek : Queue A → A → Bool × A
  peek [] item = (false, item)
  peek (x ∷ q) item = (true, x)

module _ {A : Type 0} (capacity : ℕ) where
  unfoldable pub step : Queue A → Op A → Reply A × Queue A
  unfolding push pop peek
  step q (put x) = let (ok, q') = push capacity q x in (done ok, q')
  step q (take item) = let (ok, out, q') = pop q item in (got ok out, q')
  step q (look item) = let (ok, out) = peek q item in (got ok out, q)
  step q ask_size = (count (length q), q)
  step q ask_empty = (done (length q == 0), q)
  step q ask_full = (done (length q + 1 == capacity), q)
  step q clear = (done true, [])

  unfoldable pub run : Queue A → List (Op A) → List (Reply A)
  unfolding step
  run q [] = []
  run q (op ∷ ops) = let (reply, q') = step q op in reply ∷ run q' ops
