-- ===== src/CircularBuffer/Invariant.antt =====
-- What holds of every circular buffer between two calls: the indices stay inside the storage.
use native.Mathlib.Decide.{ℕ_discrete}
use native.Mathlib.Nat.{mod-eq_of_lt, mod_self}
use market_data_feed_handler.Prelude.{
  ℕ, ◌+◌, ◌-◌, ◌%◌, ◌^◌, ◌<◌, ◌≡◌, ◌∙◌, ap, true, List, arith, length, length-set, bit_and, u64,
  u64_mod,
}
use market_data_feed_handler.Prelude.Bits.{bit_and-low_mask}
use market_data_feed_handler.Core.Common.{is_power_of_2, is_power_of_2_iff}
use market_data_feed_handler.CircularBuffer.{
  CircularBuffer, init, increment, try_push, try_pop, reset,
}
use market_data_feed_handler.CircularBuffer.Window.{after}

-- The `static_assert`s on the template argument, which is a `size_t`.
pub record IsCapacity (capacity : ℕ) : Type 0 where
  pub power : is_power_of_2 capacity ≡ true
  pub fits : capacity < u64_mod

pub record IsValid {A : Type 0} (capacity : ℕ) (b : CircularBuffer A) : Type 0 where
  pub storage : length b.buffer ≡ capacity
  pub write_in : b.write_index < capacity
  pub read_in : b.read_index < capacity

mod-after : (m i : ℕ) → i < m → (i + 1) % m ≡ after m i
mod-after m i h = elim (ℕ_discrete (i + 1) m) [
  | yes e ↦ rw e (ground (arith, mod_self m))
  | no ne ↦ ground (arith, mod-eq_of_lt {n = i + 1} {m = m} (omega arith))
]

-- Under the assertions the mask of `increment` is a wrap at the capacity.
pub increment-after :
    (capacity i : ℕ) → IsCapacity capacity → i < capacity → increment capacity i ≡ after capacity i
unfolding increment
increment-after capacity i c h =
    let small : u64 (i + 1) ≡ i + 1 = omega (arith, c.fits) in
    let (k, e) = (is_power_of_2_iff capacity).0 c.power in
    ap (λ t. bit_and t (capacity - 1)) small ∙ mask k e ∙ mod-after capacity i h
  where
    mask : (k : ℕ) → capacity ≡ 2 ^ k → bit_and (i + 1) (capacity - 1) ≡ (i + 1) % capacity
    mask k e = rw e (bit_and-low_mask k (i + 1))

module _ {A : Type 0} {capacity : ℕ} (c : IsCapacity capacity) where
  -- A fresh buffer over `capacity` slots is valid.
  pub init-IsValid :
      (storage : List A) → length storage ≡ capacity → IsValid capacity (init capacity storage)
  unfolding init is_power_of_2
  init-IsValid storage h = ground (arith, c.power)

  -- `try_push` keeps the buffer valid, whether it stores or refuses.
  pub try_push-IsValid :
      {b : CircularBuffer A} (x : A)
      → IsValid capacity b
      → IsValid capacity (try_push capacity b x).1
  unfolding try_push
  try_push-IsValid {b} x v =
      ground (arith, increment-after capacity b.write_index c, length-set b.buffer b.write_index x)

  -- `try_pop` keeps the buffer valid.
  pub try_pop-IsValid :
      {b : CircularBuffer A} (item : A)
      → IsValid capacity b
      → IsValid capacity (try_pop capacity b item).2
  unfolding try_pop
  try_pop-IsValid {b} item v = ground (arith, increment-after capacity b.read_index c)

  pub reset-IsValid : {b : CircularBuffer A} → IsValid capacity b → IsValid capacity (reset b)
  unfolding reset
  reset-IsValid v = omega arith
