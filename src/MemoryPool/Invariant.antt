-- ===== src/MemoryPool/Invariant.antt =====
-- The free list of a pool, against the multiset of its slots.
use market_data_feed_handler.Prelude.{
  ℕ, zero, suc, ◌+◌, ◌*◌, ◌≤◌, ◌<◌, ◌≡◌, refl, ◌≢◌, ap, true, List, [], ◌∷◌, arith, ◌==◌, ==_ne,
  if◌then◌else◌, length,
}
use market_data_feed_handler.Chain.{store, occurs, Chain, Chain-store, Chain-cons, walk-length}
use market_data_feed_handler.MemoryPool.{
  MemoryPool, slot_size, push_free_list, pop_free_list, available,
}

-- The first `n` slots from `base` on, the last in front.
abbrev pub slots : ℕ → ℕ → ℕ → List ℕ
slots base step zero = []
slots base step (suc n) = (base + n * step) ∷ slots base step n

-- A list without the first occurrence of an address.
abbrev pub erase : ℕ → List ℕ → List ℕ
erase a [] = []
erase a (x ∷ xs) = if x == a then xs else x ∷ erase a xs

-- `free` is what the free list links, and `used` what clients hold: together they are the `n` slots.
pub record Inv (size n : ℕ) (p : MemoryPool) (free used : List ℕ) : Type 0 where
  pub chain : Chain p.links p.free_list free
  pub whole : (a : ℕ) → occurs a free + occurs a used ≡ occurs a (slots p.memory (slot_size size) n)
  pub sized : length free + length used ≡ n
  pub based : 0 < p.memory
  pub spaced : 0 < slot_size size

module _ (base step : ℕ) (pos : 0 < step) where
  pub occurs-slots_above : (n a : ℕ) → base + n * step ≤ a → occurs a (slots base step n) ≡ 0
  occurs-slots_above zero a h = refl
  occurs-slots_above (suc n) a h =
      let ne : base + n * step ≢ a = omega arith in
      rw (==_ne (base + n * step) a ne) (omega (arith, occurs-slots_above n a (omega arith)))

  -- The slots are distinct.
  pub occurs-slots_le : (n a : ℕ) → occurs a (slots base step n) ≤ 1
  occurs-slots_le zero a = omega arith
  occurs-slots_le (suc n) a =
      ground (arith, occurs-slots_above n (base + n * step), occurs-slots_le n a)

  -- None of them is null.
  pub occurs-slots_zero : 0 < base → (n : ℕ) → occurs 0 (slots base step n) ≡ 0
  occurs-slots_zero b zero = refl
  occurs-slots_zero b (suc n) =
      rw (==_ne (base + n * step) 0 (omega arith)) (omega (arith, occurs-slots_zero b n))

pub length-slots : (base step n : ℕ) → length (slots base step n) ≡ n
length-slots base step zero = refl
length-slots base step (suc n) = ap suc (length-slots base step n)

-- `push_free_list` puts a node in front, however often its compare-exchange fails without cause.
pub push_free_list-Chain :
    (failures node : ℕ) (p : MemoryPool) (free : List ℕ)
    → node ≢ 0
    → occurs node free ≡ 0
    → Chain p.links p.free_list free
    → let q = push_free_list failures p node in
      Chain q.links q.free_list (node ∷ free) × (q.memory ≡ p.memory) × (q.free_list ≡ node)
unfolding push_free_list
push_free_list-Chain zero node p free ne out c =
    (Chain-cons p.links p.free_list free node ne out c, refl, refl)
push_free_list-Chain (suc failures) node p free ne out c =
    push_free_list-Chain failures node (record p { links = store p.links node p.free_list }) free ne
      out (Chain-store p.links p.free_list free node p.free_list out c)

-- `pop_free_list` takes the front node, however often its compare-exchange fails without cause.
pub pop_free_list-nil :
    (failures : ℕ) (p : MemoryPool) → p.free_list ≡ 0 → pop_free_list failures p ≡ (0, p)
unfolding pop_free_list
pop_free_list-nil zero p e = let t : (p.free_list == 0) ≡ true = ground arith in rw t
pop_free_list-nil (suc failures) p e = let t : (p.free_list == 0) ≡ true = ground arith in rw t

pub pop_free_list-cons :
    (failures : ℕ) (p : MemoryPool)
    → p.free_list ≢ 0
    → pop_free_list failures p ≡ (p.free_list, record p { free_list = p.links p.free_list })
unfolding pop_free_list
pop_free_list-cons zero p ne = rw (==_ne p.free_list 0 ne)
pop_free_list-cons (suc failures) p ne =
    rw (==_ne p.free_list 0 ne) (pop_free_list-cons failures p ne)

module _ {size n : ℕ} {p : MemoryPool} {free used : List ℕ} (inv : Inv size n p free used) where
  -- Every held or free address is held or free once, and is not null.
  pub once : (a : ℕ) → occurs a free + occurs a used ≤ 1
  once a = omega (arith, inv.whole a, occurs-slots_le p.memory (slot_size size) inv.spaced n a)

  pub not_null : occurs 0 free + occurs 0 used ≡ 0
  not_null =
      omega (arith, inv.whole 0, occurs-slots_zero p.memory (slot_size size) inv.spaced inv.based n)

  -- `available` is the number of free slots.
  pub available-length : available n p ≡ length free
  unfolding available
  available-length = walk-length p.links n p.free_list free inv.chain (omega (arith, inv.sized))
