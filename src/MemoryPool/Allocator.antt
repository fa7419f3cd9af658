-- ===== src/MemoryPool/Allocator.antt =====
-- `PooledAllocator` of include/market_data/memory/memory_pool.hpp. An allocator is the address of its
-- pool, and a conversion between allocators keeps it.
use market_data_feed_handler.Prelude.{
  ℕ, ◌≡◌, ◌≢◌, refl, ◌⊎◌, ◌↔◌, inl, inr, Bool, false, not, Option, none, some, List, arith, ◌==◌,
  ==_ne, length, if◌then◌else◌, Bool-cases, ◌<◌,
}
use market_data_feed_handler.Chain.{occurs}
use market_data_feed_handler.MemoryPool.{MemoryPool, allocate, deallocate}
use market_data_feed_handler.MemoryPool.Invariant.{Inv, not_null}
use market_data_feed_handler.MemoryPool.Safety.{allocate_exact, allocate-deallocate}

-- The member `pool_`.
abbrev pub PooledAllocator : Type 0
PooledAllocator = ℕ

-- The conversion from an allocator of another type, which keeps the pool, and so the size of its slots.
unfoldable pub rebind : PooledAllocator → PooledAllocator
rebind other = other

-- `allocate`; `none` is `std::abort()`.
unfoldable pub allocate_objects : (n failures : ℕ) → MemoryPool → Option (ℕ × MemoryPool)
allocate_objects n failures pool =
    let (ptr, pool') = allocate failures pool in
    if not (n == 1) then none else if ptr == 0 then none else some (ptr, pool')

unfoldable pub deallocate_objects : (n failures : ℕ) → MemoryPool → ℕ → MemoryPool
deallocate_objects n failures pool ptr = deallocate failures pool ptr

unfoldable pub eq : PooledAllocator → PooledAllocator → Bool
eq pool pool' = pool == pool'

unfoldable pub ne : PooledAllocator → PooledAllocator → Bool
unfolding eq
ne pool pool' = not (eq pool pool')

-- The object given back last is the one that the next request for one object gets.
pub allocate_objects-deallocate_objects :
    {size slots : ℕ} (n failures ptr : ℕ) {p : MemoryPool} {free used : List ℕ}
    → Inv size slots p free used
    → 0 < occurs ptr used
    → (q : MemoryPool) × (allocate_objects 1 failures (deallocate_objects n failures p ptr)
        ≡ some (ptr, q))
      × (q.free_list ≡ p.free_list)
unfolding allocate_objects deallocate_objects
allocate_objects-deallocate_objects n failures ptr {p} inv held =
    let (same, list, count) = allocate-deallocate failures ptr inv held in
    let some_object : (ptr == 0) ≡ false =
      ==_ne ptr 0 (λ e. omega (arith, not_null inv, rw e at held)) in
    ((allocate failures (deallocate failures p ptr)).1, rw (same, some_object) refl, list)

-- The allocator aborts exactly when more or less than one object is asked for, or when clients hold
-- all `size_of_pool` slots.
pub allocate_objects_exact :
    {size slots : ℕ} (n failures : ℕ) {p : MemoryPool} {free used : List ℕ}
    → Inv size slots p free used
    → (allocate_objects n failures p ≡ none) ↔ ((n ≢ 1) ⊎ (length used ≡ slots))
unfolding allocate_objects
allocate_objects_exact n failures {p} {used} inv =
    let (full, out) = allocate_exact failures inv in
    elim (Bool-cases (n == 1)) [
      | inr many ↦ rw many (λ e. inl (ground arith), λ s. refl)
      | inl one ↦ elim (Bool-cases ((allocate failures p).0 == 0)) [
        | inl null ↦ rw (one, null) (λ e. inr (full.0 (ground arith)), λ s. refl)
        | inr ok ↦
            rw (one, ok)
              (
                λ e. cc,
                λ s. elim s [
                  | inl h ↦ absurd (h (ground arith))
                  | inr h ↦ absurd (ground (arith, full.1 h))
                ],
              )
      ]
    ]
