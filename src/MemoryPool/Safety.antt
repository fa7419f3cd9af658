-- ===== src/MemoryPool/Safety.antt =====
-- What clients of a constructed pool may rely on.
use market_data_feed_handler.Prelude.{
  ℕ, ◌+◌, ◌*◌, ◌≤◌, ◌<◌, ◌≡◌, refl, ◌≢◌, ◌∙◌, sym, Bool, Option, some, List, arith, ==_ne, length,
  u64_mod, ◌↔◌,
}
use market_data_feed_handler.Chain.{Links, occurs, Chain-head, walk-length}
use market_data_feed_handler.MemoryPool.{
  MemoryPool, slot_size, allocate, deallocate, available, construct, push_free_list,
}
use market_data_feed_handler.MemoryPool.Invariant.{
  slots, Inv, push_free_list-Chain, pop_free_list-cons, once, not_null, available-length,
}
use market_data_feed_handler.MemoryPool.Client.{
  Client, Reach, Allocated, exhausted, granted, allocate-Allocated, Reach-Safe,
}
use market_data_feed_handler.MemoryPool.Construct.{construct-Inv}

-- No block has two owners, in any sequence of calls on a constructed pool: a client's object is a
-- slot of the pool and is held once, no null pointer is held, and the free slots that `available`
-- counts and the held objects make up the `n` slots. `malloc`'s block and the pool fit the address
-- space, and `mmap` does not return null.
pub Reach-no_aliasing :
    (size n malloc failures : ℕ) (huge : Bool) (mmap : Option ℕ) (links : Links) {p : MemoryPool}
    {c : Client}
    → n * slot_size size + 64 < u64_mod
    → malloc + 64 ≤ u64_mod
    → 0 < size
    → mmap ≢ some 0
    → construct size n failures huge malloc mmap links ≡ some p
    → Reach n p c
    → (a : ℕ)
    → (occurs a c.held ≤ 1)
      × (occurs a c.held ≤ occurs a (slots c.pool.memory (slot_size size) n))
      × (occurs 0 c.held ≡ 0)
      × (available n c.pool + length c.held ≡ n)
Reach-no_aliasing size n malloc failures huge mmap links fits inside pos ne e r a =
    let (free, inv) =
      Reach-Safe (construct-Inv size n malloc fits inside failures huge mmap links pos ne e) r in
    omega (arith, once inv a, inv.whole a, not_null inv, available-length inv, inv.sized)

exact_of :
    {size n : ℕ} {p : MemoryPool} {used : List ℕ} {r : ℕ × MemoryPool}
    → occurs 0 used ≡ 0
    → Allocated size n p used r
    → ((r.0 ≡ 0) ↔ (length used ≡ n)) × (occurs r.0 used ≡ 0)
exact_of z (exhausted full) = ((λ e. full, λ e. refl), z)
exact_of z (granted out inv) =
    ((λ e. absurd (ground (arith, not_null inv)), λ e. absurd (omega (arith, inv.sized))), out)

-- An allocation fails exactly when clients hold all `n` slots; otherwise it returns an object that
-- nobody holds.
pub allocate_exact :
    {size n : ℕ} (failures : ℕ) {p : MemoryPool} {free used : List ℕ}
    → Inv size n p free used
    → (((allocate failures p).0 ≡ 0) ↔ (length used ≡ n))
      × (occurs (allocate failures p).0 used ≡ 0)
allocate_exact failures {free} {used} inv =
    exact_of (omega (arith, not_null inv)) (allocate-Allocated failures free used inv)

-- The object given back last is the one handed out next, and the pool's free list is then as before.
pub allocate-deallocate :
    {size n : ℕ} (failures ptr : ℕ) {p : MemoryPool} {free used : List ℕ}
    → Inv size n p free used
    → 0 < occurs ptr used
    → let (again, q) = allocate failures (deallocate failures p ptr) in
      (again ≡ ptr) × (q.free_list ≡ p.free_list) × (available n q ≡ available n p)
unfolding allocate deallocate available
allocate-deallocate {n} failures ptr {p} {free} {used} inv held =
    let ne : ptr ≢ 0 = λ e. omega (arith, not_null inv, rw e at held) in
    let (c, m, f) =
      push_free_list-Chain failures ptr p free ne (omega (arith, once inv ptr)) inv.chain in
    let q = push_free_list failures p ptr in
    let popped = pop_free_list-cons failures q (omega arith) in
    let back = Chain-head q.links p.links (q.links ptr) p.free_list free c.2 inv.chain in
    let fits : length free ≤ n = omega (arith, inv.sized) in
    rw (==_ne ptr 0 ne, popped, f)
      (
        refl,
        back,
        walk-length q.links n (q.links ptr) free c.2 fits
            ∙ sym (walk-length p.links n p.free_list free inv.chain fits),
      )
