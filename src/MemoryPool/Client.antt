-- ===== src/MemoryPool/Client.antt =====
-- What a client of the pool sees: allocation, deallocation, and writes into the objects that it holds.
use market_data_feed_handler.Prelude.{
  ℕ, ◌+◌, ◌<◌, ◌≡◌, refl, ◌≢◌, List, [], ◌∷◌, arith, ◌==◌, ==_ne, if◌then◌else◌, length,
}
use market_data_feed_handler.Chain.{store, occurs, Chain-store}
use market_data_feed_handler.MemoryPool.{MemoryPool, allocate, deallocate}
use market_data_feed_handler.MemoryPool.Invariant.{
  erase, Inv, push_free_list-Chain, pop_free_list-nil, pop_free_list-cons, once, not_null,
}

pub occurs-erase :
    (a b : ℕ) (xs : List ℕ)
    → 0 < occurs a xs
    → occurs b (erase a xs) + (if a == b then 1 else 0) ≡ occurs b xs
occurs-erase a b [] h = absurd (omega arith)
occurs-erase a b (x ∷ xs) h = ground (arith, occurs-erase a b xs)

length-erase : (a : ℕ) (xs : List ℕ) → 0 < occurs a xs → length (erase a xs) + 1 ≡ length xs
length-erase a [] h = absurd (omega arith)
length-erase a (x ∷ xs) h = ground (arith, length-erase a xs)

-- What an allocation may do: report an exhausted pool and change nothing, or hand out a slot that
-- nobody holds.
pub data Allocated (size n : ℕ) (p : MemoryPool) (used : List ℕ) : ℕ × MemoryPool → Type 0 where
  exhausted : length used ≡ n → Allocated size n p used (0, p)
  granted :
      {ptr : ℕ} {q : MemoryPool} {rest : List ℕ}
      → occurs ptr used ≡ 0
      → Inv size n q rest (ptr ∷ used)
      → Allocated size n p used (ptr, q)

module _ {size n : ℕ} where
  pub allocate-Allocated :
      (failures : ℕ) {p : MemoryPool} (free used : List ℕ)
      → Inv size n p free used
      → Allocated size n p used (allocate failures p)
  unfolding allocate
  allocate-Allocated failures {p} [] used inv =
      rw (pop_free_list-nil failures p inv.chain) (exhausted (omega (arith, inv.sized)))
  allocate-Allocated failures {p} (x ∷ free) used inv =
      let (e, ne, c) = inv.chain in
      rw (pop_free_list-cons failures p (omega arith)) (
        granted {rest = free} (ground (arith, once inv p.free_list)) (record {
          chain = rw e c;
          whole = λ a. ground (arith, inv.whole a);
          sized = omega (arith, inv.sized);
          based = inv.based;
          spaced = inv.spaced;
        }))

  deallocate-Inv :
      (failures ptr : ℕ) {p : MemoryPool} {free used : List ℕ}
      → Inv size n p free used
      → 0 < occurs ptr used
      → Inv size n (deallocate failures p ptr) (ptr ∷ free) (erase ptr used)
  unfolding deallocate
  deallocate-Inv failures ptr {p} {free} {used} inv held =
      let ne : ptr ≢ 0 = λ e. omega (arith, not_null inv, rw e at held) in
      let (c, m, f) =
        push_free_list-Chain failures ptr p free ne (omega (arith, once inv ptr)) inv.chain in
      rw (==_ne ptr 0 ne) (record {
        chain = c;
        whole = λ a. rw m (omega (arith, inv.whole a, occurs-erase ptr a used held));
        sized = omega (arith, inv.sized, length-erase ptr used held);
        based = rw m inv.based;
        spaced = inv.spaced;
      })

  -- A client may write into an object that it holds, over the whole of it.
  write-Inv :
      (ptr v : ℕ) {p : MemoryPool} {free used : List ℕ}
      → Inv size n p free used
      → 0 < occurs ptr used
      → Inv size n (record p { links = store p.links ptr v }) free used
  write-Inv ptr v {p} {free} inv held = record {
    chain = Chain-store p.links p.free_list free ptr v (omega (arith, once inv ptr)) inv.chain;
    whole = inv.whole;
    sized = inv.sized;
    based = inv.based;
    spaced = inv.spaced;
  }

-- The pool, and the objects that its clients hold.
pub record Client : Type 0 where
  pub pool : MemoryPool
  pub held : List ℕ

-- What clients may do, one call after another: allocate, deallocate an object that they hold, and
-- write into one.
pub data Step (n : ℕ) (c : Client) : Client → Type 0 where
  grant :
      (failures : ℕ)
      → (allocate failures c.pool).0 ≢ 0
      → Step n c (record {
        pool = (allocate failures c.pool).1;
        held = (allocate failures c.pool).0 ∷ c.held;
      })
  refuse :
      (failures : ℕ)
      → (allocate failures c.pool).0 ≡ 0
      → Step n c (record c { pool = (allocate failures c.pool).1 })
  release :
      (failures ptr : ℕ)
      → 0 < occurs ptr c.held
      → Step n c (record { pool = deallocate failures c.pool ptr; held = erase ptr c.held })
  write :
      (ptr v : ℕ)
      → 0 < occurs ptr c.held
      → Step n c (record c { pool = record (c.pool) { links = store c.pool.links ptr v } })

pub data Reach (n : ℕ) (start : MemoryPool) : Client → Type 0 where
  here : Reach n start (record { pool = start; held = [] })
  next : {c d : Client} → Reach n start c → Step n c d → Reach n start d

-- Some list of free slots makes the invariant hold.
abbrev pub Safe : ℕ → ℕ → Client → Type 0
Safe size n c = (free : List ℕ) × Inv size n c.pool free c.held

module _ {size n : ℕ} where
  granted_of :
      {p : MemoryPool} {used : List ℕ} {r : ℕ × MemoryPool}
      → Allocated size n p used r
      → r.0 ≢ 0
      → (occurs r.0 used ≡ 0) × Safe size n (record { pool = r.1; held = r.0 ∷ used })
  granted_of (exhausted e) ne = absurd (ne refl)
  granted_of (granted {rest} out inv) ne = (out, (rest, inv))

  refused_of :
      {p : MemoryPool} {used : List ℕ} {r : ℕ × MemoryPool}
      → Allocated size n p used r
      → r.0 ≡ 0
      → (length used ≡ n) × (r.1 ≡ p)
  refused_of (exhausted e) z = (e, refl)
  refused_of (granted out inv) z = absurd (ground (arith, not_null inv))

  Step-Safe : {c d : Client} → Step n c d → Safe size n c → Safe size n d
  Step-Safe {c} (grant failures ne) (free, inv) =
      (granted_of (allocate-Allocated failures free c.held inv) ne).1
  Step-Safe {c} (refuse failures z) (free, inv) =
      let (full, same) = refused_of (allocate-Allocated failures free c.held inv) z in
      (free, rw same inv)
  Step-Safe (release failures ptr held) (free, inv) =
      (ptr ∷ free, deallocate-Inv failures ptr inv held)
  Step-Safe (write ptr v held) (free, inv) = (free, write-Inv ptr v inv held)

  pub Reach-Safe :
      {start : MemoryPool} {c : Client}
      → Safe size n (record { pool = start; held = [] })
      → Reach n start c
      → Safe size n c
  Reach-Safe s here = s
  Reach-Safe s (next r st) = Step-Safe st (Reach-Safe s r)
