-- ===== src/MemoryPool/Tests.antt =====
-- A pool of three objects of 8 bytes, and the theorems at it.
use market_data_feed_handler.Prelude.{
  ℕ, ◌+◌, ◌%◌, ◌≤◌, ◌≡◌, refl, ◌↔◌, ◌≢◌, sym, inl, inr, Bool-cases, ◌==◌, ==_ne, true, false, none,
  some, [], ◌∷◌, arith, length,
}
use market_data_feed_handler.Chain.{Links, occurs, store}
use market_data_feed_handler.MemoryPool.{
  MemoryPool, slot_size, align_up, get_slot, allocate, deallocate, available, allocate_normal,
  allocate_memory, unallocated, fill, construct, push_free_list, huge_page_size, destroy,
}
use market_data_feed_handler.MemoryPool.Layout.{allocate_normal_layout}
use market_data_feed_handler.MemoryPool.Invariant.{slots, Inv, erase}
use market_data_feed_handler.MemoryPool.Client.{Client, grant, Reach, here, next}
use market_data_feed_handler.MemoryPool.Threads
use market_data_feed_handler.MemoryPool.Threads.{pop_load, pop_next, pop_swap, push_load}
use market_data_feed_handler.MemoryPool.Popper
use market_data_feed_handler.MemoryPool.Popper.Safety.{Reach-one_popper}
use market_data_feed_handler.MemoryPool.Lifetime.{obtained, Reach-destroy}
use market_data_feed_handler.MemoryPool.Aba.{AreInRole, construct-granted_twice}
use market_data_feed_handler.MemoryPool.Safety.{
  Reach-no_aliasing, allocate_exact, allocate-deallocate,
}

abbrev zeros : Links
zeros a = 0

-- `malloc` has returned 1000; the slots are at 1024, 1088 and 1152.
abbrev raw : MemoryPool
raw = record {
  use_huge_pages = false;
  raw_memory = 1000;
  memory = 1024;
  total_size = 256;
  free_list = 0;
  links = zeros;
}

pool : MemoryPool
unfolding fill get_slot slot_size push_free_list
pool = fill 8 1 3 0 raw

constructed : construct 8 3 1 false 1000 none zeros ≡ some pool
unfolding construct allocate_memory allocate_normal pool align_up slot_size
constructed = refl

two_left :
    let (a, p) = allocate 0 pool in
    let (b, q) = allocate 2 p in
    (a ≡ 1152)
    × (b ≡ 1088)
    × (available 3 q ≡ 1)
    × ((allocate 0 (allocate 0 q).1).0 ≡ 0)
    × ((allocate 0 (deallocate 0 q a)).0 ≡ 1152)
unfolding pool allocate available deallocate
two_left = (refl, refl, refl, refl, refl)

pool-Inv : Inv 8 3 pool (1152 ∷ 1088 ∷ 1024 ∷ []) []
unfolding pool slot_size
pool-Inv = record {
  chain = (refl, omega arith, (refl, omega arith, (refl, omega arith, refl)));
  whole = λ a. omega arith;
  sized = refl;
  based = omega arith;
  spaced = omega arith;
}

abbrev one_held : Client
one_held = record { pool = (allocate 0 pool).1; held = (allocate 0 pool).0 ∷ [] }

one_held_reached : Reach 3 pool one_held
unfolding pool allocate
one_held_reached = next here (grant 0 (omega arith))

Reach-no_aliasing_example :
    (occurs 1152 one_held.held ≤ 1)
    × (occurs 1152 one_held.held ≤ occurs 1152 (slots one_held.pool.memory (slot_size 8) 3))
    × (occurs 0 one_held.held ≡ 0)
    × (available 3 one_held.pool + length one_held.held ≡ 3)
unfolding slot_size
Reach-no_aliasing_example =
    Reach-no_aliasing 8 3 1000 1 false none zeros (omega arith) (omega arith) (omega arith)
      (λ e. cc) constructed one_held_reached 1152

allocate_exact_example :
    (((allocate 0 pool).0 ≡ 0) ↔ (◌≡◌ {A = ℕ} 0 3)) × (occurs (allocate 0 pool).0 [] ≡ 0)
allocate_exact_example = allocate_exact 0 pool-Inv

held-Inv : Inv 8 3 (record pool { free_list = 1088 }) (1088 ∷ 1024 ∷ []) (1152 ∷ [])
unfolding pool slot_size
held-Inv = record {
  chain = (refl, omega arith, (refl, omega arith, refl));
  whole = λ a. ground arith;
  sized = refl;
  based = omega arith;
  spaced = omega arith;
}

allocate-deallocate_example :
    let p = record pool { free_list = 1088 } in
    let (again, q) = allocate 1 (deallocate 1 p 1152) in
    (again ≡ 1152) × (q.free_list ≡ p.free_list) × (available 3 q ≡ available 3 p)
allocate-deallocate_example = allocate-deallocate 1 1152 held-Inv (omega arith)

allocate_normal_layout_example :
    let slot = get_slot 8 raw 2 in
    (slot % 64 ≡ 0) × (1000 ≤ slot) × (slot + slot_size 8 ≤ 1000 + raw.total_size)
unfolding allocate_normal slot_size align_up
allocate_normal_layout_example =
    allocate_normal_layout 8 3 1000 2 (unallocated false zeros) raw (omega arith) (omega arith)
      (omega arith) refl

abbrev huge : MemoryPool
huge = record (unallocated true zeros) { total_size = huge_page_size; memory = 4_194_304 }

construct-granted_twice_example :
    (s : Threads.System) × ((r : Threads.Reach (Threads.start pool) s) × AreInRole r)
    × ((object : ℕ) × (2 ≤ occurs object s.held))
unfolding slot_size
construct-granted_twice_example =
    construct-granted_twice 8 3 1000 1 false none zeros (omega arith) (omega arith) (omega arith)
      (λ e. ground arith) (omega arith) constructed

module _ (threads : ℕ → Threads.Thread)
    (one : (u : ℕ) → u ≢ 0 → Popper.is_popping (threads u) ≡ false) where
  by_first : (x : Threads.Thread) (u : ℕ) → u ≢ 0 → Popper.is_popping (store threads 0 x u) ≡ false
  by_first x u ne = rw (==_ne 0 u (λ e. ne (sym e))) (one u ne)

  by_second :
      (x : Threads.Thread)
      → Popper.is_popping x ≡ false
      → (u : ℕ) → u ≢ 0
      → Popper.is_popping (store threads 1 x u) ≡ false
  by_second x e u ne = elim (Bool-cases (1 == u)) [ inl f ↦ rw f e | inr f ↦ rw f (one u ne) ]

abbrev after_pop : Threads.System → Threads.System
after_pop s = record {
  free_list = s.links s.free_list;
  links = s.links;
  threads =
      store
        (store (store s.threads 0 (Threads.pop_loaded s.free_list)) 0
          (Threads.pop_ready s.free_list (s.links s.free_list)))
        0 Threads.idle;
  held = s.free_list ∷ s.held;
}

-- A pop of thread 0.
popped_by_first :
    {first s : Threads.System}
    → Popper.Reach first s
    → Popper.OnePops s
    → s.threads 0 ≡ Threads.idle
    → s.free_list ≢ 0
    → Popper.Reach first (after_pop s) × Popper.OnePops (after_pop s)
popped_by_first {s} r one at_rest ne =
    let q = by_first s.threads one (Threads.pop_loaded s.free_list) in
    let loaded = Popper.next 0 r (pop_load at_rest ne) q in
    let q' = by_first _ q (Threads.pop_ready s.free_list (s.links s.free_list)) in
    let ready = Popper.next 0 loaded (pop_next refl) q' in
    let q'' = by_first _ q' Threads.idle in (Popper.next 0 ready (pop_swap refl refl) q'', q'')

-- Thread 0 takes two objects and is in its third pop, and thread 1 begins to give the first one back.
abbrev returned_beside_pop : Threads.System
returned_beside_pop =
    let s = after_pop (after_pop (Threads.start pool)) in
    record s {
      threads =
          store (store s.threads 0 (Threads.pop_loaded s.free_list)) 1
            (Threads.push_loaded 1152 s.free_list);
      held = erase 1152 s.held;
    }

returned_beside_pop_reached : Popper.Reach (Threads.start pool) returned_beside_pop
unfolding pool
returned_beside_pop_reached =
    let one : Popper.OnePops (Threads.start pool) = λ t ne. refl in
    let (r, q) = popped_by_first Popper.here one refl (omega arith) in
    let (r', q') = popped_by_first r q refl (omega arith) in
    let q'' = by_first _ q' (Threads.pop_loaded 1024) in
    let third = Popper.next 0 r' (pop_load refl (omega arith)) q'' in
    Popper.next 1 third (push_load 1152 refl (omega arith))
      (by_second _ q'' (Threads.push_loaded 1152 1024) refl)

Reach-one_popper_example :
    (occurs 1088 returned_beside_pop.held ≤ 1)
    × (occurs 1088 returned_beside_pop.held ≤ occurs 1088 (slots 1024 (slot_size 8) 3))
    × (occurs 0 returned_beside_pop.held ≡ 0)
unfolding pool
Reach-one_popper_example =
    Reach-one_popper 8 3 1000 1 false none zeros (omega arith) (omega arith) (omega arith) (λ e. cc)
      constructed returned_beside_pop_reached 1088

Reach-destroy_example : destroy one_held.pool ≡ obtained 8 3 false 1000 none
Reach-destroy_example = Reach-destroy 8 3 1000 1 false none zeros constructed one_held_reached
