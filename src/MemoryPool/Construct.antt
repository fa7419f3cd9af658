-- ===== src/MemoryPool/Construct.antt =====
-- The constructor of the pool, slot by slot.
use market_data_feed_handler.Prelude.{
  map-eq-some, ℕ, zero, suc, ◌+◌, ◌*◌, ◌≤◌, ◌<◌, ◌≡◌, refl, ◌≢◌, ◌∙◌, ap, Bool, true, false, Option,
  none, some, [], arith, u64_mod,
}
use market_data_feed_handler.Chain.{Links, Chain}
use market_data_feed_handler.MemoryPool.{
  MemoryPool, slot_size, get_slot, fill, construct, allocate_normal, allocate_huge_pages,
  allocate_memory, unallocated, push_free_list,
}
use market_data_feed_handler.MemoryPool.Layout.{
  slot_size_bounds, align_up_bounds, allocate_normal_lem,
}
use market_data_feed_handler.MemoryPool.Invariant.{
  slots, occurs-slots_above, length-slots, push_free_list-Chain,
}
use market_data_feed_handler.MemoryPool.Client.{Safe}

fill-Chain :
    (size failures left i base : ℕ) (p : MemoryPool)
    → 0 < base
    → 0 < slot_size size
    → p.memory ≡ base
    → Chain p.links p.free_list (slots base (slot_size size) i)
    → let q = fill size failures left i p in
      Chain q.links q.free_list (slots base (slot_size size) (i + left)) × (q.memory ≡ base)
unfolding fill get_slot
fill-Chain size failures zero i base p b pos m c = let e : i + 0 ≡ i = omega arith in rw e (c, m)
fill-Chain size failures (suc left) i base p b pos m c =
    let step = slot_size size in
    let e : i + suc left ≡ i + 1 + left = omega arith in
    let (c', m', f) =
      push_free_list-Chain failures (base + i * step) p (slots base step i) (omega arith)
        (occurs-slots_above base step pos i (base + i * step) (omega arith)) c in
    let next : i + 1 ≡ suc i = omega arith in
    let slot : p.memory + i * step ≡ base + i * step = omega arith in
    let once_round : fill size failures (suc left) i p
        ≡ fill size failures left (i + 1) (push_free_list failures p (base + i * step)) =
      ap (λ a. fill size failures left (i + 1) (push_free_list failures p a)) slot in
    rw (once_round, e)
      (fill-Chain size failures left (i + 1) base (push_free_list failures p (base + i * step)) b
        pos (m' ∙ m) (rw next c'))

module _ (size n malloc : ℕ) (fits : n * slot_size size + 64 < u64_mod)
    (inside : malloc + 64 ≤ u64_mod) where
  normal-based :
      (p : MemoryPool) {q : MemoryPool}
      → allocate_normal size n malloc p ≡ some q
      → (0 < q.memory) × (q.free_list ≡ p.free_list)
  normal-based p {q} e =
      let facts = allocate_normal_lem size n malloc p q fits e in
      let bounds = align_up_bounds malloc inside in omega arith

  huge-based :
      (mmap : Option ℕ) (p : MemoryPool) {q : MemoryPool}
      → mmap ≢ some 0
      → allocate_huge_pages size n malloc mmap p ≡ some q
      → (0 < q.memory) × (q.free_list ≡ p.free_list)
  unfolding allocate_huge_pages
  huge-based none p ne e = normal-based (record p { use_huge_pages = false }) e
  huge-based (some pages) p ne e = ground arith

  memory-based :
      (huge : Bool) (mmap : Option ℕ) (links : Links) {q : MemoryPool}
      → mmap ≢ some 0
      → allocate_memory size n malloc mmap (unallocated huge links) ≡ some q
      → (0 < q.memory) × (q.free_list ≡ 0)
  unfolding allocate_memory
  memory-based true mmap links ne e = huge-based mmap (unallocated true links) ne e
  memory-based false mmap links ne e = normal-based (unallocated false links) e

  -- The constructor leaves all slots free, the last in front.
  pub construct-Inv :
      (failures : ℕ) (huge : Bool) (mmap : Option ℕ) (links : Links) {p : MemoryPool}
      → 0 < size
      → mmap ≢ some 0
      → construct size n failures huge malloc mmap links ≡ some p
      → Safe size n (record { pool = p; held = [] })
  unfolding construct
  construct-Inv failures huge mmap links {p} pos ne e =
      let (q, found, filled) =
        map-eq-some (fill size failures n 0)
          (allocate_memory size n malloc mmap (unallocated huge links)) e in
      let (based, empty) = memory-based huge mmap links ne found in
      let spaced : 0 < slot_size size = omega (arith, slot_size_bounds size) in
      let (c, m) = fill-Chain size failures n 0 q.memory q based spaced refl empty in
      let all : 0 + n ≡ n = omega arith in
      rw (← filled) (
        slots q.memory (slot_size size) n,
        record {
          chain = rw all at c;
          whole = λ a. rw m (omega arith);
          sized = omega (arith, length-slots q.memory (slot_size size) n);
          based = omega (arith, based, m);
          spaced = spaced;
        },
      )
