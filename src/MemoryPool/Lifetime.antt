-- ===== src/MemoryPool/Lifetime.antt =====
-- The destructor of the pool.
use market_data_feed_handler.Prelude.{
  map-eq-some, ℕ, zero, suc, ◌+◌, ◌-◌, ◌*◌, ◌/◌, ◌≡◌, refl, sym, ◌∙◌, ap, Bool, true, false,
  Bool-cases, inl, inr, Option, none, some, ◌==◌, u64,
}
use market_data_feed_handler.Core.Common.{cache_line_size}
use market_data_feed_handler.Chain.{Links}
use market_data_feed_handler.MemoryPool.{
  MemoryPool, slot_size, align_up, huge_page_size, push_free_list, pop_free_list, allocate,
  deallocate, fill, construct, allocate_memory, allocate_normal, allocate_huge_pages, unallocated,
  Release, munmap, free, destroy,
}
use market_data_feed_handler.MemoryPool.Client.{
  Client, Step, grant, refuse, release, write, Reach, here, next,
}

-- The block that the constructor obtains: `mmap`'s pages, where they are wanted and there are some,
-- or else `malloc`'s block.
abbrev pub obtained : ℕ → ℕ → Bool → ℕ → Option ℕ → Release
obtained size n true malloc (some pages) =
    munmap pages
      (u64 (u64 (u64 (n * slot_size size) + huge_page_size - 1) / huge_page_size * huge_page_size))
obtained size n huge malloc mmap = free malloc

destroy-push_free_list :
    (failures node : ℕ) (p : MemoryPool) → destroy (push_free_list failures p node) ≡ destroy p
unfolding destroy push_free_list
destroy-push_free_list zero node p = refl
destroy-push_free_list (suc failures) node p =
    destroy-push_free_list failures node (record p { links = (push_free_list 0 p node).links })

destroy-pop_free_list :
    (failures : ℕ) (p : MemoryPool) → destroy (pop_free_list failures p).1 ≡ destroy p
unfolding destroy pop_free_list
destroy-pop_free_list zero p = elim (Bool-cases (p.free_list == 0)) [
  | inl e ↦ rw e refl
  | inr e ↦ rw e refl
]
destroy-pop_free_list (suc failures) p = elim (Bool-cases (p.free_list == 0)) [
  | inl e ↦ rw e refl
  | inr e ↦ rw e (destroy-pop_free_list failures p)
]

destroy-fill :
    (size failures left i : ℕ) (p : MemoryPool) → destroy (fill size failures left i p) ≡ destroy p
unfolding fill
destroy-fill size failures zero i p = refl
destroy-fill size failures (suc left) i p =
    destroy-fill size failures left (i + 1) _ ∙ destroy-push_free_list failures _ p

destroy-deallocate :
    (failures ptr : ℕ) (p : MemoryPool) → destroy (deallocate failures p ptr) ≡ destroy p
unfolding deallocate
destroy-deallocate failures ptr p = elim (Bool-cases (ptr == 0)) [
  | inl e ↦ rw e refl
  | inr e ↦ rw e (destroy-push_free_list failures ptr p)
]

destroy-Step : {n : ℕ} {c d : Client} → Step n c d → destroy d.pool ≡ destroy c.pool
unfolding allocate destroy
destroy-Step {n} {c} (grant failures ne) = destroy-pop_free_list failures c.pool
destroy-Step {n} {c} (refuse failures e) = destroy-pop_free_list failures c.pool
destroy-Step {n} {c} (release failures ptr h) = destroy-deallocate failures ptr c.pool
destroy-Step (write ptr v h) = refl

destroy-Reach : {n : ℕ} {p : MemoryPool} {c : Client} → Reach n p c → destroy c.pool ≡ destroy p
destroy-Reach here = refl
destroy-Reach (next r step) = destroy-Step step ∙ destroy-Reach r

released : Option MemoryPool → Release
released none = free 0
released (some p) = destroy p

destroy-allocate_normal :
    (size n malloc : ℕ) (p : MemoryPool) {q : MemoryPool}
    → p.use_huge_pages ≡ false
    → allocate_normal size n malloc p ≡ some q
    → destroy q ≡ free malloc
unfolding allocate_normal destroy released
destroy-allocate_normal size n malloc p {q} normal e = elim (Bool-cases (malloc == 0)) [
  | inl z ↦ let impossible : Option.none ≡ some q = rw z at e in cc
  | inr z ↦
      let found : some (record p {
        total_size = u64 (u64 (n * slot_size size) + cache_line_size);
        raw_memory = malloc;
        memory = align_up malloc;
      })
          ≡ some q =
        rw z at e in
      sym (ap released found) ∙ rw normal refl
]

destroy-allocate_memory :
    (size n malloc : ℕ) (huge : Bool) (mmap : Option ℕ) (links : Links) {p : MemoryPool}
    → allocate_memory size n malloc mmap (unallocated huge links) ≡ some p
    → destroy p ≡ obtained size n huge malloc mmap
unfolding allocate_memory allocate_huge_pages destroy released
destroy-allocate_memory size n malloc false mmap links e =
    destroy-allocate_normal size n malloc _ refl e
destroy-allocate_memory size n malloc true none links e =
    destroy-allocate_normal size n malloc _ refl e
destroy-allocate_memory size n malloc true (some pages) links e = sym (ap released e)

-- After any calls and writes of the clients of a constructed pool, its destructor gives back the very
-- block that the constructor obtained, in the way that fits it.
pub Reach-destroy :
    (size n malloc failures : ℕ) (huge : Bool) (mmap : Option ℕ) (links : Links) {p : MemoryPool}
    {c : Client}
    → construct size n failures huge malloc mmap links ≡ some p
    → Reach n p c
    → destroy c.pool ≡ obtained size n huge malloc mmap
unfolding construct
Reach-destroy size n malloc failures huge mmap links e r =
    let (q, f, g) = map-eq-some (fill size failures n 0) _ e in
    destroy-Reach r
    ∙ ap destroy (sym g)
    ∙ destroy-fill size failures n 0 q
    ∙ destroy-allocate_memory size n malloc huge mmap links f
