-- ===== src/MemoryPool/Layout.antt =====
-- Where the slots of a pool lie.
use native.Mathlib.Nat.{mul_assoc, mul-mod_left}
use market_data_feed_handler.Prelude.{
  ℕ, ◌+◌, ◌-◌, ◌*◌, ◌/◌, ◌%◌, ◌≤◌, ◌<◌, ◌≡◌, ◌≢◌, some, arith, u64, u64_mod,
}
use market_data_feed_handler.Prelude.Bits.{bit_and-high_mask}
use market_data_feed_handler.MemoryPool.{
  MemoryPool, slot_size, align_up, huge_page_size, get_slot, allocate_normal, allocate_huge_pages,
}

-- A slot is the object's size rounded up to whole cache lines.
pub slot_size_bounds :
    (size : ℕ) → (slot_size size % 64 ≡ 0) × (size ≤ slot_size size) × (slot_size size < size + 64)
unfolding slot_size
slot_size_bounds size = omega arith

-- The address rounded up to a cache line, unless that goes past the address space.
pub align_up_bounds :
    (addr : ℕ)
    → addr + 64 ≤ u64_mod
    → (align_up addr % 64 ≡ 0) × (addr ≤ align_up addr) × (align_up addr < addr + 64)
unfolding align_up
align_up_bounds addr h = omega (arith, bit_and-high_mask 6 58 (u64 (addr + 64 - 1)))

slot_in : (index n step : ℕ) → index < n → index * step + step ≤ n * step
slot_in index n step h = grind arith

slot_aligned : (index step : ℕ) → step % 64 ≡ 0 → index * step % 64 ≡ 0
slot_aligned index step h =
    let e : step ≡ step / 64 * 64 = omega arith in
    rw e (rw (← mul_assoc index (step / 64) 64) (mul-mod_left (index * (step / 64)) 64))

-- What `allocate_normal` sets, where it does not abort and no product overflows.
pub allocate_normal_lem :
    (size n malloc : ℕ) (p q : MemoryPool)
    → n * slot_size size + 64 < u64_mod
    → allocate_normal size n malloc p ≡ some q
    → (malloc ≢ 0)
      × (q.memory ≡ align_up malloc)
      × (q.total_size ≡ n * slot_size size + 64)
      × (q.free_list ≡ p.free_list)
unfolding allocate_normal
allocate_normal_lem size n malloc p q fits e = ground arith

-- With `malloc`'s block inside the address space, every slot is aligned to a cache line and lies
-- inside the block.
pub allocate_normal_layout :
    (size n malloc index : ℕ) (p q : MemoryPool)
    → n * slot_size size + 64 < u64_mod
    → malloc + 64 ≤ u64_mod
    → index < n
    → allocate_normal size n malloc p ≡ some q
    → let slot = get_slot size q index in
      (slot % 64 ≡ 0) × (malloc ≤ slot) × (slot + slot_size size ≤ malloc + q.total_size)
unfolding get_slot
allocate_normal_layout size n malloc index p q fits inside lt e = omega (
  arith,
  allocate_normal_lem size n malloc p q fits e,
  align_up_bounds malloc inside,
  slot_in index n (slot_size size) lt,
  slot_aligned index (slot_size size) (slot_size_bounds size).0,
)

-- With huge pages the block is a whole number of them, and holds every slot.
pub allocate_huge_pages_layout :
    (size n malloc pages index : ℕ) (p q : MemoryPool)
    → n * slot_size size + huge_page_size ≤ u64_mod
    → index < n
    → allocate_huge_pages size n malloc (some pages) p ≡ some q
    → (q.total_size % huge_page_size ≡ 0)
      × (q.memory ≡ pages)
      × (get_slot size q index + slot_size size ≤ pages + q.total_size)
unfolding allocate_huge_pages get_slot
allocate_huge_pages_layout size n malloc pages index p q fits lt e =
    ground (arith, slot_in index n (slot_size size) lt)
