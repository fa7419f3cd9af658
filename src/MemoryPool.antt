-- ===== src/MemoryPool.antt =====
-- `MemoryPool` of include/market_data/memory/memory_pool.hpp, with no other thread at work on its
-- free list (`Threads` is about several). `malloc` and `mmap` are the operating system's: what they
-- return is an argument.
pub mod Layout
pub mod Invariant
pub mod Client
pub mod Construct
pub mod Safety
pub mod Allocator
pub mod Threads
pub mod Aba
pub mod Popper
pub mod Lifetime
mod Tests
use mathlib.Core.Option
use market_data_feed_handler.Prelude.{
  ℕ, zero, suc, ◌+◌, ◌-◌, ◌*◌, ◌/◌, ◌^◌, Bool, true, false, Option, none, some, bit_and, ◌==◌,
  if◌then◌else◌, u64, u64_mod,
}
use market_data_feed_handler.Core.Common.{cache_line_size}
use market_data_feed_handler.Chain.{Links, store, walk}

-- `links` is the memory that the `next` fields of the free nodes occupy, by address.
pub record MemoryPool : Type 0 where
  pub use_huge_pages : Bool
  pub raw_memory : ℕ
  pub memory : ℕ
  pub total_size : ℕ
  pub free_list : ℕ
  pub links : Links

-- `SLOT_SIZE`, for objects of `size` bytes.
unfoldable pub slot_size : ℕ → ℕ
slot_size size = (size + cache_line_size - 1) / cache_line_size * cache_line_size

-- `(addr + CACHE_LINE_SIZE - 1) & ~(CACHE_LINE_SIZE - 1)`
unfoldable pub align_up : ℕ → ℕ
align_up addr = bit_and (u64 (addr + cache_line_size - 1)) (u64_mod - cache_line_size)

abbrev pub huge_page_size : ℕ
huge_page_size = 2 * 1024 * 1024

-- `get_slot`
unfoldable pub get_slot : ℕ → MemoryPool → ℕ → ℕ
get_slot size p index = p.memory + index * slot_size size

-- The loop of `push_free_list`. `failures` is how often `compare_exchange_weak` fails without cause;
-- a failure has stored `next`, and goes round again.
unfoldable pub push_free_list : ℕ → MemoryPool → ℕ → MemoryPool
push_free_list zero p node = record p { links = store p.links node p.free_list; free_list = node }
push_free_list (suc failures) p node =
    push_free_list failures (record p { links = store p.links node p.free_list }) node

-- The loop of `pop_free_list`; 0 is returned for an empty list.
unfoldable pub pop_free_list : ℕ → MemoryPool → ℕ × MemoryPool
pop_free_list zero p =
    let node = p.free_list in
    if node == 0 then (0, p) else (node, record p { free_list = p.links node })
pop_free_list (suc failures) p =
    let again = pop_free_list failures p in if p.free_list == 0 then (0, p) else again

unfoldable pub allocate : ℕ → MemoryPool → ℕ × MemoryPool
unfolding pop_free_list
allocate failures p = pop_free_list failures p

-- Of an object that is trivially destructible, as those of the program are.
unfoldable pub deallocate : ℕ → MemoryPool → ℕ → MemoryPool
unfolding push_free_list
deallocate failures p ptr = if ptr == 0 then p else push_free_list failures p ptr

-- `available`, whose count stops at the number of slots.
unfoldable pub available : ℕ → MemoryPool → ℕ
unfolding walk
available num_slots p = walk p.links num_slots p.free_list

-- `allocate_normal`. `none` is `std::abort()`, on a `malloc` that returned null.
unfoldable pub allocate_normal : ℕ → ℕ → ℕ → MemoryPool → Option MemoryPool
allocate_normal size num_slots malloc p =
    let total = u64 (u64 (num_slots * slot_size size) + cache_line_size) in
    if malloc == 0
    then none
    else some (record p { total_size = total; raw_memory = malloc; memory = align_up malloc })

-- `allocate_huge_pages`. `mmap` is `none` where the call returned MAP_FAILED.
unfoldable pub allocate_huge_pages : ℕ → ℕ → ℕ → Option ℕ → MemoryPool → Option MemoryPool
allocate_huge_pages size num_slots malloc none p =
    allocate_normal size num_slots malloc (record p { use_huge_pages = false })
allocate_huge_pages size num_slots malloc (some pages) p =
    let total = u64 (num_slots * slot_size size) in
    some (record p {
      total_size = u64 (u64 (total + huge_page_size - 1) / huge_page_size * huge_page_size);
      memory = pages;
    })

-- `for (i = 0; i < NumSlots; ++i) push_free_list(get_slot(i));`, from slot `i` on, with the number of
-- slots that are left.
unfoldable pub fill : ℕ → ℕ → ℕ → ℕ → MemoryPool → MemoryPool
fill size failures zero i p = p
fill size failures (suc left) i p =
    fill size failures left (i + 1) (push_free_list failures p (get_slot size p i))

-- The members before the constructor's body. `links` is what stands in the memory before.
abbrev pub unallocated : Bool → Links → MemoryPool
unallocated use_huge_pages links = record {
  use_huge_pages = use_huge_pages;
  raw_memory = 0;
  memory = 0;
  total_size = 0;
  free_list = 0;
  links = links;
}

-- The constructor's first step.
unfoldable pub allocate_memory : ℕ → ℕ → ℕ → Option ℕ → MemoryPool → Option MemoryPool
allocate_memory size num_slots malloc mmap p =
    if p.use_huge_pages
    then allocate_huge_pages size num_slots malloc mmap p
    else allocate_normal size num_slots malloc p

-- The constructor.
unfoldable pub construct : ℕ → ℕ → ℕ → Bool → ℕ → Option ℕ → Links → Option MemoryPool
construct size num_slots failures use_huge_pages malloc mmap links =
    Option.map (fill size failures num_slots 0)
      (allocate_memory size num_slots malloc mmap (unallocated use_huge_pages links))

-- What the destructor calls: `munmap` with an address and a size, or `free` with an address.
pub data Release : Type 0 where
  munmap : ℕ → ℕ → Release
  free : ℕ → Release

-- The destructor.
unfoldable pub destroy : MemoryPool → Release
destroy p = if p.use_huge_pages then munmap p.memory p.total_size else free p.raw_memory
