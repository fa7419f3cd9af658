-- ===== src/Lib.antt =====
-- Verification of the market data feed handler, a C++ library of lock-free buffers, a memory pool,
-- latency metrics and feed parsers, with a program that runs a producer and a consumer thread.
--
-- The producer of src/main.cpp makes numbered events and pushes them into a circular buffer; the
-- consumer pops them, records their latency in a histogram and checks their numbers. The MPMC queue,
-- the memory pool and the parsers are parts that a feed would use beside these.
--
-- Which file models what (paths from the repository's root):
--   Prelude, Prelude/Tests, Prelude/Lists, Prelude/Options, Prelude/Bits, Prelude/Smear, Prelude/Int:
--     shared names, Boolean tests, machine words (`u64` is `% 2 ^ 64`), lists, options, masks, the
--     copying of a number's highest digit to those below, and signed integers.
--   Core/Common: include/market_data/core/common.hpp, `is_power_of_2`, `next_power_of_2`, `rdtsc`,
--     `rdtscp`.
--   Core/Symbol: `Symbol` and `SymbolHash` of the same file.
--   Core/Event: include/market_data/core/market_event.hpp.
--   CircularBuffer: include/market_data/lockfree/circular_buffer.hpp. The record has the class's
--     members, and each operation is the function of its name. Queue is the bounded queue that the
--     class promises, Window reads the slots in use in order, Invariant has the well-formed states,
--     Refine relates them to the queue, Watermarks has the thresholds. Spsc takes `try_push` and
--     `try_pop` apart into single accesses of two threads; Spsc/Invariant and Spsc/Safety are about
--     its reachable states.
--   LatencyHistogram: `LatencyHistogram` of include/market_data/metrics/latency_tracker.hpp, with
--     Bucket, Summary, Percentile and Statistics on what a history of samples leaves. Threads takes
--     `record` apart into single accesses of several threads: Pending is what the threads inside a
--     call still owe the counters, Moves what one access changes, Invariant the reachable states, and
--     Quiescent what they leave. Threads/Reader is `get_percentile` beside them, load by load, with
--     Accuracy on its result.
--   Metrics: `MetricsCollector` of the same file.
--   Chain: chains of nodes through `next` pointers, for the pool's and the queue's free lists.
--   MemoryPool: `MemoryPool` of include/market_data/memory/memory_pool.hpp, with Layout (addresses),
--     Invariant, Construct, Client (the calls and writes of clients) and Safety, for one thread.
--     Allocator is `PooledAllocator`. Threads takes the free list's functions apart into single
--     accesses of several threads: Aba is about interleavings of two that allocate, and Popper about
--     one that allocates beside any number that deallocate (Pops and Pushes have the steps, Safety the
--     reachable states). Lifetime is about the destructor.
--   MpmcQueue: include/market_data/lockfree/mpmc_queue.hpp, with Invariant, Steps (the changes of the
--     nodes), Create (the constructor), Refine (enqueue and dequeue), Calls (sequences of calls) and
--     Drain (the destructor).
--     Threads takes `try_enqueue` and `try_dequeue` apart into single accesses of any number of
--     threads. Spsc is about one producer and one consumer (Nodes and Locals for what they know,
--     Enqueues and Dequeues for their steps, Safety for the reachable states), Aba about several
--     producers (Lost has their schedule).
--   Timestamp: include/market_data/utils/timestamp.hpp, with Conversion, and Format on
--     `format_timestamp`.
--   Parser: include/market_data/protocol/protocol_parser.hpp, with Text (`std::string_view`),
--     Numbers, Price, Fix and Binary.
--   ThreadUtils: include/market_data/threading/thread_utils.hpp, with CpuList on lists of CPUs, Setup on
--     the calls of the system and the choice of CPUs and of the duration in src/main.cpp, Placement on
--     that choice, and Configured on `ConfiguredThread`, whose threads Configured/Joined follows.
--   Report: what src/main.cpp prints of the metrics, with Order on the numbers.
--   Demonstration: `test_lockfree_structures` of src/main.cpp, with Interface, the bounded queue that it
--     relies on, and Instances, the circular buffer and the MPMC queue as such.
--   Feed: the two threads of src/main.cpp, as a step relation, with Numbers and Invariant on its
--     states, Shutdown on how the threads end, Liveness on the steps until they do, and
--     Statistics on what is printed then.
-- The files named Tests apply the theorems at concrete states.
--
-- Bounds and fuel. Unsigned numbers wrap where the source's do. An overflow of a signed number is
-- `none`. A loop around a weak compare-exchange takes the number of its failures without cause as an
-- argument. The loops of the MPMC queue run on fuel; more than the number of nodes and of
-- failures together is enough for an enqueue, which helps each node at most once, and the number
-- of failures and two for a dequeue, which helps once.
--
-- Parameters. The counter, the clock, and what `malloc`, `mmap`, `strftime` and the calls on threads
-- return are arguments. The product of doubles in `get_percentile` is the function `scale`, and the
-- four that are reported are `Products`. The atomic accesses are taken to be sequentially consistent,
-- which on the circular buffer's indices the acquire and release orders of the source give for the
-- slots that they guard. For a reader beside threads that record into a histogram, whose accesses
-- are relaxed, this is more than C++ promises; locked additions of x86-64 are seen in that order.
--
-- Not modelled: the text that src/main.cpp prints around the numbers, its sleeps, the hints to the
-- processor (prefetch, pause, yield), and the calls of the operating system themselves.
pub mod Prelude
pub mod Core
pub mod Chain
pub mod CircularBuffer
pub mod LatencyHistogram
pub mod MemoryPool
pub mod Timestamp
pub mod Metrics
pub mod MpmcQueue
pub mod Parser
pub mod Demonstration
pub mod Report
pub mod ThreadUtils
pub mod Feed
