-- ===== src/Lib.antt =====
-- Verification of vr, a library for market data and low-latency trading (vr/vr_common/src/vr and
-- vr/vr_rt/src/vr): its containers, its lock-free ring, its timer queue, its limit order book, and the
-- framing of messages on its TCP links.
--
-- Parts:
--   Base          shared names, lists, tests, and `Run`, the results of C++ code. Exceptions are
--                 values of it; a failed assertion, a bad dereference or a loop that runs out of
--                 rounds is `fault`. `Base.Power` is vr_is_power_of_2 of
--                 vr/vr_common/src/vr/util/conditions_int.h, `Base.Int` has signed numbers, `Base.Bits` exclusive or, and
--                 `Base.Store` the abstract view of a pool, on which the order book and the timer
--                 queue stand.
--   Pool          vr/vr_common/src/vr/util/object_pools.h, object_pools.cpp and
--                 object_pool_checker.h: fixed_size_allocator and object_pool. `Pool.Defs` has the
--                 operations over an explicit memory of chunks; the free list is threaded through
--                 the free slots. `IsValid` is the invariant and `object_at` the abstract view, a
--                 finite map from references to objects.
--   ScatterTable  vr/vr_common/src/vr/containers/util/chained_scatter_table.h: a hash table that
--                 chains inside its own bucket array, with a circular list of the free slots.
--                 `ScatterTable.Defs` has the operations, `Layout` and `Valid` are the invariant and
--                 `contents` the abstract view, a finite map. `ScatterTable.Log2` is the log2_ceil
--                 of vr/vr_common/src/vr/util/ops_int.h, which sizes the table.
--   LimitBook     vr/vr_rt/src/vr/market/books: limit_order_book.h, impl/limit_order_book_impl.h,
--                 limit_order_book_checker.h and asx/market_data_listener.h. A book has two sides,
--                 each with a map from order ids to references and one from prices to levels, and
--                 two pools. The pools and the maps of order ids stand by the abstract views that
--                 `Pool` and `ScatterTable` prove, as functions; boost's splay set of levels is the
--                 parameter `PriceMap`, with its lookup laws, and the choice of a free reference the
--                 parameter `Allocator`. `Sound` is the invariant of a book.
--   SpscBuffer    vr/vr_common/src/vr/mc/lf_spsc_buffer.h: the lock-free ring between one producer and
--                 one consumer. `SpscBuffer.Defs` has the operations of both ends over the cache
--                 lines of the object; `SpscBuffer.System` interleaves the two threads, one operation
--                 at a step, each with at most one access to what the other thread writes; a load of the
--                 other thread's position may see an older value, as under x86-TSO.
--   SoupTcp       vr/vr_rt/src/vr/market/net/SoupTCP_.h: the framing of messages in a TCP stream
--                 (`SoupTcp.Defs`, consume of both directions), and how
--                 vr/vr_rt/src/vr/market/rt/asx/execution_link.cpp receives (`SoupTcp.Link`): the
--                 scan over what a poll returns, the published position, and the flush; its reader
--                 vr/vr_rt/src/vr/market/rt/agents/asx/execution_manager.h polls that position.
--                 `Frames` has the wire format that the theorems send, `Stream` segments and
--                 flushes in any order.
--   TimerQueue    vr/vr_common/src/vr/containers/util/treap_priority_queue.h and
--                 vr/vr_common/src/vr/util/timer_event_queue.h: events by their time, over the
--                 abstract view of a pool; boost's treap_multiset is the parameter `TreapMultiset`.
--                 `pending` is the abstract view, the events in order. `TimerQueue.Random` is the
--                 generator of priorities, xorshift of vr/vr_common/src/vr/util/random.h.
--
-- Bounds: `max_capacity` of a pool and of a table is a parameter, the limit of the pointer type. A
-- loop over a chain has as many rounds as the table has slots; `put` has two rounds, the second after
-- a rehash; the loops of the bitmap and of the pool's checker have one more than the pool has slots.
-- The theorems show that these are enough. The scan of received bytes has one round more than there are
-- bytes, and the theorems show that it ends, for frames with a length below 0x8000. The positions of the
-- ring and of streams are unbounded; in the source they have 63 bits, and the sizes 31. Timestamps are
-- not negative.
--
-- Not modelled: negative quantities, which are faults here, so that a sum that leaves the range of
-- the int32_t qty_t (market/defs.h) wraps to its low 32 bits or is a fault; the same wrap in the sums
-- that the checker of a book makes; the memory that the system gives (fresh memory is a parameter or
-- `raw`); destructors that free memory, the iterators, logging; memory orders weaker than the x86-TSO
-- that the ring relies on, under which a thread's stores are seen in order, and may be seen late; the
-- memory of received bytes that have been flushed; the sockets, of which a poll is a parameter, and
-- the reclamation of published positions.
pub mod Base
pub mod LimitBook
pub mod Pool
pub mod ScatterTable
pub mod SoupTcp
pub mod SpscBuffer
pub mod TimerQueue
