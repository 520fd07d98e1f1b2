-- ===== src/Lib.antt =====
-- cmw, a communication middleware in C++: nodes with publishers and subscribers, whose messages go
-- through shared memory or RTPS to the readers of a channel, and whose topology is discovered by
-- broadcast. The library models the parts of it that carry its logic.
--
-- The parts, the files that model them and the code that they are about (paths from the repository's
-- root):
--
--   Serialize     serialize/data_stream.h, data_stream.cpp, serializable.h. Stream has the stream as
--                 a record of its bytes, its position and its byte order, with one
--                 function to each `write` and `read`; Bytes has words in memory, of either byte order;
--                 Containers has the codecs of lists, sets, maps, vectors and SERIALIZE classes over the
--                 codecs of their elements. Transfer puts a writer and a reader together.
--   Transport     transport/message/message_info.cpp, transport/common/identity.cpp: message infos and
--                 identities as bytes.
--   Shm           transport/shm/: Conf (shm_conf.cpp), State (state.h), Block (block.cpp), Segment
--                 (segment.cpp). A writer takes a free block of a segment, fills it and releases it;
--                 readers count themselves in the block's lock. The lock's code is a step function on
--                 the program counters of the threads, run under a schedule. What the system does for
--                 a segment (opening, creating, removing shared memory) is the record Backend.
--                 ReadableInfo (readable_info.cpp) is the notice of a block that can be read, and
--                 ConditionNotifier (condition_notifier.cpp) the ring of notices between processes.
--   Data          data/: CacheBuffer (cache_buffer.h), the ring of a channel's latest messages;
--                 ChannelBuffer (channel_buffer.h, data_visitor.h), its readers; AllLatest
--                 (all_latest.h), which fuses two channels into a third ring by a callback of `Fill`;
--                 Dispatcher (data_dispatcher.h, data_notifier.h), the rings and the notifiers by
--                 channel.
--   Discovery     discovery/: Role (role.cpp, config/RoleAttributes.h), Warehouse (both containers of
--                 roles), Graph (graph.cpp), Change (config/topology_change.h, with its bytes), Manager
--                 (specific_manager/manager.cpp), ChannelManager and NodeManager. A manager turns a call
--                 into a message, hands it to its subclass, tells its listeners and sends it to the
--                 other processes. Manager takes the subclass as the record Virtual, which
--                 ChannelManager/Leaving and NodeManager fill; Notices puts both managers together with
--                 it. The channel manager keeps the roles in
--                 four warehouses and the nodes in a graph; a message is a change of that graph.
--   Base          base/: BoundedQueue (bounded_queue.h), a ring between producers and consumers,
--                 AtomicHashMap (atmoic_hash_map.h), a table of sorted buckets, and AtomicRwLock
--                 (atomic_rw_lock.h), a reader-writer lock as the atomic steps of its threads.
--   Croutine      croutine/: a routine with its lock, its state and its flag of updates (croutine.h).
--                 Wakeup puts the loop of a routine that reads a channel (croutine_factory.h)
--                 together with the processor that runs it and the threads that write to the
--                 channel, in atomic steps.
--   Scheduler     scheduler/: ClassicContext (policy/classic_context.cpp), the queues of routines by
--                 group and priority; Processor (processor.cpp), which runs what a context picks;
--                 SchedulerClassic (policy/scheduler_classic.cpp, scheduler.cpp), the tasks by id.
--                 A queue and the map of ids hold the same routines, so both hold pointers into one
--                 store.
--   Blocker       blocker/: Blocker (blocker.h), the newest messages of a channel inside of a process
--                 with the callbacks of its subscribers, and BlockerManager
--                 (blocker_manager.h, blocker_manager.cpp), the blockers by the name of the channel.
--   Time          time/: Rate (rate.cpp, with what it uses of time.cpp and duration.cpp), the pace of a
--                 loop, for what the clock shows at the end of its turns.
--   Common        common/global_data.cpp: the registration of names in hash maps, under ids next to
--                 their hashes.
--
-- Prelude has the shared helpers: Boolean tests on the native numbers, lists under native indices,
-- machine words with their wrap-around, the integers of the locks, chains of options, membership, and
-- association lists, which stand for the maps of the standard library. Tests has the theorems at
-- concrete inputs.
--
-- Numbers are natural numbers; 32-bit and 64-bit arithmetic has its remainder written out where it can
-- wrap. Each call that the code guards by a lock is one step. Loops run on fuel where they are not
-- structural. LevelTraverse has fuel for two more than the edges of the graph, since each turn takes
-- one entry off the queue and each edge puts in one at most, once. The search for a free block
-- runs on the list of what happens at its turns. The loop of FetchMulti
-- has fuel for one more than the values it reads. `reserve` has fuel for two more than the bytes that it
-- needs, since each turn makes the capacity larger. The search for the id of a name has fuel from the
-- caller, and is enough where it comes to a free id. The loop that trims a blocker's queue has fuel for
-- its length. A call of Listen runs on the list of what it finds in the memory
-- at its turns. The others are structural. The loops of the reader-writer lock are steps of a thread
-- that a schedule repeats, and a removal of a routine that a processor holds answers `waiting`.
--
-- Not modelled: the RTPS library and the glue to it, shared memory and sockets of the system, threads,
-- the class loader, logging, and the reading of configuration files, which are calls of the system or
-- of other libraries; the switch of stacks between routines and the pinning of threads; and the
-- topology manager above the two managers, the dispatchers of the transport, and the clock.
-- Of the bounded queue and the hash map, the interleavings of several threads are left out, and of
-- the queue the calls that wait.
pub mod Prelude
pub mod Base
pub mod Blocker
pub mod Common
pub mod Croutine
pub mod Data
pub mod Serialize
pub mod Scheduler
pub mod Shm
pub mod Transport
pub mod Time
pub mod Discovery
pub mod Tests
