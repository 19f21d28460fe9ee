-- ===== src/Lib.antt =====
-- flesnet builds timeslices: intervals of the data of many inputs, brought together on one
-- compute node and handed to the workers that analyse them. An input writes microslices into a
-- pair of ring buffers (descriptors and data); an input node sends the microslices of an
-- interval, a component, to the compute node that is due, over a connection on which the two ends
-- exchange how far they have written and acknowledged; or a builder on one machine copies the
-- components itself. The compute node keeps the components in ring buffers in shared memory,
-- announces a timeslice to the item distributor when all components are there, and frees the
-- space when the workers have completed it, in whatever order they do.
--
--   Base: Boolean tests, lists and memories over the native numbers, masks, 64-bit arithmetic
--     with its wrap-around.
--   Ring: lib/fles_core/RingBuffer.hpp and RingBufferView.hpp. A buffer is a function from cell
--     numbers, with its mask; an index is a running 64-bit number.
--   Ack: the completion of positions out of order, the same lines in
--     lib/fles_core/ManagedTimesliceBuffer.cpp, lib/fles_rdma/TimesliceBuilder.cpp and
--     lib/fles_rdma/InputChannelSender.cpp, and with two parts for a timeslice in
--     lib/fles_zeromq/ComponentSenderZeromq.cpp. The loop over the marks has the size of the ring
--     as fuel.
--   ManagedRing: lib/fles_core/ManagedRingBuffer.hpp, a ring buffer with a read and a write
--     index. Its asserts are no branches of the model.
--   TimesliceStore: lib/fles_core/ManagedTimesliceBuffer.cpp and .hpp, which puts whole
--     timeslices into the ring buffers of all inputs. The messages of the distributor are
--     arguments: each poll of the waiting loop has the completions it receives, and the loop ends
--     with the list of polls.
--   MicrosliceStream: lib/fles_core/DualRingBuffer.hpp, MicrosliceTransmitter.cpp and
--     MicrosliceReceiver.cpp: both ends of the buffers of one input.
--   Sender: lib/fles_rdma/InputChannelSender.cpp: the sending of a timeslice from the input
--     buffers, and the events of all connections of an input node.
--   Builder: lib/fles_rdma/TimesliceBuilder.cpp: the events of all connections of a compute node,
--     with the timeslices announced as a log.
--   Distributor: lib/shm_ipc/ItemDistributor.cpp, ItemDistributor.hpp and
--     ItemDistributorWorker.hpp: the handlers of both sockets, with the pointers to an item
--     counted, so that the last holder completes it. A handler has no result where it meets
--     undefined behaviour: an erase inside a loop over the workers, or a division by a stride of
--     zero.
--   Filters: lib/fles_core/Filter.hpp and FilterExamples.hpp: filters between streams, in front
--     of a sink and behind a source; the processing of the derived class is an argument. The loop
--     of put has fuel, and the theorem says how much is enough.
--   Merging: lib/fles_ipc/MergingSource.hpp: several sources merged by index; a source is the
--     list of what it has yet to give.
--   Pattern: lib/fles_core/FlesnetPatternGenerator.cpp, FlesnetPatternChecker.cpp and
--     PatternChecker.cpp: the software pattern generator writes into the buffers of an input as a
--     transmitter does, with as many rounds of fuel as there are descriptors and one more; the
--     clock and the random sizes are arguments.
--   SizedMaps: lib/fles_libfabric/SizedMap.hpp, the map of bounded size in which the schedulers
--     keep their history.
--   Archives: lib/fles_ipc/OutputArchiveSequence.hpp and InputArchiveSequence.hpp: a sequence of
--     files written and read. A file is the list of its items, as the archives of Boost give back
--     what was put into them; fuel is for files that are at their end.
--   Zeromq: lib/fles_zeromq/ComponentSenderZeromq.cpp: the answers of an input node to requests
--     for components, and the acknowledgment of message parts that ZeroMQ has freed.
--   Rdma: lib/fles_rdma/InputChannelConnection.cpp and ComputeNodeConnection.cpp, an operation
--     for each method that moves a position, posts a status message or handles a completion, with
--     the message that it posts as a result; set-up and the request of an abort by the compute
--     node are left out; Rdma/Link puts both ends together, with the calls of
--     InputChannelSender.cpp and TimesliceBuilder.cpp as steps.
--
-- Positions are 64-bit numbers. Sums and differences are written with their wrap-around; that a
-- position does not reach 2^64 is a condition where a theorem needs it.
--
-- Not modelled: logging and monitoring, the calls of InfiniBand verbs, libfabric, ZeroMQ and
-- Boost, the readout card, the applications, and the copied checksum library; the item worker,
-- and the libfabric transport with its schedulers.
pub mod Base
pub mod Ring
pub mod Ack
pub mod ManagedRing
pub mod TimesliceStore
pub mod MicrosliceStream
pub mod Rdma
pub mod Builder
pub mod Sender
pub mod Distributor
pub mod Merging
pub mod Filters
pub mod Pattern
pub mod Zeromq
pub mod SizedMaps
pub mod Archives
