-- ===== src/Lib.antt =====
-- A model of the smart NIC simulator: its memory path, its RDMA tables and queue pairs, its SR-IOV
-- resource management, its interrupts and its flow control.
--
-- Parts and files. Paths are from the repository's root.
--
-- Memory models how the device reaches host memory and what it keeps there. Host is
-- src/simple_host_memory.cpp: translation through two optional callbacks, the bounds test, and
-- byte reads and writes. Dma is src/dma_engine.cpp and include/nic/sgl.h: single accesses, bursts,
-- scatter-gather transfers and counters, over a host memory that the engine holds as a field.
-- Doorbell is src/doorbell.cpp. DescriptorRing and CompletionQueue are src/descriptor_ring.cpp and
-- src/completion_queue.cpp; Fifo is what they promise, a bounded queue. The rings ring a doorbell
-- and the descriptor ring calls the engine, so a call takes these and gives them back.
--
-- Rdma models include/nic/rocev2 and src/rocev2. Wqe has the records and enumerations, Psn the
-- 24-bit packet sequence numbers. QueuePair is queue_pair.cpp: Work has modify and the two work
-- queues, Reliable acknowledgements, timeouts and sequence numbers. CompletionQueue, PdTable and
-- MrTable are completion_queue.cpp, protection_domain.cpp and memory_region.cpp.
--
-- Sriov models virtual_function.cpp, pf_vf_manager.cpp and mailbox.cpp of src. Bitmap is the
-- search and the marking that the manager has twice, for queues and for vectors.
--
-- In Rdma, Packet is the packets of src/rocev2/packet.cpp: Icrc the checksum, Headers the formats,
-- Builder and Parser the two classes. The bit field library is a git submodule, so its calls are a
-- parameter, the record BitFields, whose promise (what is written is read back, in the size of the
-- format) is the record IsLawful; Tests/BitFields is a library that keeps it. Transfer, SendRecv,
-- Write and Read are src/rocev2/send_recv.cpp, rdma_write.cpp and rdma_read.cpp. A processor's methods change the
-- processor, the host memory and the region table that it refers to, and the queue pair that they are
-- given: the record Site has all of them, and a method gives it back.
--
-- Reliability and Congestion are the two managers of src/rocev2/congestion.cpp. The source computes
-- with doubles: the operations on them are a parameter, the record Floats. What the bounds of the
-- rates rely on is the record FloatLaws of Congestion/Rates, laws of the single operations that IEEE
-- 754 doubles keep, as the fixed-point numbers of Tests/Congestion do. Engine is src/rocev2/engine.cpp: the record RdmaEngine has the
-- tables, the processors and the packets to send. A handler of a packet or of a work request takes
-- the engine, the key of the queue pair in its map and the queue pair, and stores the queue pair
-- again under that key; Resources, Posting, Incoming and Clock have the methods of the class.
--
-- Queue models the data path. Checksum is src/checksum.cpp. Descriptor is include/nic/tx_rx.h, where
-- the layout of the two structs in memory is a parameter, the record Layout. Pair, Pair/Receive and
-- Pair/Transmit are src/queue_pair.cpp: the record QueuePair has the pair's rings and completion
-- queues and, as fields, the objects that it refers to. The loop of build_segments runs on as many
-- rounds as the packet has bytes, which Pair/Segments shows to be enough.
--
-- Rss models src/rss.cpp: the Toeplitz hash, the table and the counters. Rss/Toeplitz has the hash of
-- sequences of bits, and Rss/Selection the calls.
--
-- Flow models src/flow_control.cpp: Frames is the PAUSE and PFC frames with their parsers, Pause
-- the manager of classic PAUSE flow control.
--
-- Interrupt models src/msix.cpp as Msix and src/interrupt_dispatcher.cpp as Dispatcher, with the
-- deliver callback as a list of the batches handed to it.
--
-- How the code is read. A class is a record of its members and a method a function of the same
-- name from the record to its result and the new record. An enumeration is a data type. A
-- fixed-width integer is a natural number and its wrap-around is written out by add64, add32,
-- sub32 and the like (Base/Words), at the places where the value can reach the width. A
-- std::vector or a std::deque is a list, a std::unordered_map an association list (Base/Assoc), a
-- std::optional an Option, a callback a function. A caller's buffer is passed in and given back.
--
-- Loops are structural: over the list, over the number of beats or bits left, or, for the waiting
-- loop of send_and_receive, over the polls that the clock allows, with what others do in each
-- sleep. No model runs on fuel that could run out.
--
-- Runs. QueuePair/Run, Manager/Run, Mailbox/Run, Congestion/Rates, Reliability/Retries and
-- Engine/References/Calls, and Rss/Selection, have a data type of calls, a step function and the run of a list of
-- calls, and state what holds after any list.
--
-- Not modelled: trace and log calls, the other managers of flow control, the queue
-- manager, PTP, registers, and the driver. A handler of the mailbox is a function of the message alone, so one that calls the mailbox
-- again is outside, and the inboxes are served in the order of the list.
pub mod Base
pub mod Flow
pub mod Interrupt
pub mod Memory
pub mod Rdma
pub mod Queue
pub mod Rss
pub mod Sriov
pub mod Tests
