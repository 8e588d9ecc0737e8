-- ===== src/Lib.antt =====
-- MSCCL++: GPU-driven communication. Threads on the device push work elements into a FIFO; a proxy
-- thread on the host polls it and calls a handler; an execution plan, read from a JSON file, says
-- which chunks of which buffers each thread block moves. This library models the core of that.
--
-- Trigger: the 128-bit work element, `ProxyTrigger` of include/mscclpp/fifo_device.hpp. The record
-- `Request` holds the arguments of its constructor, `asserted` its assertions, `make_trigger` the
-- constructor, `fields` the bit fields read back, `flip` the flip of the reserved bit in `push`.
--
-- Fifo: the shared memory of a FIFO (include/mscclpp/fifo_device.hpp, src/core/fifo.cc) and the loop
-- of the proxy thread (src/core/proxy.cc). `System` is the memory with a stage for each push, `Step`
-- one access to it; `Reach` lists the steps from `init`. Pushes, syncs, device polls and the host
-- interleave freely. `push` is `claim`, `check`, `sync_load` and `sync_store`, and the stores, either
-- one of 128 bits or two of 64; `Fifo::poll` is `poll_fst` and `poll_snd`, `Fifo::pop` is `pop_clear`
-- and `pop_advance`. The 64-bit counters do not wrap, as fifo_device.hpp argues, memory is sequentially
-- consistent, and a jailbreak of a spin loop is not modelled.
--
-- Proxy: the loop of the proxy thread, `Proxy::start` of src/core/proxy.cc, as one function per iteration,
-- and how `stop` ends it.
--
-- Sync: the synchronisation of include/mscclpp/concurrency_device.hpp. `DeviceSemaphore` is in
-- Sync/Semaphore and `DeviceSyncer` in Sync/Barrier, each as a step relation over its threads or blocks.
-- An `int` is an offset number of 32 bits. Spin loops have no maximum. Sync/Tokens has the tokens of the
-- semaphores between devices, include/mscclpp/semaphore_device.hpp: `begin_wait` and `poll_wait` are the
-- two parts of `wait`.
--
-- Port: the port channel. Port/Device has the triggers that each operation of
-- include/mscclpp/port_channel_device.hpp pushes, and `waitFlush`; Port/Service is `ProxyService` of
-- src/core/port_channel.cc, with the calls of the connections as a list and the answers of
-- `progressFlush` as an argument. `Run` lists what the proxy thread does, one trigger or one call of
-- `progressFlushes` at a time; that triggers come in the order of the FIFO is the theorem of Fifo.
--
-- Packet: the LL packets of include/mscclpp/packet_device.hpp. `Link` is a packet between one writer and
-- one reader, `Reach` their stores and loads of 8 bytes in any order.
--
-- Selector: the choice of an algorithm in src/ext/nccl/algorithm_selector.cc, for one node.
--
-- The execution plan: src/core/executor/execution_plan.cc and its headers. Plan/Types has the enums and
-- the readers of their words. Plan/Sizes has the functions from chunk numbers to byte offsets and sizes,
-- with the scalar fields of `ExecutionPlan::Impl` as the record `Plan`, machine words with their
-- wrap-around, and `throw` and division by zero as values of `Result`. Over records of the JSON fields
-- that are read, Plan/Channels has `setupChannels` with the functions that read its maps, Plan/Buffers
-- `parseRemoteBuffer`, Plan/Operations `setupOperation`, Plan/Document the document and Plan/Load the
-- whole of `loadExecutionPlan` and `lightLoadExecutionPlan`, with `reset` and `operationsReset`. The
-- members of a union of `Operation` are kept apart, and a write past the end of its arrays is a fault.
--
-- Bootstrap: src/core/bootstrap/bootstrap.cc. Bootstrap/Ring has `allGather`, `barrier` and `broadcast`
-- as the actions that each rank has left, and `Runs` as what the ranks can do in any order; a send
-- waits until the socket, with room for `capacity` messages, has taken the message. Bootstrap/Stream
-- has `netSend` and `netRecv` on the bytes of a socket, Bootstrap/Peers the sockets kept for a peer and
-- a tag, Bootstrap/Root the exchange of addresses.
--
-- Communicator: src/core/communicator.cc. Communicator/Futures has the futures that
-- `makeOrderedRecvFuture` makes for one remote rank and tag, which wait for the earlier ones, and
-- Communicator/Local the memories that a rank sends to itself under one tag.
--
-- Memory: src/core/registered_memory.cc. A memory is registered by one process, serialised as bytes and
-- opened by another; `Process` is what the process finds around it, the answers of CUDA included.
--
-- Base: lists, families indexed by number, words of 32 and 64 bits, results and the sums of pieces.
--
-- `wait` of Communicator/Futures takes as fuel one more than the number of the future, which is proved to be
-- enough; no other definition takes fuel: a loop is a step relation or is structural. The CUDA, IB and
-- socket layers, the bindings and the kernels are not modelled: they are calls of libraries or run on the
-- device. The state of `Executor`, and the sockets, contexts, connections and endpoints, are not
-- modelled.
mod Base
pub mod Trigger
pub mod Fifo
pub mod Plan
pub mod Sync
pub mod Port
pub mod Selector
pub mod Packet
pub mod Proxy
pub mod Bootstrap
pub mod Communicator
pub mod Memory
