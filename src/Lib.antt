-- ===== src/Lib.antt =====
-- CoroRPC: a verification library for the RPC framework of this repository (rpc_src).
--
-- Parts and files.
-- - Base: shared names, Boolean tests, lists and 64-bit words over the native numbers.
-- - Protocol: the wire protocol, rpc_src/protocol.
--   Wire models `PutU16` to `GetU64` of frame.cpp and rpc_metadata.cpp, at any width.
--   MessageType and Frame model the types of frame.h and `BuildHeader`; Frame/Header reads the header
--   back. Metadata models rpc_metadata.cpp. Encoder models `FrameEncoder`, Decoder `FrameDecoder`.
--   Decoder/Buffer is about the buffer, Decoder/Headers about `DecodeHeader`, Decoder/Spec is a
--   stateless parser of frame streams, Decoder/Refine compares the decoder with it, Decoder/Sound
--   relates its frames to the encoder, and Decoder/Session models a reader's calls.
--
-- - Transport: the client's side, rpc_src/transport.
--   Status models `CallStatus` (multiplexed_connection.h) and the values of `RpcStatus` that are tested.
--   Breaker models the circuit breaker of rpc_client.cpp: the packed control word, `Allow`, `Record`
--   and `Open`. Breaker/Control is about the word and the window, Breaker/Laws about one call and the
--   invariant, Breaker/Recovery about histories of calls. A permit is the control word that `Allow`
--   leaves, and `Record` compares its generation with the current one.
--   Connection models `MultiplexedConnection` of multiplexed_connection.cpp, as operations between the
--   waits of its coroutines: Connection/Calls the two `Call`s, Connection/Closing the ends of a
--   connection, Connection/Reader and Connection/Writer the two loops, Connection/Opening `Attach` and
--   `Connect`. Connection/Valid has the invariant, and Connection/Invariant and Connection/History its
--   proofs. Connection/Settle and Connection/Ends are about completing all calls, Connection/Starts and
--   Connection/Answers about one call, Connection/Batches about the writer, Connection/Progress about
--   the fuel of the reader and Connection/Drains about a drain that does not end. The reader uses the
--   decoder of Protocol, and the calls its encoder.
--   Dispatcher models `ServiceDispatcher` of service_dispatcher.cpp: the method table, its updates and
--   the lookup cache of a thread. Dispatcher/Tables is about keys and the table, Dispatcher/Cached about
--   the cache. A server's requests carry the metadata that Protocol decodes.
--
-- - Server: the server, rpc_src/transport/rpc_server.h and rpc_server.cpp.
--   Server has the data of `RpcServer`, with one network shard. Closing models `Abandon`, the
--   closing of connections, `MaybeFinishDrain` and `StopNow`; Finishing `QueueFrame`, `Finish`,
--   `FinishIdempotent`, `OnWorkerCompletion` and `Cancel`; Checks, Verdicts and Admission
--   `OnFrame`; Lifecycle `AttachConnection`, `BeginDrain` and the batches of the writer; Keys the
--   key of an idempotent request. Valid has the invariant, Invariant, its children and History its
--   proof. Answers is about `Finish`, Replay about requests whose key is known, Stale about late
--   reports, Drains about a drain during a write and Keys/Injective about keys. Its requests carry
--   the metadata and frames of Protocol, and its handlers are those that Transport/Dispatcher
--   dispatches to. An executor is what its `TrySubmit` answers and, later, any report of a worker.
--
-- - Runtime: rpc_src/runtime.
--   MpscQueue models the lock-free queue of mpsc_queue.h, with the nodes linked in a memory and the
--   accesses of its producers as single steps. MpscQueue/Chains is about linked lists and the loop that
--   reverses one, MpscQueue/Fifo about a producer's step, MpscQueue/Pops about a pop and MpscQueue/Runs about all
--   interleavings. Tasks reach
--   a coroutine through it.
--
-- - Task: batches of tasks, rpc_src/task.
--   Join models how `CoScope::Dispatch`, `CoScope::Join` (co_scope.h, co_scope.cpp) and `CompleteTask`
--   (task_complete.h) share a `Gather` (task.h) in semaphore mode, one access to shared memory at a
--   time and in any order. Join/Safety is about when `Join` returns.
--   CoroResult models `CoroResult<void>` of rpc_src/runtime/coro_result.h, by which a coroutine waits
--   for the routines it starts, and CoroResult/Waits is about what the waiting coroutine sees.
--
-- State and operations. A C++ object is a record, and a method a function to the new record and its
-- result. A byte string is a list of numbers below 256. An output parameter and an `*error` string are
-- arguments and parts of the result; `none` is a null pointer. Arithmetic on `std::size_t` that could
-- wrap around is written with its modulus (`sub64`, `add64`). Memory allocation succeeds.
--
-- Fuel. `next_loop` takes two rounds, since a call decodes at most one header. `poll` takes one more
-- round than there are bytes, since a frame has at least 32. Both are proved to suffice. `allow_loop`
-- takes one round, unless the breaker is being opened by another thread. `drain_loop` takes one round,
-- since a finished drain has no call left to complete; `deliver` one more than there are bytes at hand
-- and in a header; `run_writer` two. `reverse_nodes` takes one round for each node, and `to_string` has
-- twenty digits, as many as a 64-bit number.
--
-- Not modelled: the coroutine runtime and its assembly, sockets and epoll, ZooKeeper discovery and
-- registration, and the lock-free task pool: they are I/O, scheduling and memory reclamation. Of
-- the server, the threads of its executors and further network shards are left out, with the
-- contexts of its handlers. Of tasks, the condition variable in place of the semaphore, the
-- exception that `Join` rethrows, and the storage of a task. Of the client, the circuit breaker and
-- the connection are modelled. The steps of one call of the breaker have no steps of other threads
-- between them. A coroutine that a connection resumes runs as a later operation, where the code
-- switches to it at once. Where a connection fails inside a call that is still running, the
-- exception of `Resume` is modelled up to the connection it leaves; what the coroutines do with it
-- belongs to the runtime. Vendored code (nlohmann JSON, ZooKeeper) is not part of the program.
pub mod Base
pub mod Protocol
pub mod Runtime
pub mod Server
pub mod Task
pub mod Transport
