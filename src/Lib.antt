-- ===== src/Lib.antt =====
-- Verification of the data structures, the HTTP messages and their parser, the connections, and the
-- demo protocol of http_in_c, a C library for HTTP servers and clients.
--
-- The program. Bytes come from sockets into an IOBuffer, a block of memory with a stretch of unconsumed
-- data. A parser consumes them and collects the bodies of messages in a BufferChain, a list of
-- IOBuffers; headers and first lines are built in a Cbuffer, a growing contiguous buffer. A synchronous
-- server hands accepted sockets to its workers through a bounded Queue with a mutex and two condition
-- variables. The asynchronous server runs functors from the reactor's FunctorList, a circle of fixed
-- capacity.
--
-- The files.
-- - Prelude: numbers, Boolean tests, lists; Run, the results of C code that may stop at an assertion,
--   touch memory that it does not own or divide by zero; memory blocks and memcpy; text. Circular: indices
--   that go round a circular array.
-- - FunctorList: http_in_c/runloop/functor_list.c (functor_list_new, _add, _size, _remove). Refine
--   relates the circle to the functors that it holds, Calls runs sequences of calls.
-- - EvfdQueue: http_in_c/runloop/evfd_queue.c, the queue through which other threads post to the
--   reactor, with rtor_reactor_interthread_post, rtor_reactor_post and interthread_queue_handler of
--   http_in_c/runloop/reactor.c. Reach is the sequence of calls, Deliver is about the handler. The
--   eventfd's operations are parameters.
-- - Queue: http_in_c/common/queue.c. queue_add and queue_remove are what Queue_add and Queue_remove do
--   between locking and unlocking, one round of the waiting loop; Threads is the step relation of
--   threads that call, wait, are woken and return, Threads.Inv its invariant, Threads.Safety what
--   follows.
-- - IoBuffer: http_in_c/common/iobuffer.c. Laws has validity and adding, Moves the operations that
--   move data, Terminator the place of the terminator.
-- - Cbuffer: http_in_c/common/cbuffer.c, with the allocation strategy. Laws, Append and Moves.
-- - BufferChain: http_in_c/common/buffer_chain.c. Laws has validity and contents; Append, Whole, Move
--   and Compare the operations.
-- - DemoMessage, DemoParser: http_in_c/demo_protocol/demo_message.c and demo_parser.c, the parser's
--   states as an enumeration and DemoParser_consume as a loop over the bytes of its buffer, which
--   returns at a complete message or at the end of the bytes.
-- - DemoConnection: a connection of the demo protocol's server,
--   http_in_c/demo_protocol/demo_connection.c with demo_handler.c and demo_process_request.c.
--   ReadSide and WriteSide have its two sides, Loop the posted functions in the order of
--   rtor_reactor_run, and the events. Shapes are the states between two rounds, Read and Progress
--   the functions from each of them, Reach the step relation; Request and Exchange are about
--   requests one after the other, Served has runs that answer them, Kept, KeptWrite and Crash about
--   a response that does not go out at once, Stuck about a connection after a parse error.
-- - FdTable: http_in_c/runloop/fdtable.c. Count has the count of watchers, Iterate the iterators.
-- - LinkedList: http_in_c/common/list.c, the doubly linked list in a heap of nodes. Front says which
--   sequence a list stands for, Add is about adding in front. The chain of buffers and the header list
--   take lists as sequences.
-- - KvPair, HeaderList: http_in_c/http/kvpair.c and header_list.c, with make_upper of
--   http_in_c/common/utils.c. Find looks lines up by name and removes them, Lines has their text.
-- - Decimal, Message: "%d" and http_in_c/http/message.c, the HTTP message and its text, with the name of
--   a method, which llhttp gives, as a parameter. Buffers has the accessors that work on Cbuffers and the
--   content length.
-- - HttpParser: the callbacks of http_in_c/http/parser.c. Feed runs a list of the calls that llhttp
--   makes. Step, Lines, Pieces, Sections and Phases follow a message through its callbacks; Request and
--   Response are about whole messages, Stream about several, Reprint about serializing what was read,
--   Limits about what goes wrong.
-- - Connection: a connection of the asynchronous server, http_in_c/async/connection_read.c, _write.c,
--   _event.c and _api.c. Loop has the handler of async_handler.c, the loop of rtor_reactor_run over the
--   ready list, and events; Invariant the states that a connection goes through, Progress the
--   functions from each of them, Reach the step relation; Serve and Exchange are about
--   reading requests and writing responses, with drivers that run some rounds of the loop.
-- - SyncConnection: http_in_c/sync/sync_connection.c, the blocking connection with its queue of messages.
--   Read is about several messages in one read and about an error behind a message.
-- - Each component's Tests module has runs on small inputs and an instance of each result.
--
-- Conventions. A pointer into a block is its distance from the start, and a block is a list of
-- bytes. malloc succeeds; the block that it returns is an argument, and Gives says that it has the
-- size that was asked for. int sizes are taken as not negative where callers pass sizes, and int
-- fields that count bytes do not overflow, which they do from 2 GiB on; uint32_t arithmetic wraps.
-- The loop of BufferChain_steal_bufferchain has one more unit of fuel than there are buffers, the
-- loops of List_find and List_destroy one more than the count; that this is enough is part of what
-- is proved of them. The digits of a number have fuel 10, the most that an int has. The loop of
-- sync_connection_read goes over the results of its calls of read, and comes to nothing when they
-- run out. All other loops go over a list. A round of the loop over the ready list takes the
-- results of one recv and one send, of which it uses what the posted function asks for.
--
-- Not modelled: freeing of memory except of list nodes, the tag checks, printing; the vendored
-- llhttp and the copied url_parser.c; sockets, epoll, eventfd and timerfd, whose results are inputs
-- of the connections and of the queue between threads; the registration of descriptors; the
-- servers' threads and their listening sockets.
pub mod Prelude
pub mod Circular
pub mod BufferChain
pub mod Cbuffer
pub mod Connection
pub mod Decimal
pub mod DemoConnection
pub mod DemoMessage
pub mod DemoParser
pub mod EvfdQueue
pub mod FdTable
pub mod FunctorList
pub mod HeaderList
pub mod HttpParser
pub mod IoBuffer
pub mod KvPair
pub mod LinkedList
pub mod Message
pub mod Queue
pub mod SyncConnection
