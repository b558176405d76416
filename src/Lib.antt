-- ===== src/Lib.antt =====
-- yk_server: a server framework in C++ with coroutines. This library models eleven of its parts.
--
-- ByteArray (yk/bytearray.h, yk/bytearray.cc, yk/endian.h): a chain of nodes of one size with a
-- position, on which integers and strings are written and read. ByteArray/State.antt has the object:
-- `m_root` and the nodes behind it are the list `nodes`, `m_cur` is an index into it, which is the
-- length of the list for a null pointer. A call is an action on the object that ends with a value,
-- with `std::out_of_range`, or with a step that C++ leaves undefined. ByteArray/Memory.antt has the
-- constructor, `clear`, `addCapacity`, `write`, both `read` and `setPosition`; ByteArray/Typed.antt
-- the integers, zigzag, varints and strings (`writeFint16` is `write_fuint16` on the pattern of 16
-- bits, and so on); ByteArray/Export.antt the iovec buffers, files and strings. Layout.antt says
-- when an object is valid, Contents.antt what bytes it holds, and WriteLoop, ReadLoop, Transfer,
-- Reading, Sequence and Append how the operations change them.
--
-- Timer (yk/timer.h, yk/timer.cc): timers ordered by their next time, kept in a std::set of pointers.
-- Timer/State.antt has the timers at their addresses and the set as the list of pointers in its
-- order, with the operations of std::set by its comparator; Timer.antt has `addTimer`, `cancel`,
-- `refresh`, `reset`, `getNextTimer` and `listExpiredCb`. The clock's answers and the addresses of
-- new timers are arguments. What a lock covers is one step.
--
-- Protocol (yk/protocol.h, yk/protocol.cc, rock/rock_protocol.h, rock/rock_protocol.cc): requests,
-- responses and notices, which are written to a ByteArray behind a header of 8 bytes.
-- Protocol.antt has the messages, `serializeToByteArray`, `toByteArray`, `parseFromByteArray` and the
-- checks of `RockMessageDecoder::parseFrom`; Protocol/Decoder.antt has `serializeTo` and `parseFrom`
-- over a stream that carries all bytes, in which a virtual `read` into an array appends to it.
--
-- FdManager (yk/fdmanager.h, yk/fdmanager.cc): the contexts of file descriptors. FdManager.antt has
-- the contexts in a store, `m_datas` as a list of pointers into it, and `get` in the two parts that
-- its locks cover. `fstat` and `fcntl` answer by a record of the kernel's state.
--
-- Stream (yk/stream.h, yk/stream.cc): transfers of a fixed size over a stream that answers each call
-- with a number of bytes, 0 or -1. Stream.antt has the loops on the list of these answers.
--
-- Servlets (http/http_servlet.h, http/http_servlet.cc): which servlet answers a path. Servlets.antt
-- has `ServletDispatch`: the map and the globs as lists of entries; `fnmatch` and the servlets'
-- `handle` are arguments.
--
-- WebSocket (http/ws_session.h, http/ws_session.cc): messages in frames. WebSocket.antt has the head with its
-- bits, `WSRecvMessage` as a loop over the bytes that come in, and `WSSendMessage` as the list of its
-- writes; the byte order, the mask and which writes fail are arguments.
--
-- Scheduler (yk/fiber.h, yk/fiber.cc, yk/scheduler.h, yk/scheduler.cc): coroutines and the queue of tasks. Scheduler.antt
-- has `schedule`, the loop over the queue in `run` (`pick`), and a round of `run` with the switch to a
-- fiber and back; what runs in between, in this thread and others, is an argument. Fibers are numbers.
-- Scheduler/Picking.antt is about the queue, Scheduler/Soundness.antt says what holds between two
-- rounds, and Scheduler/Turns.antt has the turns of a thread at the queue while others use
-- it, and Scheduler/Endings.antt the ways in which a fiber gives the thread back.
--
-- IoManager (yk/iomanager.h, yk/iomanager.cc): which coroutine waits for which event of a descriptor.
-- IoManager.antt has the table of contexts with `addEvent`, `delEvent`, `cancelEvent`, `cancelAll` and the
-- handling of a report in `idle`; what epoll answers is an argument. IoManager/Contexts.antt says when a
-- context fits its events, and IoManager/Waiting.antt sees the table as a map from events to waiters.
--
-- Hook (yk/hook.cc): system calls that wait in the scheduler. Hook.antt has `do_io`, `connect_with_timeout` and
-- the sleeping calls as results with traces of what they do (timers, events, yields); the kernel's
-- answers, and how each wait ends, are lists. The context of the descriptor is that of FdManager.
-- Hook/Flags.antt has O_NONBLOCK in `fcntl` and `ioctl`.
--
-- Log (yk/log.cc): the pattern of a log formatter. Log.antt has `LogFormatter::init` with its two loops, over
-- the characters that are left instead of the indices `i` and `n`; Log/Patterns.antt writes patterns.
--
-- Base has the shared helpers: Boolean tests, lists over the native numbers, bits, blocks, and in
-- Base/Ints.antt what becomes of a `size_t` that is returned as an `int`.
--
-- Bounds. A `size_t` is a number without a bound, since sizes of memory stay far below 2 ^ 64;
-- subtraction wraps there as it does in C++ (`sub_size`). Integers that are written and read keep
-- their width, a negative one is its bit pattern. Signed overflow wraps.
-- `readFixSize` and `writeFixSize` return an `int`, which is negative from 2 ^ 31 on. The node count by `ceil` of
-- a double is exact, which holds below 2 ^ 52. Memory is always given; the node size is not 0; `int`
-- offsets in a node need nodes below 2 ^ 31 bytes.
--
-- Fuel. The loops of `write` and `read` get the number of bytes left and take some each round; the
-- walk over nodes in `setPosition` and in the buffers is on the list; `writeToFile` gets the number
-- of nodes and one, `readFromFile` the length of the file and one; a varint gets the room of its
-- array. Each round takes one at least, so that this is enough. The loops of Stream go over the list of
-- answers, and wait where it ends. The loop of `WSRecvMessage` gets the number of bytes that come in and
-- one, of which each round takes two at least. The outer loop of `LogFormatter::init` gets the length of
-- the pattern and one, the inner one goes over the characters. The loop of `do_io` goes over the list of
-- answers.
--
-- Not modelled: the HTTP parsers and the URI parser, which are generated; sockets, threads, the contexts
-- of coroutines, processes, databases and tests, which are input and output over the operating system
-- or libraries; socket streams, the handshake of WebSocket, the output of logs, and configuration.
pub mod Base
pub mod ByteArray
pub mod FdManager
pub mod Hook
pub mod IoManager
pub mod Log
pub mod Protocol
pub mod Scheduler
pub mod Servlets
pub mod Stream
pub mod Timer
pub mod WebSocket
