-- ===== src/Lib.antt =====
-- reechat_base: a library for TCP connections on two event loops (src/*.cpp, *.hpp). The network loop
-- moves bytes between a socket and two ring buffers, the worker loop cuts packets out of what arrived
-- and calls the user's callbacks, and each loop runs the functors that other threads queue for it.
--
-- The parts, and the files that model them:
-- - ByteQueue: what a ring buffer promises, a bounded first-in first-out queue of bytes.
-- - RingBuffer: `RingBuffer` of src/socket_buffer.cpp, one function per method, with its assertions
--   and its two 32-bit counters. RingBuffer/Geometry has the invariant, Contents the bytes held,
--   Writing, Series and Api what the methods do to them, Start the constructor. RingBuffer/Threads
--   interleaves `WriteContent` of one thread with the reading calls of another, copy and all.
-- - Endian: the byte orders of a host, `htons` and `htonl`, and the macro `evppbswap_64`.
-- - SocketBuffer: `SocketBuffer` of src/socket_buffer.cpp and src/socket_buffer.hpp: Grow has the
--   invariant and `grow`, Editing, Taking and Api the editing of the unread bytes, Integers the integers in
--   network order, Io `ReadFromFD`, `Reserve` and `ToText`, Search `FindCRLF` and `FindEOL`.
-- - PoolBuffer: `PoolBuffer` and `UdpPoolBuffer` of src/socket_buffer.hpp.
-- - Frames: the packet format of src/tcp_socket_wrapper.cpp, a length in two bytes and that many bytes,
--   as a relation between a stream and the packets cut from it.
-- - TcpSocket: `TcpSocketWrapper` of src/tcp_socket_wrapper.cpp. Sending has `SendData`,
--   `SendDataWithHead` and `TryWriteBufferToSocket` (proofs in Send, Write, Flush); Receiving has
--   `TryReadDataFromSocket` and `TryProcessBufferedDataInWorkLoop` (proofs in Read, Packets, Rounds,
--   Process, Delivery); Connecting has the functions that connect, accept and close, and Lifecycle the steps
--   that they make in the network loop. Untouched says what the cutting of packets leaves alone. Lifetime has the static event
--   functions, with the helper that they go through, and the destructor; Stream puts a sending and a receiving end together.
-- - EventLoop: `EventLoop` of src/event_loop.cpp with `BaseStatus` and the pipe of src/event_watcher.cpp;
--   EventLoop/Threads interleaves `QueueInLoop` of many threads with the loop's own thread as long as it runs, EventLoop/Drain has
--   the loop of `StopInLoop`, and EventLoop/Counting what `pending_functor_count_` counts.
-- - EventWatcher: `EventWatcher` of src/event_watcher.cpp, the owner of one libevent event;
--   EventWatcher/Attached has what is done to it, in any order, EventWatcher/Pipe the descriptors of
--   `PipeEventWatcher`, and EventWatcher/Timer `TimerEventWatcher`, `SignalEventWatcher` and the handler.
-- - Singleton: `Singleton` of src/singleton.h.
-- - StringHelper: `stringtok` and `Avar` of src/string_helper.h; Spelling says how a text falls into
--   tokens and gaps, Splitting and Tokens what the code makes of it.
-- - ClientTask: `TcpClientTask` of src/tcp_client_task.cpp, which connects again when a connection is lost;
--   ClientTask/Reconnect has the events that reach it, Events what a predicate needs to hold over them, Tries
--   how often it connects, Connections the connections it holds, Stopped what comes after `StopProcess`.
-- - ServerTask: `TcpServerTask` of src/tcp_server_task.cpp, one accepted connection; ServerTask/Verified has
--   the events that reach it, ServerTask/Closing how it closes the connection.
-- - KeepAlive: a client and its server's task at the two ends of a connection: Hello has who says and notes a
--   hello, Chain, Timely, Calls and OnTime when. How long a hello takes, and how often the client is called, are
--   bounds that the network and the program have to keep.
-- - Base: lists as arrays, `memcpy`, words, and the names that all files share.
--
-- How the code is read: a method is a function from the object's state to its next state; `none` is a
-- failed `assert`, an access outside an array or a null pointer followed; a pointer into an array is its
-- index; unsigned integers wrap where it is written out (`add32`, `sub64`). What a system call returned,
-- and the bytes of memory that `new` leaves as it finds them, are arguments. A callback or functor that
-- an object starts is an entry of its list `out`. `event_del` of an event in the base
-- succeeds. A host is 64 bits wide and little- or big-endian.
--
-- Bounds and fuel: a ring buffer has a power of two of at most 2 ^ 31 bytes (the program uses 2 ^ 24);
-- below that no sum of its 32-bit counters is ambiguous. The loop that cuts packets runs on fuel, and one
-- round more than there are bytes is enough; the loop that sends consumes one answer of `send` a round.
-- `stringtok` runs on one round for each byte and one more, which is always enough. The loop of
-- `StopInLoop` needs as many rounds as functors queue others in a chain.
--
-- Not modelled: nested calls of `DoPendingFunctors`, which `StopInLoop` makes, in the interleavings; libevent and webrtc (src/third_party), which are copies of other projects; addresses, the
-- `__APPLE__` block of `ConnectServerInNetworkLoop` and log texts; a callback that calls back into the
-- wrapper while a packet is being handed over; threads other than those of RingBuffer/Threads and
-- EventLoop/Threads, which run between whole accesses in one order that all see.
pub mod Base
pub mod ByteQueue
pub mod RingBuffer
pub mod Endian
pub mod SocketBuffer
pub mod Frames
pub mod TcpSocket
pub mod StringHelper
pub mod Singleton
pub mod PoolBuffer
pub mod EventLoop
pub mod ClientTask
pub mod ServerTask
pub mod KeepAlive
pub mod EventWatcher
