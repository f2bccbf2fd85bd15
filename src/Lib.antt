-- ===== src/Lib.antt =====
-- luce, a C++20 network library: coroutines over epoll, an HTTP server, an RPC server and
-- client, and the codecs, buffers, queues and timers below them. This library models its parts
-- and proves what makes them correct. Paths are from the repository's root.
--
-- The parts and their files:
--   StringUtil   luce/common/string_util.cpp: Join, Split, Trim, Replace, Contains and the two
--                affix tests, as join, split, trim, replace, contains, starts_with and ends_with.
--   Http.Request, Http.Response, Http.Context, Http.Router
--                luce/net/http: HttpRequest::Parse splits a request with StringUtil; a Router
--                finds the handler of a method and URL in a table; the handler writes an
--                HttpResponse through its HttpContext. A method that changes its object returns
--                the changed object.
--   Http.Server  luce/net/http/http_server.cpp: OnRequest, the loop over the requests of a
--                connection, which reads with Io, parses with Http.Request and answers through
--                Http.Router.
--   Codec.NetInt, Codec.TinyPb
--                luce/net/util.h and luce/codec/tinypb_coder.cpp: the TinyPB packet.
--   Codec.Serializer, Codec.TypeHelper, Codec.Overloads
--                luce/codec/serializer.h and type_helper.h: a buffer with a read position, the
--                traits of a type, and which overloads of serialize and deserialize a type has. A
--                type is a code Ty, which El takes to its values.
--   Io           luce/io/io_awaiter.cpp and the packet loops of luce/net/rpc/rpc_client.h, over
--                the list of what the kernel's read and write return.
--   Rpc          luce/net/rpc: a call goes through Serializer, a packet, the server's table of
--                bound functions, and back. Rpc.Client is rpc_client.h from the constructor to
--                NetCall, and Rpc.Server the loop of rpc_server.h, both over the streams of Io.
--   Pool         luce/io/io_buffer.cpp: IOBuf and BufPool.
--   Queue        luce/common/blocking_queue.h, as steps that the mutex keeps whole.
--   ThreadPool   luce/common/thread_pool.h: the pool with one queue, its workers and Shutdown, as
--                the steps of threads that wait on condition variables.
--   QueuePool    luce/common/blocking_queue_thread_pool.h: the pool with a Queue for each worker.
--   CoPool       luce/co/co_thread_pool.cpp: the pool of coroutines, with stealing; CoPool.Cores
--                is how its workers are bound to cores.
--   Task         luce/co/task.h and luce/co/scheduler.cpp: coroutines that await tasks and
--                events, also in loops, as frames that resume one another. Task.Owners is the
--                Task objects that own the frames.
--   Json         luce/common/json: JObject and ToString; Json.Tagged is a JObject as its tag and
--                its variant, Json.Parser the parser with its index, and Json.Convert ToJSON and
--                FromJson of a class.
--   Timers       luce/timer/timer.h: the heap of timers, Tick, and the removal of a timer.
--   Tcp.Connection, Tcp.Server
--                luce/net/tcp with luce/net/socket.cpp: a connection and its descriptor from its
--                start to its destructor; the server's constructor, its accept loop and its sub
--                reactors.
--   Latch        luce/common/count_down_latch.h: the count and the threads that wait for it.
--   Events       luce/net/event_manager.cpp with luce/net/socket.h: which events of a socket
--                epoll reports, and the coroutines that wait for them.
--   Decimal      numbers in decimal, as std::to_string writes and isdigit and strtol read them.
--   Awaiters     luce/io/io_awaiter.h: the awaiters of read, write and accept, over Events.
--   Table        std::unordered_map with text keys.
--   Prelude      lists, texts, tests on numbers, and Outcome: how a call ends.
--   Tests        runs on concrete input.
-- In each part the file of its name holds the definitions, and its children the theorems;
-- Json.Parser, Json.Tagged, Json.Convert, Queue.Many, ThreadPool.Runs, Events.Loop,
-- CoPool.Cores, Task.Owners, Rpc.Client, Rpc.Server, Tcp.Connection and Tcp.Server are children
-- that hold definitions of their own.
--
-- Conventions. A text is a list of bytes. A call ends with a value, with an exception, with
-- undefined behaviour (a read or write outside a buffer, a destroyed object), with a call of
-- exit, or with the end of the model's fuel. Unsigned numbers that wrap are written with their
-- modulus; the sizes of texts and vectors are taken to fit size_t. LOG_ERROR and its kin only
-- write to a log.
--
-- Fuel: the loop of split has as many rounds as the text has bytes and one more, and each round
-- drops the separator; to_string has the number itself; HeapifyUp has the index, which it
-- halves, and HeapifyDown the number of timers. The JSON parser has twice the text's length and
-- two, and each call and round costs one; reading a value of a text takes less than twice its
-- length. Its loop over comments has the text's length and one: each round but the one back to
-- the front drops a comment. A coroutine takes the steps that its body and the events say: a
-- task that is awaited costs those of its own body and three, an event that is waited for and a
-- round of a loop one. The loops over reads and writes go by the list of results, and say so
-- when the list ends before they do.
--
-- Parameters: the order in which an unordered_map is walked, the text that fmt makes of a
-- format, the functions bound in the RPC server, the methods of a class that is serialized,
-- what the kernel returns from read, write, connect, socket, bind, listen, accept4,
-- epoll_create1, epoll_ctl, epoll_wait and sched_getaffinity, what rand gives, whether a mutex
-- is free when it is tried, whether assert is on, and how a double is printed and read.
--
-- Not modelled: the socket options and ShutdownWrite, which are single system calls; the bytes
-- of a socket address; TcpConnection's and TcpServer's functions that only co_await an awaiter
-- or hand a coroutine to a pool (HandleRequest, Start); when a timer fires on a connection;
-- yield_value and exceptions in a coroutine's body; the futures of the thread pools; the
-- logger, the files and the clock; String::Format and HttpResponse's callers of it, which call
-- fmt. deserialize of std::map and of vector<bool>, and ToJSON of a basic type, do not compile.
pub mod Prelude
pub mod StringUtil
pub mod Table
pub mod Decimal
pub mod Json
pub mod ThreadPool
pub mod QueuePool
pub mod CoPool
pub mod Task
pub mod Awaiters
pub mod Tcp
pub mod Http
pub mod Codec
pub mod Io
pub mod Rpc
pub mod Pool
pub mod Queue
pub mod Timers
pub mod Latch
pub mod Events
pub mod Tests
