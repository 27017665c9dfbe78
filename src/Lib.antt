-- ===== src/Lib.antt =====
-- A model of the HTTP server in myserver/, a reactor in the manner of muduo, and of small programs
-- beside it, and the theorems on them.
--
-- How the parts interact. A `TcpConnection` (myserver/net/tcp_connection.cpp) reads into a
-- `Buffer` (myserver/common/buffer.cpp) and hands it to `HttpServer::onMessage`
-- (myserver/http/http_server.cpp), which lets an `HttpContext` (myserver/http/http_context.cpp)
-- parse an `HttpRequest` out of it, has the user's callback fill an `HttpResponse` in, renders
-- that into a buffer and sends it. What the kernel does not take at once waits in the connection's
-- output buffer until its `Channel` (myserver/net/channel.cpp) is writable. `EpollPoller`
-- (myserver/common/epoll_poller.cpp) registers channels with epoll, `EventLoop`
-- (myserver/common/event_loop.cpp) runs the callbacks of active channels and the functors that
-- other threads queue, and `TimerQueue` (myserver/common/timer_queue.cpp) the timers. `Acceptor`
-- (myserver/net/acceptor.cpp) accepts connections for `TcpServer`, `EventLoopThread`
-- (myserver/thread/event_loop_thread.cpp) starts a loop in a thread of its own, and
-- `EventLoopThreadPool` deals connections out to such loops. `LogStream` and `FixedBuffer` hold a
-- line of the log.
--
-- The other programs stand alone. `lock_free_stack_7` (cpp_concurrency_2nd/lock_free_stack.cpp) is
-- a stack without locks; the parallel algorithms
-- (cpp_concurrency_2nd/parallel_find_accu_async_for_each.cpp) cut a range into pieces for threads;
-- two quicksorts (cpp_concurrency_2nd/cv_promise_future_packaged_task_quick_sort.cpp) sort a list,
-- one with a task for each lower part; `ts_queue`
-- (cpp_concurrency_2nd/thread_safe_stack_queue.cpp) is a queue whose consumers wait, and
-- `thread_pool_6` (cpp_concurrency_2nd/thread_pool.cpp) a pool whose threads steal each other's
-- tasks; `Spreadsheet` (professional_cpp/src/ch09/Spreadsheet.cpp) owns its cells on the heap;
-- `FizzBuzz`, `FizzBuzz_`, `FooBar`, `FooBar_1` and `FooBar_2` (any/concurrency/) make threads
-- print in turn; any/kmp.cpp searches a pattern; waybar_tomato_clock/ counts work and rest in a
-- status bar.
--
-- Files. Common: bytes, lists, slices of a list, machine words, decimal text. Buffer: the class
-- `Buffer`; its size_t and int arithmetic wraps. Http/Request, Http/Context, Http/Response,
-- Http/Server: the four classes of the HTTP layer; `turn` is one turn of the parser's loop.
-- Poller/Channel, Poller/Epoll: `Channel` and `EpollPoller`. EventLoop: the methods of `EventLoop`
-- on one state, and in EventLoop/Schedule the steps of its thread and of the others. Connection:
-- the handlers of `TcpConnection`. Timers: `Timer`, `TimerQueue`. Acceptor: `Acceptor`, its socket
-- in Acceptor/Registered and the connections that it brings a server in Acceptor/Serving.
-- EventLoopThread: `EventLoopThread` on its `MyThread`; EventLoopThread/HandOver is about
-- `startLoop`, EventLoopThread/Joining about the destructor. ThreadPool: `EventLoopThreadPool`.
-- Log/FixedBuffer, Log/Stream: `FixedBuffer` and `LogStream`. Log/Logger: `SourceFile` and
-- `Logger`. TcpServer: `TcpServer`, which names connections and hands them to loops. LockFree: the
-- atomic accesses of `lock_free_stack_7` as steps; LockFree/Invariant says who holds each node,
-- LockFree/Push, LockFree/Pop and LockFree/Steps what a step does, LockFree/Values what a pop
-- returns, LockFree/History what a run does. Parallel: the cutting of a range and the algorithms
-- over the pieces; Parallel/Find: the threads of `parallel_find`; Parallel/FindAsync: the calls of
-- `parallel_find_async`. QuickSort: both quicksorts. FizzBuzz, FizzBuzz/Atomic: `FizzBuzz` and
-- `FizzBuzz_`, with the rules of the game in FizzBuzz/Game. FooBar, FooBar/Polling,
-- FooBar/Monitor: `FooBar`, `FooBar_1` and `FooBar_2`, with the words meant in FooBar/Alternate.
-- Kmp: `checkPrefixSuffix` and the class `KMP`. Tomato: the main loop of the clock. SafeQueue:
-- `ts_stack` and `ts_queue`, and in SafeQueue/Interface the queue that a pool asks for.
-- WorkStealing: `work_stealing_queue` and `thread_pool_6`. Spreadsheet: the class on a heap of
-- blocks; Spreadsheet/Heap is about the loops of the copy, Spreadsheet/Ownership,
-- Spreadsheet/Swaps, Spreadsheet/Cells and Spreadsheet/Copies about each operation,
-- Spreadsheet/Programs about all of them in a program. A function keeps the name of the method, in
-- lower case; a struct or a class is a record of its fields, an enumeration a data type. The files
-- below a component's folder hold its lemmas and theorems, and Tests its theorems at concrete
-- values.
--
-- Numbers. Sizes and times are natural numbers; where the code's width matters (`size_t`, `int`)
-- the wrap is written out. Theorems on a buffer ask that its size fits an `int`, since `makeSpace`
-- takes one. The offsets of the parallel algorithms are of `size_t`, and their theorems ask for
-- fewer than 2 ^ 63 elements. The counters of `FizzBuzz`, `FooBar`, the string search and the
-- clock are natural numbers: they stay within the inputs, one above them, or, for the counters of
-- `FooBar_1` and `FooBar_2`, within their double, which an `int` is taken to hold. A cell of a
-- sheet is of any type; an address is a natural number that is never given out twice. The number
-- of a connection is an `int`, and to increase the greatest one is undefined behaviour, which is
-- `none` in the model, as a read through a dangling pointer to a timer is.
--
-- Fuel. The parser's loop and the loop over digits run on fuel. A turn of the parser uses up a
-- line, so fuel above the number of header lines, or of readable bytes, is enough; digits need one
-- unit each, and 20 are enough for 64 bits. A quicksort needs fuel for the length of its list,
-- since a part is shorter than the whole; `parallel_for_each_async` and `parallel_find_async` more
-- than the length, since a half is shorter; the fall-back of `checkPrefixSuffix` the length of the
-- string, since a border is shorter than its prefix. Concurrent programs run on a schedule, a list
-- of the threads in the order of their steps, or are a step relation; memory is sequentially
-- consistent, as the atomics of these programs are by default.
--
-- Parameters. The answers of `socket`, `bind`, `listen`, `accept4`, `readv`, `write` and
-- `epoll_wait` and the readings of the clock are arguments, `epoll_ctl` a record with the
-- behaviour that its manual documents, failures for want of memory and the like included. The
-- order in which an `unordered_map` is visited is an argument, and so is the user's callback.
-- `std::partition` is a parameter with the laws that the standard gives it, and so are the order
-- of the elements, their sum, and whether an element matches. The bytes of the clock's FIFO are
-- arguments. `thread_safe_queue`, which thread_pool.cpp uses and no file declares, is a record
-- with the laws of a queue, which `ts_queue` meets.
--
-- Not modelled. Socket options, addresses, the names and ids of threads, and floating point
-- output, which are calls of the system or of stdio; the other stacks of lock_free_stack.cpp, of
-- which most lack the definitions that they use; the earlier pools of thread_pool.cpp and its
-- interruptible threads; calls of `run_pending_task` by tasks and by threads outside
-- `thread_pool_6`; what a data race may do beyond the value that is read, where the code has one,
-- at `old->next` in `lock_free_stack_7` and at the vector of queues in `thread_pool_6`; every
-- directory beside myserver/ that no file here names, which are exercises and demonstrations.
pub mod Common
pub mod Acceptor
pub mod Buffer
pub mod Http
pub mod ThreadPool
pub mod Log
pub mod Poller
pub mod EventLoop
pub mod EventLoopThread
pub mod Connection
pub mod Timers
pub mod TcpServer
pub mod LockFree
pub mod Parallel
pub mod QuickSort
pub mod FizzBuzz
pub mod FooBar
pub mod Kmp
pub mod Tomato
pub mod Spreadsheet
pub mod SafeQueue
pub mod WorkStealing
