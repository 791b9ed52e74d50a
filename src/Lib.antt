-- ===== src/Lib.antt =====
-- A model of FluentNet, a header-only TCP library in C++14 whose connections are driven by epoll
-- and by futures on a single-threaded looper.
--
-- The parts, and the files that model them:
-- * include/network/Buffer.h is Buffer: a byte buffer as a storage with a capacity and the
--   indices r and w. Buffer/Memory has memcpy, memmove and resize on lists, Buffer/Contents the
--   invariant and the bytes held, Buffer/Io the operations that move bytes, Buffer/Queue the
--   comparison with a queue of bytes.
-- * include/utils/Algorithms.h is Algorithms: roundToPowerOfTwo on 32-bit patterns, which Buffer
--   grows by.
-- * include/policy/MultiplexerPolicy.h is Events: the interests of a connection and the epoll
--   operation that follows from them.
-- * include/network/Context.h, include/policy/NetworksPolicy.h and include/policy/SendPolicy.h
--   are Context: the state of a connection, send and shutdown. Code on a connection is a state
--   monad with exceptions, M; what it changed before an exception stays. A World is the context
--   with what the kernel was told.
-- * include/handler/HandlerBase.h and include/handler/Handler.h are Handler: what the events
--   reported by epoll do to a connection. The callbacks of the application are arguments.
-- * include/utils/WeakReference.h is WeakReference: which slots of a container can be used again;
--   include/network/Pool.h is Pool: the slots that own the connections. The collector is generic
--   over isReusable, the pool fills it in; the states of the connections and the guards on them
--   may change between two calls.
-- * include/future is Futures: ControlBlock.h, Promise.h, Future.h and makeFuture of Futures.h as
--   shared states in a store, Looper.h as the queue of the coroutines. Futures/Blocks, Calls and
--   Once follow the state machine, Queue and Turns the queue, Unroll the unrolled loop, Delivery
--   a value on its way through then.
-- * include/future/FuturesInternal.h and whenN of include/future/Futures.h are Gather: the
--   closure that polls several futures, as a function of its captured state and the shared
--   states; Gather/Scan has what a poll finds, Gather/Found which futures the results are of and
--   the sort by their number.
-- * include/network/Multiplexer.h is Multiplexer: tokens, and the vectors that the events of
--   epoll are put into (its update is in Context, which calls it).
-- * include/utils/StringUtils.h is Strings: split and toDec; Strings/Join has the round trip of
--   split, Strings/Print std::to_string and its round trip with toDec.
-- * include/network/Socket.h is Socket: the ownership of descriptors; Socket/Calls has the
--   options and the system calls (its write and shutdown are in Context).
-- * include/network/InetAddress.h is Address: an address in the order of the network, its text,
--   and what is read from a text; Address/RoundTrip has the round trip.
-- * include/network/Connector.h is Connector: the closure that the looper polls until an attempt
--   to connect is over. A poll is a function of the shared tuple and of what the kernel answers
--   to socket, connect and getpeername. Connector/Attempts has what an attempt comes to, Progress
--   when it is over, Descriptors what becomes of its sockets.
-- * include/network/Acceptor.h is Acceptor: the listening socket and the connection that it keeps
--   until it is asked for.
-- * examples/http is Http: Request.h, Stream.h and Parser.h in Http, with Rounds for the loop of
--   the parser on any bytes, Parsed for a well made request line, Refusals for a line that is
--   none; Response.h in Http/Response, with Reading for what a client makes of it; the callbacks
--   of Server.h in Http/Server.
-- * include/app/Server.h, include/app/Client.h and handleEvents of include/handler/Handler.h are
--   Reactor: the members that both have, the reports of epoll with their connections, and one
--   batch. Reactor/Servers has the batches and runs of servers and clients, Tables the slots as a
--   table of addresses, Safety what a batch keeps, Batches a batch of a server, Runs a whole run,
--   Clients and ClientRuns those of a client. What a server calls in one thread is in the order
--   of the code; the inputs of a batch are what the kernel answers and whether a callback stops
--   it.
-- * Handler/Tracking is the registration of a connection with epoll, through every handler;
--   Handler/Refusal a connection that epoll refuses. Handler/Accounting has the books of the
--   output side, Handler/Accounting/Telling what epoll was told last.
-- * include/utils/Algorithms.h, the functions on bits, is Algorithms/Bits; whenAll of
--   include/future/FuturesInternal.h is Gather/All; wait of include/future/Future.h is
--   Futures/Waits; what is printed for the log is Events/Info and Context/Info.
-- * include/utils/ThreadPool.h is ThreadPool: the tasks, the threads and their steps as
--   functions, and the pools that any interleaving of them reaches as an indexed type;
--   ThreadPool/Workers has what the threads do, ThreadPool/Fairness the invariant.
-- * include/utils/FastIo.h is FastIo: a buffer of lines as a function from positions.
--   FastIo/Search has the searches for the end of a line, FastIo/Lines getline.
-- * include/throws is Errors: the exceptions as values; Errors/Messages has their texts.
--
-- A handler calls Context and Buffer as the code does; Buffer calls Algorithms. The calls of the
-- kernel (readv, write, epoll_ctl) are not in the repository: their answers are arguments of the
-- operations, and a theorem that needs it assumes that write takes at most the bytes that it is
-- offered.
--
-- Machine integers: size_t indices of SendPolicy wrap at 2^64; the ssize_t members of Buffer are
-- natural numbers, exact while r <= w <= capacity, which the operations keep. A buffer is asked
-- to hold at most 2^30 bytes: beyond that the int of roundToPowerOfTwo overflows, which C++
-- leaves undefined.
--
-- Loops: the loop of handleWriteComplete recurs on the queue that it empties, and that of
-- handleEvents on the reports; no fuel is needed; split has the length of the text as fuel, and
-- each round of it takes a character; to_string has n + 1 rounds for n, and each divides by ten;
-- a binary search of FastIo has as many rounds as its range has positions, and each that does not
-- end it makes the range smaller; highestBitPosition looks at 32 bits, as its loop does; a run of
-- a server goes as far as its inputs; the loop of the HTTP parser has three rounds, as many as it
-- makes at most (Http/Rounds). A poll of a future runs from one yield to the next, so a poll that
-- never ends is a coroutine that stays in the queue.
--
-- Not modelled: logging (include/logger, a copy of dlog), coroutine switching (include/coroutine,
-- a copy of co; a coroutine of the looper is modelled by the request that it runs, from one yield
-- to the next, and an exception ends the round), the type traits of include/future, hash and
-- random of include/utils/Algorithms.h, the files of include/utils that are not named above, a
-- poll by another thread on a multiplexer that is shared, the programs under bench, and those
-- under examples but for examples/http.
pub mod Prelude
pub mod Errors
pub mod Algorithms
pub mod Buffer
pub mod Events
pub mod Context
pub mod Handler
pub mod WeakReference
pub mod Pool
pub mod Futures
pub mod Gather
pub mod Multiplexer
pub mod Strings
pub mod Socket
pub mod Address
pub mod Acceptor
pub mod Connector
pub mod Http
pub mod Reactor
pub mod ThreadPool
pub mod FastIo
