-- ===== src/Lib.antt =====
-- mini-net: an HTTP/1.1 short-URL service over an epoll reactor, in C++17.
--
-- The program's parts, from the bottom up. A channel (src/Channel.cc) is what a descriptor waits for,
-- registered with epoll by the poller (src/EpollPoller.cc) of an event loop (src/EventLoop.cc), which
-- also has timers and the tasks that other threads queue. Each of a pool of loops
-- (src/EventLoopThreadPool.cc) runs in a thread of its own. The TCP server (src/TcpServer.cc) accepts
-- connections, gives each to a loop, reads it into a buffer (src/Buffer.cc), and writes what is sent on
-- it as the socket takes it. The parser (src/HttpParser.cc, include/mini_net/HttpParser.h) takes requests
-- off a buffer, a piece at a time; include/mini_net/HttpTypes.h has the requests and responses. The HTTP
-- server (src/HttpServer.cc) has a buffer and a parser for each connection, feeds them what arrives and
-- sends what the handler answers. The service (src/ShortUrlService.cc) keeps codes and URLs in two maps,
-- and the application (src/ShortUrlApp.cc) routes a request to it and fills the response.
--
--   Prelude          shared names, lists over the native numbers, bytes of literals, maps
--   Ctype            the C library's byte and number functions that the program calls
--   Buffer           Buffer; its children prove that each operation is one on the unread bytes
--   HttpTypes        HttpRequest, HttpResponse and its serialize
--   HttpParser       parse and the three stages under it, one function for each branch; Step has them as
--                    one step relation, on which Agree, Waits and Resume build
--   HttpServer       onMessage, onConnection and buildMetrics, on the sharded table of connections;
--                    Exchange is what a message calls for, Wired has it as the application of a TCP server
--   Channel          Channel and EpollPoller; Sync relates the poller's table to the kernel's list, and
--                    Listed is a kernel to run them on
--   EventLoop        EventLoop: Pending has the tasks and the bell, Timers the timers, Rounds the loop
--   EventLoopThreadPool  which loop the next connection is given to
--   EventLoopThread  a thread with a loop of its own: startLoop, threadFunc and stop as steps
--   TcpServer        the table of connections, accept, send, shutdown and close; Writing has
--                    appendAndFlush and flushWrite, Reading handleReadable, Idle sweepIdle and the
--                    destructor's part in the table, Starting start and the rest of the destructor,
--                    Runs the steps of all loops in any order, Ids what they keep of the table and of
--                    the ids, and Held what the application keeps through them
--   ThreadPool       a queue and its workers, as a step relation; Ends has the run of a stopped pool.
--                    The server does not use it
--   MemoryPool       blocks of one size, which the transport makes its connections in
--   TimerWheel       timers that count ticks down; the rest of the program does not use it
--   EchoBench        the load generator: Options has the command line, Requests what it sends, Responses
--                    and Payload how it reads answers, Connections the connections from setup to the exit
--                    code; Connections/Sound, Drains and Echoes are about them
--   ShortUrlService  shorten, lookup, stats, base62, validCode
--   ShortUrlApp      handle and its handlers; Json has jsonExtractString, hex4 and appendUtf8
--
-- A method is a function from the object's record to its new record; camelCase names are written in
-- snake case (retrieveAsString is retrieve_as_string) and lose a leading k or a trailing underscore.
-- A std::string or a range of chars is a list of bytes, numbers below 256, and a literal stands for
-- its UTF-8 bytes. A pointer into a buffer is an index. std::unordered_map is an association list.
-- A uint64_t counter wraps at 2^64; the sizes of objects in memory do not, since they are far below.
-- The clock, what the kernel reports and what callbacks return are arguments: what ::send, readv and
-- accept4 return, call by call, is a list of answers, and a function of the model gives none where the
-- list ends before the code's loop does.
--
-- Threads. What a thread does under a mutex, or a loop in its own thread, is one step, and the steps of
-- different threads come in any order (ThreadPool.Step, EventLoopThread.Step, TcpServer.Runs.Step). In the event loop, what
-- other threads do to it stands between the parts of a round. A connection of the TCP server is an
-- object that outlives its entry in the table, since tasks and callbacks hold it.
--
-- Loops. The rounds of parseHeaders take fuel, one more than the unread bytes, and the switch of parse
-- takes four rounds; each round but the last takes a line, or moves to a later state (HttpParser/Total).
-- The loop of onMessage takes two more rounds than the unread bytes, since a round that goes on from a
-- fresh parser has taken a line (HttpServer/Progress). The search for a free code in shorten has as much
-- fuel as the table has codes, and one; the first round succeeds while the counter is far from its wrap
-- (ShortUrlService/Shorten). base62 and printf's decimals recur on Acc, with no fuel. The loops of the
-- transport recur on the kernel's answers (TcpServer/Writing/Keeps says how many are enough).
--
-- The HTTP server's calls of the transport are a list of outputs, which the transport does when the
-- callback has returned. The source does each at once: it is the same where no send closes the
-- connection; where one does, the source runs onConnection inside onMessage and then reads what that
-- has freed, which the model does not have. The handler is a function on a state of its own.
--
-- The load generator (bench/echo_bench.cc) is a program of its own, a client of this server or of one
-- that echoes. Its kernel's answers are lists in its World, and the readings of its clock are numbered.
-- The loop of refill takes as many rounds as the pipeline has room, drainHttp one more than the unread
-- bytes, since a response has four at least (Responses/Bounds), and the loop over whole echoes as many
-- as the bytes that are left over, since an echo has one at least (Options/InRange). The loop of run has
-- a turn for each return of epoll_wait but those by EINTR, and ends early where epoll_wait fails.
-- getopt_long's options are a list, and strtod a parameter that gives a double: a NaN, an infinity, or a
-- whole number of units of 2^-1074, as each finite one is.
--
-- Not modelled: logging; main's reading of its arguments and wiring; and of the load generator the
-- look-up of the address and the trial connection, whose success is an argument, the warnings, the
-- report with its percentiles in floating point, and the JSON file.
pub mod MemoryPool
pub mod Prelude
pub mod Buffer
pub mod Ctype
pub mod HttpTypes
pub mod HttpParser
pub mod HttpServer
pub mod ShortUrlService
pub mod TimerWheel
pub mod EchoBench
pub mod EventLoop
pub mod EventLoopThreadPool
pub mod EventLoopThread
pub mod TcpServer
pub mod Channel
pub mod ThreadPool
pub mod ShortUrlApp
