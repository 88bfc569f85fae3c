-- ===== src/Lib.antt =====
-- The HTTP API gateway: an epoll reactor takes connections, an incremental parser turns bytes into
-- requests, filters and a circuit breaker admit them, a router and a load balancer choose a
-- backend, and the request is forwarded to it.
--
-- Parts:
--   Http.Text, Http.Request, Http.Message  the helpers and the one-shot parser of
--     src/http/parser.cpp, src/http/request.cpp and parse_int_safe of src/utils/utils.cpp
--   Http.Parser  the state machine HttpParser of src/http/parser.cpp: Parser.State its variables,
--     Parser.Lines the request line and the headers, Parser.Bodies the two kinds of body,
--     Parser.Process the dispatch loop and `parse`
--   Core.Config, Core.Router  src/core/config.cpp and src/core/router.cpp
--   Core.Loader  the JSON parser and `load_json` of src/core/config_loader.cpp
--   Core.Gateway  `process_request` and the internal endpoints of src/core/gateway.cpp; it puts
--     together the filters, the router, the balancer, the breakers and the proxy. Gateway.Splicing
--     is what it does with the text of a response, Gateway.Accepting the table of the connections,
--     Gateway.Collecting the backends of all routes
--   Http.Response  src/http/response.cpp
--   Filter.Chain  the filters' interface, src/filter/request_id_filter.cpp and logging_filter.cpp
--   Proxy.HealthChecker  src/proxy/health_checker.cpp
--   Net.Connection  the state machine of src/net/connection.cpp over the buffer and the parser;
--     Connection.Runs follows it over any sequence of events
--   Net.EventLoop  src/net/event_loop.cpp: the deferred tasks, the registrations and the timeout;
--     EventLoop.Running the callbacks and the loop
--   Net.TcpServer  src/net/tcp_server.cpp and create_listen_socket of src/net/socket.cpp
--   Utils  recv_all_request of src/utils/utils.cpp
--   Startup  the command line of src/main.cpp; BackendWorker  backend/backend_worker.h
--   Timer  the timers of src/timer/timer.cpp: Timer.Ticking what a round runs, Timer.Cancelling
--     sequences of calls, Timer.Waiting the timeout that the event loop asks for
--   Logger  src/logger/logger.cpp; Logger.Async  src/logger/async_logger.cpp: Async.Flushing writes
--     a buffer out, Async.Stepping is a step of the thread, Async.Runs and Async.Stopping sequences
--     of steps
--   ThreadPool  the queue of src/utils/thread_pool.cpp
--   Net.Buffer  the byte buffer of src/net/buffer.cpp
--   Monitor.Stats  the counters of src/monitor/stats.cpp
--   Filter.RateLimit  the token buckets of src/filter/rate_limit_filter.cpp
--   Proxy.CircuitBreaker, Proxy.LoadBalancer  src/proxy/circuit_breaker.cpp and load_balancer.cpp
--   Proxy.BackendConnection, Proxy.BackendPool, Proxy.Forwarding  src/proxy/backend.cpp,
--     backend_pool.cpp and proxy.cpp; BackendPool.Sharing runs the pool's critical sections in
--     any order
--   Prelude  the shared helpers: texts as lists of bytes, association lists for the unordered
--     maps, loops on fuel, decimal numbers
--
-- State is a record and each operation a function from the state to the new state and the result.
-- An operation that takes a mutex is one step. Time is an argument: nanoseconds of the steady
-- clock. `size_t` is 64 bits wide where it can wrap.
--
-- Fuel: a round of the timers has one turn more than there are entries. The loop of `process` is on
-- fuel that the caller gives, since the source's loop need not end; `none` says that the fuel ran
-- out. The loops inside it have one round more than there are pending bytes. The loops of the
-- configuration loader are on the fuel of its `Start`, since they need not end either; `hanging`
-- says that it ran out. A connection passes its fuel on to the parser and has as many rounds of its
-- own.
--
-- Parameters: `std::sort`, `std::push_heap` and `std::pop_heap`, by what they promise; the draw of
-- the random generator; what `readv`, `write`, `fopen` and `rename` return; what a callback of the
-- event loop does. What the system answers to calls in a loop is a list with one answer for each
-- round that asks; `none` says that the list ran out. A poll that times out ends the loops on a
-- backend's socket. Token counts are exact numbers of billionths, where the source has doubles; an
-- average is kept as its sum and its number, and how a stream prints it is an argument.
--
-- Undefined behaviour is a result of its own, in the asynchronous log and in recv_all_request.
--
-- Not modelled: the system calls themselves, threads and condition variables; the calls of
-- `Gateway::run`, `TCPServer::start` and `main` that build the parts and register their callbacks;
-- the main functions of the test backends. Requests that run in several threads are taken one
-- after the other.
pub mod Prelude
pub mod Proxy
pub mod Timer
pub mod BackendWorker
pub mod Startup
pub mod Utils
pub mod ThreadPool
pub mod Logger
pub mod Http
pub mod Core
pub mod Net
pub mod Monitor
pub mod Filter
