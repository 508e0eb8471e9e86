-- ===== src/Lib.antt =====
-- Nexus-Gateway: an HTTP reverse proxy. A master process forks workers; each worker accepts
-- clients on an epoll loop, parses one request for each connection, refuses it by address or by
-- rate, picks a node of the upstream, rewrites the headers, and passes the request to the node
-- and the node's answer back, or sends a file. This library models the worker and the parts that
-- it calls, the master's reload and restarts, and the two together as processes.
--
-- The files and the code:
-- - Util, Util/Atoi, Util/Decimal, Util/Alloc: the hash, the clock's readings and the allocation
--   of src/util.c, the letter case of src/http_header.c, and `atoi` and `%d` of the C library, as
--   the code uses them.
-- - Headers (Headers/View): src/http_header.c. A table is the list of its entries. The view is
--   what the next hop reads under a name.
-- - Parser (Parser/Loop, Bounds, Fuel, Resume, BodyPieces, Chunks, Serialize, Lines, Sendable,
--   RoundTrip): src/http_parser.c. `feed` is nexus_http_req_feed, on the bytes of one call; one
--   round of its loop is `feed_round`, and one line `feed_line`. Chunks is about a request that
--   comes in several reads.
-- - Rewrite (Rewrite/Id, Script, Writes, Sound): src/http_rewrite.c. The rewriting is a sequence
--   of sets; `last_value` says what such a sequence leaves under a name.
-- - Upstream (Upstream/Gcd, Best, Ledger, Settle, Fairness, Cycle, Failover): src/upstream.c.
--   `pick` is nexus_upstream_pick: the field active_conns is the credit of smooth weighted round
--   robin.
-- - Health (Health/Streak, Unpicked, Thread): the checker's rounds of src/health.c and its
--   thread; what a probe finds is an argument.
-- - RateLimit (RateLimit/Bucket, Table, View, Shared, Clients): src/rate_limit.c. View reads the
--   table as a map from addresses to buckets, Shared says what a request does to the map, and
--   Clients follows many clients over time.
-- - Blacklist: src/blacklist.c, and the part of src/worker.c that fills the list.
-- - Connection (Connection/Pool): src/connection.c.
-- - Config (Config/Bounds): src/config.c, from the bytes of the file.
-- - Log (Log/Lines): src/log.c. A file is what was appended to it.
-- - Proxy (Proxy/Sent), Acceptor (Acceptor/Peer), EpollLoop, Main: src/proxy.c, src/acceptor.c,
--   src/epoll_loop.c, and src/main.c.
-- - Worker (Worker/Client, Backend, Events, Count, Leak, Above, Drain, Frame, Start, HostCopy,
--   Boot, Blocked, Loop, Gate, Guarded, Delivered, and Lifecycle, Steps, Slots, Views, Stepped,
--   Owners, Routed): src/worker.c. Lifecycle states the life of a slot; Steps and Stepped are about
--   the handlers against it, Slots about who has a descriptor open on that life alone, and Owners
--   and Routed about the same on the pool. Loop is the loop of nexus_worker_run with its lines of
--   the log. `worker_start` is nexus_worker_run up to its loop. A handler takes the worker, the
--   slot and what the system answers, and gives the worker and the effects in order. `on_event` is
--   the callback of the loop. The lines that the callback writes to the error log are effects;
--   whether a connection opens is an argument that depends on the node's host and port. The copy of
--   the node's host into its buffer of 64 bytes is a sequence of stores, and a store outside the
--   buffer is an outcome of its own.
-- - Master (Master/Slots, Memory, Restart, Drained, Loop, Report): src/master.c. Memory is the
--   mapping of the shared memory, Loop the turns of nexus_master_run, and Report the lines of its
--   log. Slots is about serialize_config and reload_config; `restart` is the branch of
--   nexus_master_run on SIGHUP, with its actions in order, and `respawn` the loop behind it.
-- - Gateway (Gateway/Draining, Restarted): the actions of the master and the steps of its
--   workers, in any order, as a step relation. The test of the worker's loop takes two steps, one
--   for each of the two shared variables that it loads, and the master may act in between; an event
--   may see any values of them.
-- - Zerocopy (Zerocopy/Conserve, Steady), Static (Static/Jail, Whole): src/zerocopy.c and
--   src/static_file.c.
-- - Bench (Bench/Server): bench/upstream_server.c, the server that stands for a node in the
--   benchmarks.
-- - Base: bytes, C strings, lists and integers. Tests: runs and instances.
--
-- The worker hands a connection from handler to handler by the state of its slot: reading_req is
-- handled by Client, connecting_upstream and reading_upstream by Backend; Client calls Parser,
-- Blacklist, RateLimit, Upstream and Rewrite in that order, and each answer of theirs is a branch
-- of the handler.
--
-- Bytes are natural numbers. A C string is its bytes up to the first zero byte (`c_str`); a
-- buffer is the list of its valid bytes. Signed fields are integers without overflow: weights,
-- ports and lengths stay far below 2 ^ 31. uint32_t and uint64_t arithmetic is written with its
-- modulus. The tokens of the rate limiter are a double in the code and exact thousandths here,
-- and the rate is not negative. The readings of the clock, the results of rand, of the system
-- calls and of the probes are arguments. The loop of the parser runs on fuel, two more than the
-- bytes it is given, since every round that goes on takes a byte or ends the request. `gcd` runs
-- on its second argument as fuel, which falls at each call. The loops of src/zerocopy.c and
-- src/static_file.c run on the bytes that they are to move, since every round that goes on moves
-- one. nexus_proxy_forward_request may wait for ever; its fuel is the number of calls. The 30
-- rounds of the drain loop are its own bound. All other loops are structural. In Gateway the
-- generation does not wrap around, for restarts are fewer than 2 ^ 31; in Master/Restart its
-- wrapping is written out.
--
-- Not modelled: the lines that a worker writes to its log before its loop (src/worker.c), the
-- installation of the signal handlers (src/master.c, bench/upstream_server.c), whose flags are
-- arguments, and the list of descriptors behind epoll_ctl. Malloc may fail only in Util/Alloc:
-- elsewhere texts are values. bench/test_sendfile.c and the tests are not part of the program.
pub mod Base
pub mod Util
pub mod Headers
pub mod Upstream
pub mod Parser
pub mod Config
pub mod Rewrite
pub mod RateLimit
pub mod Blacklist
pub mod Connection
pub mod Health
pub mod Log
pub mod Proxy
pub mod Acceptor
pub mod EpollLoop
pub mod Worker
pub mod Master
pub mod Gateway
pub mod Zerocopy
pub mod Static
pub mod Main
pub mod Bench
pub mod Tests
