-- ===== src/Lib.antt =====
-- nirn-proxy, an HTTP proxy that sends the requests of many bots to Discord and keeps them under
-- Discord's rate limits.
--
-- A request is identified by its token and grouped into a bucket by its path. Its client, one for
-- each token, has a pacer for the limit on all its requests and the buckets of its routes; a bucket
-- lets one request at a time through its FIFO gate and holds it back while Discord has blocked it.
-- Responses teach the client which routes share a bucket. One guard counts invalid responses for
-- the whole process, and one budget limits the buckets of all clients.
--
-- `ServeHTTP` takes a slot for a request, sends it to the node of the cluster that it belongs to or
-- looks up its client, and hands it to the reverse proxy, whose transport is
-- `scheduledTransport.RoundTrip`: it waits for bucket, pacer and guard, sends the request, and after
-- a response 429 sends it again, with the body that it kept. An error is answered by the error handler
-- of the reverse proxy. The program starts with `loadConfig`, whose configuration `New` tests before
-- it makes the proxy; then `run` opens the servers, joins the cluster, and at the end closes all.
--
-- Files, with the code that each is about (in internal/proxy, but for config.go and main.go):
--   Base       lists, maps, integers and byte strings; the tests that the code makes
--   Budget     proxy.go: resourceBudget, with the interleavings of its atomic steps
--   Gate       scheduler.go: fifoGate, with the interleavings of its critical sections
--   Guard      ratelimit.go: invalidRequestGuard
--   Pacer      ratelimit.go: pacer
--   Bucket     scheduler.go: bucketState
--   Client     scheduler.go: the buckets and aliases of clientState
--   Acquire    scheduler.go: acquireBucket
--   Registry   scheduler.go: clientState as a whole, Proxy.client, evictOldestIdle, sweepClients
--   Identity   scheduler.go: identify, botIDFromToken, fingerprint
--   Base64     encoding/base64 of Go's library, as far as these functions call it
--   Utf8       unicode/utf8 and strings of Go's library, as far as MetricsPathFromBucket calls them
--   Hash       routes.go: HashCRC64, routeHash
--   Routes     routes.go: the grouping of paths
--   Response   ratelimit.go: parseRateLimitHeaders, observeResponse, invalidDiscordResponse;
--              scheduler.go: learnBucket, which uses Client
--   Overrides  ratelimit.go: parseGlobalOverrides
--   Capture    transport.go: captureBody
--   Replay     transport.go: bodyReplay, which uses Capture
--   Attempt    transport.go: the loop of scheduledTransport.RoundTrip, one attempt after another
--   RoundTrip  transport.go: scheduledTransport.RoundTrip as a whole
--   Timeout    transport.go: timeoutTransport, clusterPeerRoundTripper, cleanupBody
--   Transport  transport.go: newHTTPTransport
--   Forward    transport.go: what the reverse proxies rewrite, preserveForwardingHeaders
--   Answers    proxy.go: writeUnavailable, writeProxyError; transport.go: the error handlers, and the
--              responses that are made here
--   Config     config.go: loadConfig and its readers
--   Tls        config.go: loadClusterTLS, verifyClusterCertificate
--   Proxy      proxy.go: Config, New
--   Handler    proxy.go: ServeHTTP, affinityHash, forwardedHop, isUpgradeRequest, Close
--   Cluster    cluster.go: the members, and the owner of a route among them
--   Peers      transport.go: newPeerHTTPTransport; cluster.go: validatePeerCertificateAddress;
--              config.go: the TLS configurations of loadClusterTLS
--   Join       cluster.go: JoinCluster as one call, with what it tests, calls and installs
--   Lifecycle  cluster.go: JoinCluster and closeCluster as they race; proxy.go: Close
--   Metrics    observability.go: the labels of the metrics
--   Logs       observability.go: redactLogSecrets, Fire
--   Program    main.go: the servers and what run is made of; Program/Run: run, joinCluster
-- A file's folder holds its theorems, and in Tests runs of the code at concrete inputs.
--
-- Times are natural numbers of nanoseconds, the zero time is 0, and a difference of times that the
-- code clamps at 0 is the subtraction of natural numbers. Signed counters are integers; they do not
-- wrap around, since each counts things that are in memory. A hash is a number below 2 ^ 64. A map
-- is a list of entries with distinct keys, in an order that stands for the one that Go does not
-- fix. A pointer to a bucket is its index in the store that all clients share.
--
-- What a mutex guards is one step. Where goroutines race, a step relation has one step for each
-- atomic operation or critical section, and the theorems are about all that it reaches. A loop that
-- waits takes the list of the rounds that the environment makes, each with its time and with what
-- others did before it; with the rounds used up it is still waiting. There is no fuel: the other
-- loops are recursion on lists. So is the loop of attempts: an attempt is the answers that it gets,
-- of the waits, the transport, the contexts and the replay, and the result of a round trip is the
-- calls that it makes, in order, with what it returns. `JoinCluster` and `run` are modelled in the
-- same way, by the calls that they make for what the libraries answer.
--
-- Parameters: SHA-256, strings.ToLower, Go's floating-point numbers with strconv.ParseFloat, the
-- decimal text of a number, the texts of errors and of statuses, the environment's variables, the
-- count of runes, the parser of IP addresses, net.JoinHostPort, and files, PEM and X.509; the
-- temporary files of a kept body, the listeners, the gossip library and the signals do as the
-- environment says. Errors are kept apart as far as the code tells them apart, without their whole
-- text.
-- Not modelled: net/http with its transports and reverse proxies but for how they are configured, the
-- gossip library and the time that its `Leave` is given, metrics but for their labels and the reasons
-- of failures, the handlers of the auxiliary servers, log lines but for what is taken out of them, the
-- pool of buffers, and the goroutines of servers and of the sweep but for what they report and call.
pub mod Acquire
pub mod Answers
pub mod Attempt
pub mod Base
pub mod Base64
pub mod Bucket
pub mod Budget
pub mod Capture
pub mod Client
pub mod Cluster
pub mod Config
pub mod Forward
pub mod Gate
pub mod Guard
pub mod Handler
pub mod Hash
pub mod Identity
pub mod Join
pub mod Lifecycle
pub mod Logs
pub mod Metrics
pub mod Overrides
pub mod Pacer
pub mod Peers
pub mod Program
pub mod Proxy
pub mod Registry
pub mod Replay
pub mod Response
pub mod RoundTrip
pub mod Routes
pub mod Timeout
pub mod Tls
pub mod Transport
pub mod Utf8
