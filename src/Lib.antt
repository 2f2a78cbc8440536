-- ===== src/Lib.antt =====
-- PolyBalance, an HTTP load balancer: backends with a circuit breaker, a health checker, four
-- strategies, a retrying server over a reverse proxy, two limiting middlewares, and a dashboard.
--
-- How the parts interact. The health checker (backend/health.go) and the proxied requests
-- (proxy/reverse_proxy.go) call the methods of the shared backends (backend/backend.go). The
-- server (server/http_server.go) asks the current strategy (strategy/, chosen through
-- server/strategy_controller.go) for a backend, hands the request to its proxy, and retries. The
-- limiters (middleware/) stand before the server. The dashboard (ui/dashboard.go) reads and sets the
-- same parts, and the script of its page sends requests to its handlers.
--
-- Which file models which part:
--   Url, Text, Http    what is used of net/url, strings and net/http
--   Backend            backend/backend.go; its methods are the steps of `Op`, applied by `apply`,
--                      and any interleaving of goroutines is a list of steps (`run`)
--   Health             backend/health.go; `start` is the goroutine's loop over its signals
--   Strategy           strategy/: RoundRobin, Scan (least connections and latency), Hash, and the
--                      interface as a data type
--   Proxy              proxy/reverse_proxy.go: `serve` is Proxy.ServeHTTP for any writer (`Sink`),
--                      `prepare_request` its headers
--   Server             server/: `serve_http` is Server.ServeHTTP, Controller the controller;
--                      Concurrent has many requests at once, as steps (`Step`) between the accesses of
--                      proxy/reverse_proxy.go to the shared backends
--   Middleware         middleware/: RateLimiter, RequestLimiter and Tls, its certificate
--   Config, Main       internal/config.go, and what cmd/main.go sets up from it; Main/Process is the
--                      life of the process, by the events that end its listener or itself, with the
--                      health checker's context
--   Dashboard          ui/dashboard.go: its handlers; Outgoing has those that make requests
--   Main/Site          the listener's handler of cmd/main.go: the limiters, the routes of net/http's mux
--                      (Http/Mux) and every handler, on one `System`
--   Page               the script of the page in ui/dashboard.go: the elements that it names, its
--                      functions (Actions), the report of test requests (Report), its requests
--                      (Calls), any session of a user (Session), and one click through the whole
--                      balancer (Click)
--   Metrics, Logging   metrics/metrics.go, registered with an argument (`Registry`), and the lines of
--                      internal/logging.go
--   Demo               cmd/backend/main.go, the demonstration server; Fleet has several behind the
--                      balancer
-- Base holds what they share, and Samples the backends of the tests.
--
-- State and operations. A mutex-protected method is one atomic step from record to record;
-- Middleware/RequestLimiter/Race has the reads of that middleware without its mutex. A pointer to a
-- backend is its position in the list, which the server and the checker share. Go's int, int64 and
-- time.Duration are `ℤ`, with the wrap of `++` written out; uint64 counters wrap at 2^64. The clock
-- is an argument in nanoseconds of the monotonic clock, taken to be below 2^63; a call of
-- NextBackend reads it once, and so does a generation of a certificate. Parameters: float64
-- (`Float64`, with laws of IEEE rounding), SHA-256 and sort.Slice (`Library`), url.Parse, the
-- network, Sprintf of the handlers, SplitHostPort, ParseDuration, the certificate libraries with
-- the disk, the outcome of a round trip, the metrics' registry (`Registry`), and the browser's
-- numbers and messages (`Browser`). Those with laws have an instance in the tests or beside them.
--
-- Fuel. The bisection of sort.Search has one unit more than the length of the ring and its distance
-- falls at each round; a decimal numeral has one unit more than its value. All other loops are
-- structural: over lists, over attempts (as many as backends) and over retries (three).
--
-- Not modelled: what the metrics' library puts out; JSON texts and the markup and the styles of the
-- dashboard's page, which are arguments or left out; the insides of listeners and the delivery of
-- signals, the transport's timeouts, the lines of the log but their form, response headers but
-- Location, and the single reads of a pick, which Strategy/Choice takes as one step over a state of
-- each backend of any moment. The handlers of Main/Site run one after another; Server/Concurrent
-- interleaves the proxied requests.
pub mod Base
pub mod Text
pub mod Url
pub mod Backend
pub mod Health
pub mod Config
mod Samples
pub mod Strategy
pub mod Http
pub mod Proxy
pub mod Server
pub mod Middleware
pub mod Main
pub mod Dashboard
pub mod Page
pub mod Metrics
pub mod Logging
pub mod Demo
