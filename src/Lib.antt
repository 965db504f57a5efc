-- ===== src/Lib.antt =====
-- The verification library of go-ddgs-stealth (package goddgs): a client for DuckDuckGo search with
-- defences against bot detection, an engine that chains search providers, and an HTTP service.
--
-- How the program's parts interact. A request for a search comes to the service (service.go), whose
-- handler asks the engine (engine.go); the engine asks its providers in order. The provider "ddg"
-- searches with the client (client.go), every request of which goes through `doWithRetry`: the loop
-- asks the circuit breaker, waits for the rate limiter, sends, judges the reply, and after a block
-- tells limiter, breaker, proxy pool and session, and asks the challenge solvers. The stealth
-- endpoints (service_stealth.go) are behind an access guard; fetchers are kept in a pool by kind and
-- in a hub by name.
--
-- Which file models which part. A Go method on a struct is a function from the record to the changed
-- record and the results; Go names are in snake_case here (`RecordBlock` is `record_block`).
--   Common             lists, tests, integers, association lists, and the parts of package strings
--   Breaker            antibot.go, circuitBreaker
--   Limiter            timing.go, AdaptiveRateLimiter
--   ProxyPool          proxypool.go
--   Hub, FetcherPool   session_hub.go, session_pool.go
--   Guard              service_stealth_guard.go
--   Errors             errors_api.go, and the sentinel errors of client.go
--   Detect             detect.go, with a matcher for the regular expressions of its table
--   Solver, Solver.Remote   solver.go; solver_2captcha.go and solver_capsolver.go
--   Session            session.go, with a heap of cookie jars, which clients and sessions share
--   AntiBot            antibot.go, AntiBotConfig and buildAntiBotState; transport.go,
--                      pickAndStoreProxy
--   Client, Client.Loop   client.go, the Client and doWithRetry with every call that it makes
--   Client.Search      client.go, Search, SearchPages and what they call
--   Engine             engine.go, api.go, events.go
--   Fetcher, Fetcher.Http   fetcher.go; stealth_options.go, withDefaults
--   Providers          provider.go
--   Config             config.go
--   Parser             adaptive_parser.go
--   Spider, Spider.Crawl   spider.go, the tests of URLs; Run, as steps of its goroutines
--   Service            service.go, /readyz and /v1/search; service_stealth.go, the checks at the head
--                      of each endpoint
--   Examples           the theorems at concrete inputs
-- The modules below these hold the proofs and are named for what they are about.
--
-- Conventions. Time is a number of nanoseconds, and the zero time is 0. A call of `time.Now()`, of
-- the random numbers or of a remote party is an argument, or a function of a world that the model
-- passes along; it may answer anything. A mutex makes its method one step;
-- the goroutines of the spider are actors of a step function, and a theorem is about every order of
-- their steps. Go's `int` counters are
-- unbounded; durations that may be negative are integers. A float product is a parameter, with the
-- property that is needed of it as a hypothesis. A panic is a value. Texts are sequences of code
-- points; where the program cuts or measures bytes, the model does so with code points.
--
-- Fuel. `doWithRetry` has fuel, for a solved challenge does not count as an attempt: its fuel
-- bounds the turns of the loop. Without solvers, RetryMax turns are enough. The polling loops of the
-- remote solvers have fuel: one turn more than the poll intervals that exceed the poll timeout is
-- enough.
--
-- Not modelled. The files of the spider's checkpoint and stream, and of the adaptive parser;
-- dynamic_fetcher.go, stealthy_fetcher.go and stealth_scripts.go, which drive a browser;
-- solver_flaresolverr.go; headers.go, ua.go and the connections of transport.go; httpclient.go,
-- and the defaults of NewClient; the bodies of the stealth endpoints; the metrics and traces; cmd
-- and examples, which are flags and output.
pub mod AntiBot
pub mod Breaker
pub mod Client
pub mod Common
pub mod Config
pub mod Detect
pub mod Engine
pub mod Errors
pub mod Examples
pub mod Fetcher
pub mod FetcherPool
pub mod Guard
pub mod Hub
pub mod Limiter
pub mod Parser
pub mod Providers
pub mod ProxyPool
pub mod Service
pub mod Session
pub mod Solver
pub mod Spider
