-- ===== src/Lib.antt =====
-- Verification of web-demo-go, a URL shortener with caches and rate limits.
--
-- Parts of the program. A request passes the rate limit middleware (internal/middleware), which asks
-- a policy limiter (internal/ratelimit) over a rate limit store, in memory or in Redis, and reaches a
-- handler (internal/handlers). A handler shortens a URL by a strategy (internal/shortener) or looks
-- a code up; both use a shortener.Repository (internal/store): PostgreSQL behind a cache in Redis
-- and, by the options, behind an LRU cache (internal/cache). The handlers publish an event for each
-- URL created and accessed (internal/messaging), and the consumers insert each event as a row
-- (internal/analytics). internal/container puts the parts together.
--
-- Files and sources:
--   Prelude        Boolean tests, integers, byte strings, maps, errors; strings and fmt of Go
--   Lru            internal/cache/lru.go. `Lru`, `new`, `get`, `set`, `len`, `detach`,
--                  `add_to_front`, `move_to_front`, `evict_lru` are the type and the functions of
--                  those names. Lru/Nodes is the memory that the nodes live in, Lru/Spec the
--                  recency list that specifies them, and the other children lead from one to the
--                  other: Segment and Ring for the linked list, Holds for the map, Refines and
--                  Inserts for the methods, Runs for sequences of calls
--   Shortener      internal/shortener: shorturl.go, repository.go, strategy.go (`token_shorten`,
--                  `hash_shorten`), and Shortener/UrlHash for urlhash.go (`normalize_url`,
--                  `hash_url`). Shortener/Race is HashStrategy.Shorten again, cut between its two
--                  calls of the store, by any number of requests at once
--   Store          Store/Contract is the contract of shortener.Repository: the row of each code, and
--                  how each operation acts on it; Store/Faults adds when one may fail.
--                  Store/Memory is internal/store/memory.go, Store/Cached cached.go, with its calls
--                  cut between the store and the cache in Store/Cached/Overlap, Store/Postgres
--                  postgres.go, Store/Redis redis.go and Store/Redis/Cache redis_cache.go.
--                  Store/Postgres/Table and Store/Redis/Server say what is asked of the database
--                  and of the server; Store/Either is a variable of the interface that holds one of
--                  two stores
--   RateLimit      internal/ratelimit: store.go, limiter.go, policy.go, policy_limiter.go, and
--                  RateLimit/Scope for scope.go, RateLimit/Memory for store/memory.go,
--                  RateLimit/Redis for store/redis.go, with RateLimit/Redis/Server for what is asked
--                  of the server
--   Middleware     internal/middleware/ratelimit.go and requestmeta.go
--   Handlers       internal/handlers/url.go and types.go, with the events of
--                  internal/analytics/event.go; Handlers/Routes is routes.go
--   Messaging      internal/messaging: consumer.go (`Step` is a step of consumeLoop or of its
--                  environment, `LoopStep` one of consumeLoop), group.go and publisher.go
--   Analytics      internal/analytics/store.go and its store/noop.go and store/postgres.go
--   Health         internal/health/handler.go
--   Container      internal/container/container.go: the options, RepositoryPackage,
--                  RateLimitPackage, and the policy and the URL handler of HTTPPackage;
--                  Container/Faults says when the repository fails, Container/Http is the way of a
--                  request through its middlewares to a handler, and Container/Worker the consumers
--                  of ConsumerGroupPackage, which share a database, with the options of
--                  cmd/consumer/main.go
--   Tests          runs on concrete inputs
--
-- How it is modelled. A Go string is a list of bytes (`Text`). An int64, an int and a
-- time.Duration are integers; the negation of a window wraps at 64 bits, the sums of times do not
-- (Go's time.Time is wider). A float64 that a 64-bit integer is converted to is the integer that it
-- is rounded to. The methods of the cache and of the in-memory stores run under a mutex, so
-- concurrent calls are a sequence of calls, each a function of the state; a call of a handler, a
-- strategy, a decorator or a limiter is taken as one step too, with nothing in between, but for
-- Shortener/Race and Store/Cached/Overlap. A stored *ShortURL is a value, since no code writes to
-- one after it was stored. A nil dereference is a panic: `none` in the cache, the error `panic`
-- where the cache is used. Contexts, which only carry deadlines, and log lines are left out. A
-- message that a consumer handles and acknowledges is one step. The results of the code
-- generator and of the clock are functions of the number of the call. Recursion follows lists; fuel
-- is used in `digits_fuel`, which `print_nat` gives one more than the number itself, more than it
-- has digits, and in `spacing`, which doubles at most 11 times for a number of 64 bits.
--
-- Code outside the repository is a parameter: `UrlLib` for net/url, SHA-256 and the Unicode tables,
-- `Lib` for SHA-256, net.SplitHostPort, the printing of durations and the Unicode part of
-- strings.TrimSpace, the publishers of `UrlHandler`, the encoder, the decoder, the broker and the
-- handler of Messaging, net.ParseIP, `Pool` and `EventPool` for the PostgreSQL driver and database,
-- and `Client` and `RateClient` for the Redis driver and server. `IsTable`, `IsEventTable`,
-- `IsServer` and `IsRateServer` name what a database or server does: statements and calls may fail,
-- inserts that fail may have taken effect, keys in Redis may expire or be evicted at any time and
-- commands of a pipeline may be lost. The database may round a time; what the stores keep of an
-- entity (`keep`) forgets as much.
--
-- Not modelled: in internal/container, the injection of dependencies and the connections; the
-- parsing and validation of requests by the framework (a request that it refuses does not reach a
-- handler); in cmd the start and the end of the processes, which call drivers and frameworks for
-- nearly all that they do; log lines; the end of a sorted set's time to live.
pub mod Analytics
pub mod Container
pub mod Handlers
pub mod Health
pub mod Lru
pub mod Middleware
pub mod Messaging
pub mod RateLimit
pub mod Shortener
pub mod Store
mod Prelude
mod Tests
