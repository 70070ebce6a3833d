-- ===== src/Tests/Bursts.antt =====
-- Eleven requests of POST /shorten from one client, through the API of
-- internal/container/container.go with the rate limits in memory.
use web_demo_go.Prelude.{
  insert, lookup, text_eq, Text, ◌<ℤ◌, ◌<◌, ◌+ℤ◌, ◌+◌, ok, ◌≡◌, refl, ◌≤◌, List, [], ◌∷◌, ℕ, none,
  ℤ, pos, text, arith,
}
use web_demo_go.Middleware.Laws.{CustomCounted}
use web_demo_go.RateLimit.Memory.{memory_store, record_request, Memory, new_memory, neg64}
use web_demo_go.RateLimit.Scope.{get_endpoint_config, Context}
use web_demo_go.Handlers.Routes.{minute, shorten_limits, shorten_operation}
use web_demo_go.Middleware.{client_key}
use web_demo_go.Handlers.{UrlHandler, create_short_url}
use web_demo_go.Store.Postgres.{Row}
use web_demo_go.Container.{RepositoryState, url_handler}
use web_demo_go.Container.Http.{with_operation, serve_create, Server}
use web_demo_go.Container.Http.Answers.{ServedWith, serve_create-counted}
use web_demo_go.Container.Http.Limited.{Request, creates, redirects, created_by}
use web_demo_go.Container.Http.Quota.{created_by-minute}
use web_demo_go.Store.Redis.Server.{Hashes}
use web_demo_go.Tests.Database.{table, server}
use web_demo_go.Tests.Requests.{proxy_lib}
use web_demo_go.Tests.Production.{opts, lib, sources, service, request}

abbrev handler : UrlHandler (RepositoryState (List Row) Hashes) ℕ
handler =
    url_handler opts table server lib sources (λ e. ok []) (λ e. ok [])
      (λ topic payload n. (none, n + 1))

abbrev started : Server (RepositoryState (List Row) Hashes) ℕ Memory
started = record { service = service; limits = new_memory }

abbrev context : Context
context = record {
  method = text "POST";
  operation = none;
  header = λ name. [];
  host = text "9.9.9.9:1";
}

abbrev one : Request
one = creates context request

abbrev eleven : List Request
eleven =
    one
    ∷ one
    ∷ one
    ∷ redirects context (text "c")
    ∷ one
    ∷ one
    ∷ one
    ∷ one
    ∷ one
    ∷ one
    ∷ one
    ∷ one
    ∷ []

-- The clock counts nanoseconds.
abbrev ticking : ℕ → ℤ
ticking n = pos n

late : (i : ℕ) → 0 ≤ i → i < 36 → pos i +ℤ neg64 minute <ℤ pos 0
unfolding ◌+ℤ◌ neg64
late i h k = ground arith

created_by-minute_example :
    created_by proxy_lib ticking opts handler sources (client_key proxy_lib context) eleven started
    ≤ 10
unfolding new_memory neg64
created_by-minute_example =
    created_by-minute proxy_lib ticking (pos 0) opts handler sources (client_key proxy_lib context)
      eleven started (λ i h k. (omega arith, late i h k))

abbrev minute_key : Text
minute_key = text "9.9.9.9:1|:custom:/shorten:60000"

abbrev busy : List ℤ → Server (RepositoryState (List Row) Hashes) ℕ Memory
busy times = record {
  service = service;
  limits = record { requests = (minute_key, times) ∷ []; ticks = 10 };
}

abbrev nine : List ℤ
nine = pos 1 ∷ pos 2 ∷ pos 3 ∷ pos 4 ∷ pos 5 ∷ pos 6 ∷ pos 7 ∷ pos 8 ∷ pos 9 ∷ []

-- After nine requests one more reaches the handler, and after ten none does.
tenth :
    created_by proxy_lib ticking opts handler sources
      (client_key proxy_lib context)
      (one ∷ [])
      (busy nine)
    ≡ 1
unfolding created_by text_eq client_key serve_create get_endpoint_config lookup record_request ◌+ℤ◌
    neg64 insert
tenth = refl

eleventh :
    created_by proxy_lib ticking opts handler sources
      (client_key proxy_lib context)
      (one ∷ [])
      (busy (pos 0 ∷ nine))
    ≡ 0
unfolding created_by text_eq client_key serve_create get_endpoint_config lookup record_request ◌+ℤ◌
    neg64
eleventh = refl

serve_create-counted_example :
    ServedWith proxy_lib
      (memory_store ticking)
      opts
      handler
      (λ meta s. create_short_url handler meta request s)
      (CustomCounted proxy_lib
        (memory_store ticking)
        (client_key proxy_lib context)
        (text "/shorten")
        shorten_limits
        started.limits)
      (with_operation shorten_operation context)
      started
      (serve_create proxy_lib (memory_store ticking) opts handler context request started)
serve_create-counted_example =
    serve_create-counted proxy_lib (memory_store ticking) opts handler context request started
