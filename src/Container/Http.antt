-- ===== src/Container/Http.antt =====
-- internal/container/container.go: the way of a request through the API that `HTTPPackage` sets up.
pub mod Bursts
pub mod Limited
pub mod Quota
pub mod Answers
use web_demo_go.Prelude.{Option, some, List, Text, ℕ}
use web_demo_go.Shortener.{Sources}
use web_demo_go.RateLimit.{RateStore}
use web_demo_go.RateLimit.Scope.{Operation, Context, resolve_operation}
use web_demo_go.Middleware.{Lib, Outcome, passed, rejected, request_meta, policy_rate_limiter}
use web_demo_go.Handlers.{
  RequestMeta, CreateShortUrlRequest, CreateShortUrlResponse, RedirectResponse, Reply, Service,
  UrlHandler, create_short_url, redirect_to_url,
}
use web_demo_go.Handlers.Routes.{shorten_operation, redirect_operation}
use web_demo_go.Container.{Options, build_policy}

-- The answer of a middleware, or that of the handler.
pub data Served (A : Type 0) : Type 0 where
  refused : ℕ → Text → Served A
  answered : A → Served A

-- The state behind the API: the service, and the rate limit store.
pub record Server (S P L : Type 0) : Type 0 where
  pub service : Service S P
  pub limits : L

-- The context that the router gives to the middlewares: it names the operation.
abbrev pub with_operation : Operation → Context → Context
with_operation op ctx = record ctx { operation = some op }

module _ {S P L : Type 0} (lib : Lib) (store : RateStore L) (opts : Options)
    (h : UrlHandler S P) where
  -- The two middlewares in their order, and then the handler. `RequestMeta` always calls `next`.
  unfoldable pub through :
      {A : Type 0}
      → (Option RequestMeta → Service S P → A × Service S P)
      → Context
      → Server S P L
      → Served A × Server S P L
  unfolding policy_rate_limiter request_meta build_policy
  through handle ctx s =
      let (outcome, limits) =
        policy_rate_limiter lib store (build_policy opts) resolve_operation ctx s.limits in
      let (reply, service) = handle (some (request_meta lib ctx)) s.service in
      elim outcome [
        | rejected status message ↦ (refused status message, record s { limits = limits })
        | passed ↦ (answered reply, record { service = service; limits = limits })
      ]

  -- POST /shorten
  unfoldable pub serve_create :
      Context
      → CreateShortUrlRequest
      → Server S P L
      → Served (Reply CreateShortUrlResponse) × Server S P L
  unfolding through create_short_url
  serve_create ctx req =
      through (λ meta s. create_short_url h meta req s) (with_operation shorten_operation ctx)

  -- GET /{code}
  unfoldable pub serve_redirect :
      Sources → Context → Text → Server S P L → Served (Reply RedirectResponse) × Server S P L
  unfolding through redirect_to_url
  serve_redirect sources ctx code =
      through (λ meta s. redirect_to_url h sources meta code s)
        (with_operation redirect_operation ctx)
