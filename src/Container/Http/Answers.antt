-- ===== src/Container/Http/Answers.antt =====
-- What the two routes answer through the API of internal/container/container.go.

use web_demo_go.Prelude.{◌≡◌, ap, sym, ◌∙◌, ◌⊎◌, inl, inr, ℕ, some, Text, text, arith}
use web_demo_go.Shortener.{Sources}
use web_demo_go.RateLimit.{RateStore}
use web_demo_go.RateLimit.Scope.{Context}
use web_demo_go.Middleware.{Lib, passed, client_key, request_meta}
use web_demo_go.Middleware.Laws.{CustomCounted, check_custom-passed}
use web_demo_go.Handlers.{
  RequestMeta, Service, CreateShortUrlRequest, UrlHandler, create_short_url, redirect_to_url,
}
use web_demo_go.Handlers.Routes.{
  shorten_limits, redirect_limits, shorten_operation, redirect_operation,
}
use web_demo_go.Container.{Option, Options}
use web_demo_go.Container.Http.{
  Served, refused, answered, Server, through, with_operation, serve_create, serve_redirect,
}
use web_demo_go.Container.Http.Limited.{Outcome-cases, middlewares, shorten_checks, redirect_checks}

module _ {S P L : Type 0} (lib : Lib) (store : RateStore L) (opts : Options)
    (h : UrlHandler S P) where
  -- A middleware has answered, and the service is as it was; or the handler has, from the request's
  -- metadata, and each of the limits has counted the request within its maximum.
  abbrev pub ServedWith :
      {A : Type 0}
      → (Option RequestMeta → Service S P → A × Service S P)
      → Type 0
      → Context
      → Server S P L
      → Served A × Server S P L
      → Type 0
  ServedWith handle Within ctx s r =
      ((status : ℕ) × (message : Text) × (r.0 ≡ refused status message) × (r.1.service ≡ s.service))
      ⊎ ((r.0 ≡ answered (handle (some (request_meta lib ctx)) s.service).0)
          × (r.1.service ≡ (handle (some (request_meta lib ctx)) s.service).1)
          × Within)

  module _ {A : Type 0} (handle : Option RequestMeta → Service S P → A × Service S P)
      (Within : Type 0) (ctx : Context) (s : Server S P L) where
    through-served :
        ((middlewares lib store opts h ctx s.limits).0 ≡ passed → Within)
        → ServedWith handle Within ctx s (through lib store opts h handle ctx s)
    unfolding through
    through-served within = elim (Outcome-cases (middlewares lib store opts h ctx s.limits).0) [
      | inl went ↦ inr (ground arith, ground arith, within went)
      | inr (status, message, stopped) ↦ inl (status, message, ground arith, ground arith)
    ]

  -- Over any rate limit store: either a middleware refuses a request of POST /shorten, and the
  -- service, its store of URLs and its publisher, is as it was; or the answer and the new state of
  -- the service are those of `CreateShortURL` on the metadata of the request, and each of the three
  -- limits of the route has counted the request within its maximum.
  pub serve_create-counted :
      (ctx : Context) (req : CreateShortUrlRequest) (s : Server S P L)
      → ServedWith
          (λ meta s. create_short_url h meta req s)
          (CustomCounted lib store (client_key lib ctx) (text "/shorten") shorten_limits s.limits)
          (with_operation shorten_operation ctx)
          s
          (serve_create lib store opts h ctx req s)
  unfolding serve_create
  serve_create-counted ctx req s =
      through-served (λ meta s. create_short_url h meta req s) _
        (with_operation shorten_operation ctx) s
        (λ went.
          check_custom-passed lib store (client_key lib ctx) (text "/shorten") shorten_limits
            s.limits (sym (ap (λ r. r.0) (shorten_checks lib store opts h ctx s.limits)) ∙ went))

  -- The same for GET /{code}: a request that a middleware refuses publishes no event, and any other
  -- is answered by `RedirectToURL`, counted within the limit of the route.
  pub serve_redirect-counted :
      (sources : Sources) (ctx : Context) (code : Text) (s : Server S P L)
      → ServedWith
          (λ meta s. redirect_to_url h sources meta code s)
          (CustomCounted lib store (client_key lib ctx) (text "/{code}") redirect_limits s.limits)
          (with_operation redirect_operation ctx)
          s
          (serve_redirect lib store opts h sources ctx code s)
  unfolding serve_redirect
  serve_redirect-counted sources ctx code s =
      through-served (λ meta s. redirect_to_url h sources meta code s) _
        (with_operation redirect_operation ctx) s
        (λ went.
          check_custom-passed lib store (client_key lib ctx) (text "/{code}") redirect_limits
            s.limits (sym (ap (λ r. r.0) (redirect_checks lib store opts h ctx s.limits)) ∙ went))
