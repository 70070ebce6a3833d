-- ===== src/Container/Http/Limited.antt =====
-- What the limits of POST /shorten (internal/handlers/routes.go) promise of a run of requests, over
-- internal/ratelimit/store/memory.go.
use mathlib.Core.Path.{ap, sym}
use web_demo_go.Prelude.{
  ◌∙◌, lookup, ℕ, suc, List, [], ◌∷◌, Text, text, text_eq, ℤ, arith, refl, ◌≡◌, ◌⊎◌, inl, inr, Bool,
  true, false, ◌&&◌, if◌then◌else◌,
}
use web_demo_go.Shortener.{Sources}
use web_demo_go.RateLimit.{RateStore}
use web_demo_go.RateLimit.Memory.{Memory, memory_store}
use web_demo_go.RateLimit.Scope.{as_endpoint_config, get_endpoint_config, Context}
use web_demo_go.Handlers.{CreateShortUrlRequest, Service, UrlHandler, create_short_url}
use web_demo_go.Handlers.Routes.{shorten_limits, redirect_limits, shorten_operation}
use web_demo_go.Middleware.{
  first_forwarded, client_ip, check_custom_limits, handle_endpoint_config, Lib, Outcome, passed,
  rejected, client_key, check_custom, policy_rate_limiter,
}
use web_demo_go.Container.{build_policy, Option, Options}
use web_demo_go.Container.Http.{
  resolve_operation, redirect_operation, RequestMeta, redirect_to_url, Served, refused, answered,
  Server, through, with_operation, serve_create, serve_redirect,
}

pub data Request : Type 0 where
  creates : Context → CreateShortUrlRequest → Request
  redirects : Context → Text → Request

abbrev pub is_answered : {A : Type 0} → Served A → Bool
is_answered (refused status message) = false
is_answered (answered reply) = true

pub Outcome-cases :
    (o : Outcome) → (o ≡ passed) ⊎ ((status : ℕ) × (message : Text) × (o ≡ rejected status message))
Outcome-cases passed = inl refl
Outcome-cases (rejected status message) = inr (status, message, refl)

module _ {S P L : Type 0} (lib : Lib) (store : RateStore L) (opts : Options)
    (h : UrlHandler S P) where
  abbrev pub middlewares : Context → L → Outcome × L
  middlewares = policy_rate_limiter lib store (build_policy opts) resolve_operation

  module _ {A : Type 0} (handle : Option RequestMeta → Service S P → A × Service S P)
      (ctx : Context) (s : Server S P L) where
    through-limits : (through lib store opts h handle ctx s).1.limits ≡ (middlewares ctx s.limits).1
    unfolding through
    through-limits = elim (Outcome-cases (middlewares ctx s.limits).0) [
      | inl went ↦ ground arith
      | inr (status, message, stopped) ↦ ground arith
    ]

    through-passed :
        is_answered (through lib store opts h handle ctx s).0 ≡ true
        → (middlewares ctx s.limits).0 ≡ passed
    unfolding through
    through-passed answer = elim (Outcome-cases (middlewares ctx s.limits).0) [
      | inl went ↦ went
      | inr (status, message, stopped) ↦ absurd (ground arith)
    ]

  pub shorten_checks :
      (ctx : Context) (l : L)
      → middlewares (with_operation shorten_operation ctx) l
        ≡ check_custom lib store (client_key lib ctx) (text "/shorten") shorten_limits l
  unfolding policy_rate_limiter get_endpoint_config as_endpoint_config lookup text_eq
      handle_endpoint_config check_custom_limits client_key client_ip first_forwarded
  shorten_checks ctx l = refl

  pub redirect_checks :
      (ctx : Context) (l : L)
      → middlewares (with_operation redirect_operation ctx) l
        ≡ check_custom lib store (client_key lib ctx) (text "/{code}") redirect_limits l
  unfolding policy_rate_limiter get_endpoint_config as_endpoint_config lookup text_eq
      handle_endpoint_config check_custom_limits client_key client_ip first_forwarded
  redirect_checks ctx l = refl

module _ {S P : Type 0} (lib : Lib) (clock : ℕ → ℤ) (opts : Options) (h : UrlHandler S P)
    (sources : Sources) where
  -- How many of a client's requests of POST /shorten reach the handler, in a run of requests of any
  -- clients.
  unfoldable pub created_by : Text → List Request → Server S P Memory → ℕ
  created_by client [] s = 0
  created_by client (creates ctx req ∷ requests) s =
      let (served, s') = serve_create lib (memory_store clock) opts h ctx req s in
      let rest = created_by client requests s' in
      if text_eq (client_key lib ctx) client && is_answered served then suc rest else rest
  created_by client (redirects ctx code ∷ requests) s =
      created_by client requests
        (serve_redirect lib (memory_store clock) opts h sources ctx code s).1

  unfoldable pub create_checks : Context → Memory → Outcome × Memory
  create_checks ctx m =
      check_custom lib (memory_store clock) (client_key lib ctx) (text "/shorten") shorten_limits m

  pub serve_create-limits :
      (ctx : Context) (req : CreateShortUrlRequest) (s : Server S P Memory)
      → (serve_create lib (memory_store clock) opts h ctx req s).1.limits
        ≡ (create_checks ctx s.limits).1
  unfolding serve_create create_checks
  serve_create-limits ctx req s =
      through-limits lib (memory_store clock) opts h (λ meta s. create_short_url h meta req s)
        (with_operation shorten_operation ctx) s
      ∙ ap (λ r. r.1) (shorten_checks lib (memory_store clock) opts h ctx s.limits)

  pub serve_create-passed :
      (ctx : Context) (req : CreateShortUrlRequest) (s : Server S P Memory)
      → is_answered (serve_create lib (memory_store clock) opts h ctx req s).0 ≡ true
      → (create_checks ctx s.limits).0 ≡ passed
  unfolding serve_create create_checks
  serve_create-passed ctx req s answer =
      sym (ap (λ r. r.0) (shorten_checks lib (memory_store clock) opts h ctx s.limits))
      ∙ through-passed lib (memory_store clock) opts h (λ meta s. create_short_url h meta req s)
          (with_operation shorten_operation ctx) s answer

  pub serve_redirect-limits :
      (ctx : Context) (code : Text) (s : Server S P Memory)
      → (serve_redirect lib (memory_store clock) opts h sources ctx code s).1.limits
        ≡ (check_custom lib
            (memory_store clock)
            (client_key lib ctx)
            (text "/{code}")
            redirect_limits
            s.limits).1
  unfolding serve_redirect
  serve_redirect-limits ctx code s =
      through-limits lib (memory_store clock) opts h
        (λ meta s. redirect_to_url h sources meta code s) (with_operation redirect_operation ctx) s
      ∙ ap (λ r. r.1) (redirect_checks lib (memory_store clock) opts h ctx s.limits)
