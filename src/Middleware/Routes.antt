-- ===== src/Middleware/Routes.antt =====
-- The limits that internal/middleware/ratelimit.go applies to the operations of
-- internal/handlers/routes.go.
use web_demo_go.Prelude.{◌≡◌, refl, ◌⊎◌, inl, inr, some, text_eq, Text_eq, lookup, List}
use web_demo_go.RateLimit.{RateStore, Policy, Scope}
use web_demo_go.RateLimit.Scope.{Context, get_endpoint_config, as_endpoint_config}
use web_demo_go.Handlers.Routes.{shorten_operation, redirect_operation}
use web_demo_go.Middleware.{Lib, policy_rate_limiter, handle_endpoint_config}

module _ (lib : Lib) {S : Type 0} (store : RateStore S) where
  -- On both routes of the service the policy and its scopes have no effect: a request is treated the
  -- same under any two of them.
  pub policy_rate_limiter-routes :
      (policy policy' : Policy) (resolve resolve' : Context → List Scope) (ctx : Context) (s : S)
      → (ctx.operation ≡ some shorten_operation) ⊎ (ctx.operation ≡ some redirect_operation)
      → policy_rate_limiter lib store policy resolve ctx s
        ≡ policy_rate_limiter lib store policy' resolve' ctx s
  unfolding policy_rate_limiter handle_endpoint_config get_endpoint_config as_endpoint_config lookup
      text_eq
  policy_rate_limiter-routes policy policy' resolve resolve' ctx s (inl create) = rw create refl
  policy_rate_limiter-routes policy policy' resolve resolve' ctx s (inr read) = rw read refl
