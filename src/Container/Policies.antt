-- ===== src/Container/Policies.antt =====
-- The limits that the policy of internal/container/container.go puts on a request by its method.
use web_demo_go.Prelude.{
  ◌≡◌, ◌∷◌, [], ◌||◌, text, text_eq, Text_eq, lookup, insert, arith, if◌then◌else◌,
}
use web_demo_go.RateLimit.{limits_of, add_limit, new_policy_builder}
use web_demo_go.RateLimit.Scope.{Context, resolve_method, scope_global, scope_read, scope_write}
use web_demo_go.RateLimit.Policy.{applicable, tag_limits}
use web_demo_go.Handlers.Routes.{minute, hour, day}
use web_demo_go.Container.{Options, build_policy}

module _ (opts : Options) where
  -- The options put on a reading method the daily limit of all requests and the limit of reads by
  -- the minute, and on any other method the daily limit of all requests and the three limits of
  -- writes, by the minute, the hour and the day, in this order.
  pub build_policy-limits :
      (ctx : Context)
      → applicable (build_policy opts) (resolve_method ctx)
        ≡ (scope_global, record { window = day; max = opts.rate_limit_global_per_day })
          ∷ (if text_eq ctx.method (text "GET")
                || (text_eq ctx.method (text "HEAD") || text_eq ctx.method (text "OPTIONS"))
              then (scope_read, record { window = minute; max = opts.rate_limit_read_per_minute })
                ∷ []
              else (scope_write, record { window = minute; max = opts.rate_limit_write_per_minute })
                ∷ (scope_write, record { window = hour; max = opts.rate_limit_write_per_hour })
                ∷ (scope_write, record { window = day; max = opts.rate_limit_write_per_day })
                ∷ [])
  unfolding applicable build_policy resolve_method tag_limits limits_of lookup add_limit insert
      text_eq new_policy_builder
  build_policy-limits ctx = ground arith
