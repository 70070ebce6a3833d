-- ===== src/Middleware.antt =====
-- internal/middleware: ratelimit.go and requestmeta.go. Log lines are left out; a middleware either
-- calls `next` or writes an error.
pub mod Routes
pub mod Refusals
pub mod Laws
use web_demo_go.Prelude.{
  Bool, Option, none, some, List, [], ◌∷◌, ◌++◌, ℕ, Text, text, text_eq, ℤ, ltb_ℤ, Result, ok, err,
  if◌then◌else◌, not, print_int, WideTrim, before_first, before_last, trim_space, ltb, length,
}
use web_demo_go.Handlers.{RequestMeta}
use web_demo_go.RateLimit.{
  RateStore, LimitConfig, Policy, Scope, LimitExceeded, policy_allow, milliseconds,
}
use web_demo_go.RateLimit.Scope.{Context, EndpointConfig, get_endpoint_config}

-- What the middleware takes from the standard library as it is.
pub record Lib : Type 0 where
  -- `sha256.Sum256` followed by `hex.EncodeToString`
  pub sha256_hex : Text → Text
  -- the host of `net.SplitHostPort`; `none` where it returns an error
  pub split_host : Text → Option Text
  -- `time.Duration.String`
  pub duration_string : ℤ → Text
  pub wide : WideTrim

-- `next` was called, or `huma.WriteErr` with a status and a message.
pub data Outcome : Type 0 where
  passed : Outcome
  rejected : ℕ → Text → Outcome

module _ (lib : Lib) where
  -- The client of `X-Forwarded-For`: its first address.
  unfoldable pub first_forwarded : Text → Text
  unfolding before_first trim_space
  first_forwarded xff = elim (before_first b',' xff) [
    | some first ↦ trim_space lib.wide first
    | none ↦ trim_space lib.wide xff
  ]

  -- `clientIP` of ratelimit.go
  unfoldable pub client_ip : Context → Text
  unfolding first_forwarded text_eq
  client_ip ctx =
      let xff = ctx.header (text "X-Forwarded-For") in
      let xri = ctx.header (text "X-Real-IP") in
      if not (text_eq xff [])
      then first_forwarded xff
      else (if not (text_eq xri [])
          then xri
          else elim (lib.split_host ctx.host) [ none ↦ ctx.host | some ip ↦ ip ])

  -- `extractClientIP` of requestmeta.go
  unfoldable pub extract_client_ip : Context → Text
  unfolding first_forwarded text_eq before_last
  extract_client_ip ctx =
      let xff = ctx.header (text "X-Forwarded-For") in
      let xri = ctx.header (text "X-Real-IP") in
      if not (text_eq xff [])
      then first_forwarded xff
      else (if not (text_eq xri [])
          then xri
          else elim (before_last b':' ctx.host) [ none ↦ ctx.host | some host ↦ host ])

  -- The metadata that `RequestMeta` puts into the context.
  unfoldable pub request_meta : Context → RequestMeta
  unfolding extract_client_ip
  request_meta ctx = record {
    client_ip = extract_client_ip ctx;
    user_agent = ctx.header (text "User-Agent");
    referrer = ctx.header (text "Referer");
  }

  unfoldable pub client_key : Context → Text
  unfolding client_ip
  client_key ctx = lib.sha256_hex (client_ip ctx ++ (text "|" ++ ctx.header (text "User-Agent")))

  -- `RateLimiter`, over any `Limiter.Allow`
  unfoldable pub rate_limiter :
      {S : Type 0} → (Text → S → Result Bool × S) → Context → S → Outcome × S
  unfolding client_key
  rate_limiter allow ctx s =
      let (r, s') = allow (client_key ctx) s in
      elim r [
        | err e ↦ (rejected 500 (text "internal server error"), s')
        | ok allowed ↦
            if not allowed then (rejected 429 (text "rate limit exceeded"), s') else (passed, s')
      ]

  unfoldable pub custom_key : Text → Text → LimitConfig → Text
  unfolding milliseconds print_int
  custom_key client path limit =
      client ++ (text ":custom:" ++ (path ++ (text ":" ++ print_int (milliseconds limit.window))))

  -- The message of a custom limit.
  unfoldable pub custom_message : ℤ → LimitConfig → Text
  unfolding print_int
  custom_message count limit =
      text "rate limit exceeded: "
      ++ (print_int count
          ++ (text "/"
              ++ (print_int limit.max
                  ++ (text " requests in " ++ lib.duration_string limit.window))))

  -- `handleRateLimitExceeded`
  unfoldable pub exceeded_message : Option LimitExceeded → Text
  unfolding print_int
  exceeded_message none = text "rate limit exceeded"
  exceeded_message (some x) =
      text "rate limit exceeded: "
      ++ (x.scope
          ++ (text " scope, "
              ++ (print_int x.count
                  ++ (text "/"
                      ++ (print_int x.config.max
                          ++ (text " requests in " ++ lib.duration_string x.config.window))))))

  module _ {S : Type 0} (store : RateStore S) where
    -- The loop of `checkCustomLimits`; `passed` stands for its result `true`.
    unfoldable pub check_custom : Text → Text → List LimitConfig → S → Outcome × S
    unfolding custom_key custom_message
    check_custom client path [] s = (passed, s)
    check_custom client path (limit ∷ limits) s =
        let (r, s') = store.record_request (custom_key client path limit) limit.window s in
        let rest = check_custom client path limits s' in
        elim r [
          | err e ↦ (rejected 500 (text "internal server error"), s')
          | ok count ↦
              if ltb_ℤ limit.max count
              then (rejected 429 (custom_message count limit), s')
              else rest
        ]

    unfoldable pub check_custom_limits : Context → List LimitConfig → S → Outcome × S
    unfolding client_key check_custom
    check_custom_limits ctx limits s = elim ctx.operation [
      | none ↦ (rejected 500 (text "internal server error"), s)
      | some op ↦ check_custom (client_key ctx) op.path limits s
    ]

    -- `handleEndpointConfig`; `none` is its result `false`.
    unfoldable pub handle_endpoint_config : Context → EndpointConfig → S → Option (Outcome × S)
    unfolding check_custom_limits
    handle_endpoint_config ctx cfg s =
        if cfg.disabled
        then some (passed, s)
        else (if ltb 0 (length cfg.limits)
            then some (check_custom_limits ctx cfg.limits s)
            else none)

    -- The default behaviour: the limits of the policy.
    unfoldable pub default_limits : Policy → (Context → List Scope) → Context → S → Outcome × S
    unfolding client_key exceeded_message
    default_limits policy resolve ctx s =
        let (r, s') = policy_allow store policy (client_key ctx) (resolve ctx) s in
        elim r [
          | err e ↦ (rejected 500 (text "internal server error"), s')
          | ok (allowed, exceeded) ↦
              if not allowed then (rejected 429 (exceeded_message exceeded), s') else (passed, s')
        ]

    -- `PolicyRateLimiter`
    unfoldable pub policy_rate_limiter : Policy → (Context → List Scope) → Context → S → Outcome × S
    unfolding handle_endpoint_config default_limits
    policy_rate_limiter policy resolve ctx s = elim (get_endpoint_config ctx) [
      | none ↦ default_limits policy resolve ctx s
      | some cfg ↦ elim (handle_endpoint_config ctx cfg s) [
        | some handled ↦ handled
        | none ↦ default_limits policy resolve ctx s
      ]
    ]
