-- ===== src/Middleware/Refusals.antt =====
-- The answers 429 of internal/middleware/ratelimit.go.

use web_demo_go.Prelude.{
  print_int, text, ◌++◌, ◌≤ℤ◌, ◌≡◌, sym, ap, ◌∙◌, false, Option, none, some, List, [], ◌∷◌, Text, ℤ,
  ltb_ℤ, ltb_ℤ_iff, ◌<ℤ◌, Result, ok, err, arith, Option-cases, Result-cases, Bool-cases, inl, inr,
  ltb, length,
}
use web_demo_go.RateLimit.{RateStore, LimitConfig, Policy, Scope, LimitExceeded, policy_allow}
use web_demo_go.RateLimit.Policy.{
  policy_allow-Exceeded, Exceeded, applicable, policy_allow-check_all, verdict, check_all,
}
use web_demo_go.RateLimit.Scope.{Operation, Context, EndpointConfig, get_endpoint_config}
use web_demo_go.Middleware.Laws.{PolicyApplies, no_length}
use web_demo_go.Middleware.{
  Lib, rejected, client_key, custom_key, custom_message, exceeded_message, check_custom,
  check_custom_limits, handle_endpoint_config, default_limits, policy_rate_limiter,
}

module _ (lib : Lib) {S : Type 0} (store : RateStore S) where
  -- One of the limits has counted the request above its maximum, in the state that the limits
  -- before it leave, which have counted it within theirs.
  pub data CustomExceeded (client path : Text) (exceeded : LimitConfig) (count : ℤ)
      : List LimitConfig → S → Type 0 where
    custom_first :
        (limits : List LimitConfig) (s : S)
        → (store.record_request (custom_key lib client path exceeded) exceeded.window s).0
          ≡ ok count
        → exceeded.max <ℤ count
        → CustomExceeded client path exceeded count (exceeded ∷ limits) s
    custom_later :
        (limit : LimitConfig) (limits : List LimitConfig) (s : S) (n : ℤ)
        → (store.record_request (custom_key lib client path limit) limit.window s).0 ≡ ok n
        → n ≤ℤ limit.max
        → CustomExceeded client path exceeded count limits
            (store.record_request (custom_key lib client path limit) limit.window s).1
        → CustomExceeded client path exceeded count (limit ∷ limits) s

  check_custom-rejected :
      (client path message : Text) (limits : List LimitConfig) (s : S)
      → (check_custom lib store client path limits s).0 ≡ rejected 429 message
      → (limit : LimitConfig) × (count : ℤ) × CustomExceeded client path limit count limits s
        × (message ≡ custom_message lib count limit)
  unfolding check_custom
  check_custom-rejected client path message [] s h = absurd (ground arith)
  check_custom-rejected client path message (limit ∷ limits) s h =
      let out = store.record_request (custom_key lib client path limit) limit.window s in
      elim (Result-cases out.0) [
        | inr (e, failed) ↦ absurd (ground arith)
        | inl (count, counted) ↦ elim (Bool-cases (ltb_ℤ limit.max count)) [
          | inl over ↦ (
            limit,
            count,
            custom_first limits s counted (ground (arith, ltb_ℤ_iff limit.max count)),
            ground arith,
          )
          | inr under ↦
              let (l, n, above, said) =
                check_custom-rejected client path message limits out.1 (ground arith) in
              (
                l,
                n,
                custom_later limit limits s count counted
                    (ground (arith, ltb_ℤ_iff limit.max count)) above,
                said,
              )
        ]
      ]

  verdict-false :
      (r : Result (Option LimitExceeded)) (x : Option LimitExceeded)
      → verdict store r ≡ ok (false, x)
      → (y : LimitExceeded) × (x ≡ some y)
  verdict-false (err e) x h = absurd (ground arith)
  verdict-false (ok none) x h = absurd (ground arith)
  verdict-false (ok (some y)) x h = (y, ground arith)

  module _ (policy : Policy) (resolve : Context → List Scope) (ctx : Context) (s : S) where
    -- What has refused a request, with the message that it is told.
    pub data Refused (message : Text) : Type 0 where
      by_custom :
          (cfg : EndpointConfig) (op : Operation) (limit : LimitConfig) (count : ℤ)
          → get_endpoint_config ctx ≡ some cfg
          → cfg.disabled ≡ false
          → ctx.operation ≡ some op
          → CustomExceeded (client_key lib ctx) op.path limit count cfg.limits s
          → message
            ≡ text "rate limit exceeded: "
              ++ (print_int count
                  ++ (text "/"
                      ++ (print_int limit.max
                          ++ (text " requests in " ++ lib.duration_string limit.window))))
          → Refused message
      by_policy :
          (x : LimitExceeded)
          → PolicyApplies ctx
          → Exceeded store (client_key lib ctx) x (applicable policy (resolve ctx)) s
          → message
            ≡ text "rate limit exceeded: "
              ++ (x.scope
                  ++ (text " scope, "
                      ++ (print_int x.count
                          ++ (text "/"
                              ++ (print_int x.config.max
                                  ++ (text " requests in "
                                      ++ lib.duration_string x.config.window))))))
          → Refused message

    default-Refused :
        (message : Text)
        → PolicyApplies ctx
        → (default_limits lib store policy resolve ctx s).0 ≡ rejected 429 message
        → Refused message
    unfolding default_limits exceeded_message
    default-Refused message applies h =
        let key = client_key lib ctx in
        let out = policy_allow store policy key (resolve ctx) s in
        elim (Result-cases out.0) [
          | inr (e, failed) ↦ absurd (ground arith)
          | inl ((allowed, exceeded), result) ↦ elim (Bool-cases allowed) [
            | inl so ↦ absurd (ground arith)
            | inr denied ↦
                let refused : out.0 ≡ ok (false, exceeded) = ground arith in
                let (x, named) =
                  verdict-false (check_all store key (applicable policy (resolve ctx)) s).0 exceeded
                    (sym (ap (λ r. r.0) (policy_allow-check_all store policy key (resolve ctx) s))
                      ∙ refused) in
                let above =
                  policy_allow-Exceeded store key policy (resolve ctx) s false x
                    (refused ∙ ap (λ o. ok (false, o)) named) in
                by_policy x applies above (ground arith)
          ]
        ]

    -- A request that is answered 429 is told the first limit that has counted it above its maximum:
    -- this count, as the store gives it after the limits before, the maximum and the window. It is a
    -- limit of the endpoint where the endpoint's configuration is not disabled and has limits, and
    -- one that the policy has for the request's scopes, which is told too, where the endpoint has no
    -- configuration, or one that is not disabled and has no limits.
    pub policy_rate_limiter-Refused :
        (message : Text)
        → (policy_rate_limiter lib store policy resolve ctx s).0 ≡ rejected 429 message
        → Refused message
    unfolding policy_rate_limiter handle_endpoint_config check_custom_limits custom_message
    policy_rate_limiter-Refused message h = elim (Option-cases (get_endpoint_config ctx)) [
      | inl missing ↦ default-Refused message (inl missing) (ground arith)
      | inr (cfg, found) ↦ elim (Bool-cases cfg.disabled) [
        | inl off ↦ absurd (ground arith)
        | inr on ↦ elim (Bool-cases (ltb 0 (length cfg.limits))) [
          | inr empty ↦
              default-Refused message (inr (cfg, found, on, no_length cfg.limits empty))
                (ground arith)
          | inl some_limits ↦ elim (Option-cases ctx.operation) [
            | inl nothing ↦ absurd (ground arith)
            | inr (op, known) ↦
                let (limit, count, above, said) =
                  check_custom-rejected (client_key lib ctx) op.path message cfg.limits s
                    (ground arith) in
                by_custom cfg op limit count found on known above said
          ]
        ]
      ]
    ]
