-- ===== src/Middleware/Laws.antt =====
-- The decisions of internal/middleware/ratelimit.go, and the client address.
use web_demo_go.Prelude.{
  refl, ◌⊎◌, false, ◌≡◌, ◌≢◌, inl, inr, true, some, List, [], ◌∷◌, ◌++◌, ℕ, Text, text, text_eq_iff,
  ℤ, ltb_ℤ, ltb_ℤ_iff, ◌≤ℤ◌, ok, arith, Option-cases, Result-cases, Bool-cases, before_first,
  trim_space, All, length, ltb,
}
use web_demo_go.RateLimit.{RateStore, LimitConfig, Policy, Scope, policy_allow}
use web_demo_go.RateLimit.Policy.{Counted, applicable, policy_allow-Counted}
use web_demo_go.RateLimit.Scope.{Context, Operation, EndpointConfig, get_endpoint_config}
use web_demo_go.Middleware.{
  none, Lib, passed, first_forwarded, client_ip, extract_client_ip, client_key, custom_key,
  check_custom, check_custom_limits, handle_endpoint_config, default_limits, policy_rate_limiter,
}

before_first-append :
    (b : ℕ) (s t : Text) → All (λ c. c ≢ b) s → before_first b (s ++ b ∷ t) ≡ some s
unfolding before_first
before_first-append b [] t n = ground arith
before_first-append b (c ∷ s) t n = ground (arith, before_first-append b s t)

append_ne_nil : (s : Text) (b : ℕ) (t : Text) → (s ++ b ∷ t) ≢ []
append_ne_nil [] b t = λ e. cc
append_ne_nil (c ∷ s) b t = λ e. cc

pub no_length : {A : Type 0} (l : List A) → ltb 0 (length l) ≡ false → l ≡ []
no_length [] h = refl
no_length (x ∷ l) h = absurd (ground arith)

pub some_length : {A : Type 0} (l : List A) → ltb 0 (length l) ≡ true → l ≢ []
some_length [] h = absurd (ground arith)
some_length (x ∷ l) h = λ e. cc

-- The policy applies: the endpoint has no configuration, or one that is neither disabled nor has
-- limits.
abbrev pub PolicyApplies : Context → Type 0
PolicyApplies ctx =
    (get_endpoint_config ctx ≡ none)
    ⊎ ((cfg : EndpointConfig) × (get_endpoint_config ctx ≡ some cfg)
        × (cfg.disabled ≡ false)
        × (cfg.limits ≡ []))

module _ (lib : Lib) where
  -- Where X-Forwarded-For holds a comma, both middlewares name the same client: the trimmed text
  -- before the first one.
  pub client_ip-forwarded :
      (ctx : Context) (first more : Text)
      → All (λ c. c ≢ b',') first
      → ctx.header (text "X-Forwarded-For") ≡ first ++ b',' ∷ more
      → (client_ip lib ctx ≡ trim_space lib.wide first)
        × (extract_client_ip lib ctx ≡ trim_space lib.wide first)
  unfolding client_ip extract_client_ip first_forwarded
  client_ip-forwarded ctx first more plain h =
      let cut = before_first-append b',' first more plain in
      let some_text = append_ne_nil first b',' more in
      ground (arith, text_eq_iff (first ++ b',' ∷ more) [])

  has_operation :
      (ctx : Context) (cfg : EndpointConfig)
      → get_endpoint_config ctx ≡ some cfg
      → (op : Operation) × (ctx.operation ≡ some op)
  unfolding get_endpoint_config
  has_operation ctx cfg h = elim (Option-cases ctx.operation) [
    | inl missing ↦ absurd (ground arith)
    | inr found ↦ found
  ]

  module _ {S : Type 0} (store : RateStore S) where
    -- Each custom limit records the request in the state that the ones before it leave, and gets a
    -- count that is not above its maximum.
    abbrev pub CustomCounted : Text → Text → List LimitConfig → S → Type 0
    CustomCounted client path [] s = Unit
    CustomCounted client path (limit ∷ limits) s =
        ((count : ℤ) × ((store.record_request (custom_key lib client path limit) limit.window s).0
            ≡ ok count)
          × (count ≤ℤ limit.max))
        × CustomCounted client path limits
            (store.record_request (custom_key lib client path limit) limit.window s).1

    pub check_custom-passed :
        (client path : Text) (limits : List LimitConfig) (s : S)
        → (check_custom lib store client path limits s).0 ≡ passed
        → CustomCounted client path limits s
    unfolding check_custom
    check_custom-passed client path [] s h = tt
    check_custom-passed client path (limit ∷ limits) s h =
        let out = store.record_request (custom_key lib client path limit) limit.window s in
        elim (Result-cases out.0) [
          | inr (e, failed) ↦ absurd (ground arith)
          | inl (count, counted) ↦ elim (Bool-cases (ltb_ℤ limit.max count)) [
            | inl over ↦ absurd (ground arith)
            | inr under ↦ (
              (count, counted, ground (arith, ltb_ℤ_iff limit.max count)),
              check_custom-passed client path limits out.1 (ground arith),
            )
          ]
        ]

    module _ (policy : Policy) (resolve : Context → List Scope) (ctx : Context) (s : S) where
      -- What has let a request pass.
      pub data Admitted : Type 0 where
        disabled :
            (cfg : EndpointConfig)
            → get_endpoint_config ctx ≡ some cfg
            → cfg.disabled ≡ true
            → Admitted
        custom :
            (cfg : EndpointConfig) (op : Operation)
            → get_endpoint_config ctx ≡ some cfg
            → cfg.disabled ≡ false
            → cfg.limits ≢ []
            → ctx.operation ≡ some op
            → CustomCounted (client_key lib ctx) op.path cfg.limits s
            → Admitted
        default :
            PolicyApplies ctx
            → Counted store (client_key lib ctx) (applicable policy (resolve ctx)) s
            → Admitted

      default-Admitted :
          PolicyApplies ctx → (default_limits lib store policy resolve ctx s).0 ≡ passed → Admitted
      unfolding default_limits
      default-Admitted applies h =
          let out = policy_allow store policy (client_key lib ctx) (resolve ctx) s in
          elim (Result-cases out.0) [
            | inr (e, failed) ↦ absurd (ground arith)
            | inl ((allowed, exceeded), result) ↦ elim (Bool-cases allowed) [
              | inr not_so ↦ absurd (ground arith)
              | inl so ↦
                  default applies
                    (policy_allow-Counted store (client_key lib ctx) policy (resolve ctx) s exceeded
                      (ground arith)).1
            ]
          ]

      -- A request passes only if its endpoint's configuration disables limits; or it has limits,
      -- which have all counted the request within their maximum; or it has none, or there is no
      -- configuration, and all limits that the policy has for the request's scopes have counted it
      -- within their maximum.
      pub policy_rate_limiter-Admitted :
          (policy_rate_limiter lib store policy resolve ctx s).0 ≡ passed → Admitted
      unfolding policy_rate_limiter handle_endpoint_config check_custom_limits
      policy_rate_limiter-Admitted h = elim (Option-cases (get_endpoint_config ctx)) [
        | inl missing ↦ default-Admitted (inl missing) (ground arith)
        | inr (cfg, found) ↦ elim (Bool-cases cfg.disabled) [
          | inl off ↦ disabled cfg found off
          | inr on ↦ elim (Bool-cases (ltb 0 (length cfg.limits))) [
            | inr empty ↦
                default-Admitted (inr (cfg, found, on, no_length cfg.limits empty)) (ground arith)
            | inl some_limits ↦
                let (op, known) = has_operation ctx cfg found in
                custom cfg op found on (some_length cfg.limits some_limits) known
                  (check_custom-passed (client_key lib ctx) op.path cfg.limits s (ground arith))
          ]
        ]
      ]
