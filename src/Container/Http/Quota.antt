-- ===== src/Container/Http/Quota.antt =====
-- The first limit of POST /shorten (internal/handlers/routes.go) on a run of requests, over
-- internal/ratelimit/store/memory.go.
use mathlib.Core.Path.{subst}
use web_demo_go.Prelude.{
  ℕ, suc, List, [], ◌∷◌, Text, text, text_eq, text_eq_iff, ℤ, pos, ◌*◌, ◌-◌, length, arith, All,
  sym, ◌≡◌, ◌≤◌, inl, inr, true, Bool-cases,
}
use web_demo_go.Shortener.{Sources}
use web_demo_go.RateLimit.{LimitConfig}
use web_demo_go.RateLimit.Memory.{Memory, neg64, memory_store}
use web_demo_go.RateLimit.Burst.{since_start}
use web_demo_go.RateLimit.Scope.{Context}
use web_demo_go.Handlers.{CreateShortUrlRequest, UrlHandler}
use web_demo_go.Handlers.Routes.{minute, shorten_limits, redirect_limits}
use web_demo_go.Middleware.{Lib, client_key, custom_key}
use web_demo_go.Container.{Options}
use web_demo_go.Container.Http.{Server, serve_create, serve_redirect}
use web_demo_go.Container.Http.Bursts.{
  InMinute, Kept, Long, check_custom-Kept, check_custom-since, check_custom-max,
}
use web_demo_go.Container.Http.Limited.{
  Request, creates, redirects, is_answered, created_by, create_checks, serve_create-limits,
  serve_create-passed, serve_redirect-limits,
}

shorten-Long : All Long shorten_limits
unfolding neg64
shorten-Long = (omega arith, (omega arith, (omega arith, tt)))

redirect-Long : All Long redirect_limits
unfolding neg64
redirect-Long = (omega arith, tt)

abbrev per_minute : LimitConfig
per_minute = record { window = minute; max = pos 10 }

module _ {S P : Type 0} (lib : Lib) (clock : ℕ → ℤ) (from : ℤ) (opts : Options) (h : UrlHandler S P)
    (sources : Sources) where
  -- How many requests of POST /shorten of a client are stored since the start of the burst.
  abbrev counted : Text → Memory → ℕ
  counted client m = since_start clock from (custom_key lib client (text "/shorten") per_minute) m

  module _ (ctx : Context) (req : CreateShortUrlRequest) (s : Server S P Memory)
      (burst : InMinute clock from s.limits.ticks 3) where
    abbrev created : Server S P Memory
    created = (serve_create lib (memory_store clock) opts h ctx req s).1

    create-Kept : Kept clock from 3 s.limits created.limits
    unfolding create_checks
    create-Kept =
        subst (Kept clock from 3 s.limits)
          (sym (serve_create-limits lib clock opts h sources ctx req s))
          (check_custom-Kept clock from lib (client_key lib ctx) (text "/shorten") shorten_limits
            s.limits shorten-Long burst)

    create-counted :
        suc (counted (client_key lib ctx) s.limits) ≤ counted (client_key lib ctx) created.limits
    unfolding create_checks
    create-counted =
        subst (λ m. suc (counted (client_key lib ctx) s.limits) ≤ counted (client_key lib ctx) m)
          (sym (serve_create-limits lib clock opts h sources ctx req s))
          (check_custom-since clock from lib (client_key lib ctx) (text "/shorten") per_minute _
            s.limits (shorten-Long.0) (shorten-Long.1) burst)

    create_within :
        is_answered (serve_create lib (memory_store clock) opts h ctx req s).0 ≡ true
        → suc (counted (client_key lib ctx) s.limits) ≤ 10
    unfolding create_checks
    create_within answer = omega (
      arith,
      check_custom-max clock from lib (client_key lib ctx) (text "/shorten") per_minute _ s.limits
          (shorten-Long.0) (shorten-Long.1) burst
          (serve_create-passed lib clock opts h sources ctx req s answer),
    )

  redirect-Kept :
      (ctx : Context) (code : Text) (s : Server S P Memory)
      → InMinute clock from s.limits.ticks 1
      → Kept clock from 1 s.limits
          (serve_redirect lib (memory_store clock) opts h sources ctx code s).1.limits
  redirect-Kept ctx code s burst =
      subst (Kept clock from 1 s.limits)
        (sym (serve_redirect-limits lib clock opts h sources ctx code s))
        (check_custom-Kept clock from lib (client_key lib ctx) (text "/{code}") redirect_limits
          s.limits redirect-Long burst)

  created_by-counted :
      (client : Text) (requests : List Request) (s : Server S P Memory)
      → InMinute clock from s.limits.ticks (3 * length requests)
      → created_by lib clock opts h sources client requests s ≤ 10 - counted client s.limits
  unfolding created_by
  created_by-counted client [] s burst = omega arith
  created_by-counted client (creates ctx req ∷ requests) s burst =
      let now : InMinute clock from s.limits.ticks 3 = λ i h k. burst i h (omega (arith, k)) in
      let kept = create-Kept ctx req s now in
      let out = serve_create lib (memory_store clock) opts h ctx req s in
      let rest =
        created_by-counted client requests out.1
          (λ i h k. burst i (omega (arith, h, kept.later)) (omega (arith, k, kept.soon))) in
      let grown = kept.grows (custom_key lib client (text "/shorten") per_minute) in
      elim (Bool-cases (text_eq (client_key lib ctx) client)) [
        | inr other ↦ ground (arith, rest, grown)
        | inl same ↦ elim (Bool-cases (is_answered out.0)) [
          | inr refused ↦ ground (arith, rest, grown)
          | inl answer ↦
              let below = create_within ctx req s now answer in
              let more = create-counted ctx req s now in
              let mine = text_eq_iff (client_key lib ctx) client in
              ground (arith, rest, below, more, mine)
        ]
      ]
  created_by-counted client (redirects ctx code ∷ requests) s burst =
      let now : InMinute clock from s.limits.ticks 1 = λ i h k. burst i h (omega (arith, k)) in
      let kept = redirect-Kept ctx code s now in
      let rest =
        created_by-counted client requests
          (serve_redirect lib (memory_store clock) opts h sources ctx code s).1
          (λ i h k. burst i (omega (arith, h, kept.later)) (omega (arith, k, kept.soon))) in
      omega (arith, rest, kept.grows (custom_key lib client (text "/shorten") per_minute))

  -- With the rate limits in memory, in any state of them, and a run of requests of any clients on
  -- both routes during which every reading of the clock, at most three for each request, lies
  -- between a time `from` and a minute after it: at most ten requests of POST /shorten of one client
  -- reach the handler.
  pub created_by-minute :
      (client : Text) (requests : List Request) (s : Server S P Memory)
      → InMinute clock from s.limits.ticks (3 * length requests)
      → created_by lib clock opts h sources client requests s ≤ 10
  created_by-minute client requests s burst =
      omega (arith, created_by-counted client requests s burst)
