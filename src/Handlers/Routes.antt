-- ===== src/Handlers/Routes.antt =====
-- internal/handlers/routes.go: the two operations and their own rate limits. Summaries, tags and
-- descriptions, which no code reads, are left out.
use web_demo_go.Prelude.{List, some, [], ◌∷◌, false, ℤ, pos, text}
use web_demo_go.RateLimit.{LimitConfig}
use web_demo_go.RateLimit.Scope.{Operation, endpoint_config, metadata_key}

-- A minute, an hour and a day in nanoseconds.
abbrev pub minute : ℤ
minute = pos 60_000_000_000

abbrev pub hour : ℤ
hour = pos 3_600_000_000_000

abbrev pub day : ℤ
day = pos 86_400_000_000_000

abbrev pub shorten_limits : List LimitConfig
shorten_limits =
    record { window = minute; max = pos 10 }
    ∷ record { window = hour; max = pos 100 }
    ∷ record { window = day; max = pos 500 }
    ∷ []

abbrev pub redirect_limits : List LimitConfig
redirect_limits = record { window = minute; max = pos 1000 } ∷ []

-- POST /shorten
abbrev pub shorten_operation : Operation
shorten_operation = record {
  path = text "/shorten";
  metadata = some (
      (
        metadata_key,
        endpoint_config (record { scope = []; limits = shorten_limits; disabled = false }),
      )
      ∷ []);
}

-- GET /{code}
abbrev pub redirect_operation : Operation
redirect_operation = record {
  path = text "/{code}";
  metadata = some (
      (
        metadata_key,
        endpoint_config (record { scope = []; limits = redirect_limits; disabled = false }),
      )
      ∷ []);
}
