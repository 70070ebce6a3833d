-- ===== src/Health.antt =====
-- internal/health/handler.go.
use web_demo_go.Prelude.{Option, none, some, Text, text, Error}

pub record Response : Type 0 where
  pub status : Text
  pub redis : Text

-- `Check`, by the result of `Ping`.
unfoldable pub check : Option Error → Response
check (some e) = record { status = text "degraded"; redis = text "unhealthy" }
check none = record { status = text "ok"; redis = text "healthy" }
