-- ===== src/RateLimit/Scope.antt =====
-- internal/ratelimit/scope.go, and the parts of a `huma.Context` that the service reads.
use web_demo_go.Prelude.{
  Bool, Option, none, some, List, [], ◌∷◌, ◌||◌, Text, text, text_eq, Text_eq, Map, lookup,
  if◌then◌else◌, not,
}
use web_demo_go.RateLimit.{LimitConfig, Scope}

abbrev pub scope_global : Scope
scope_global = text "global"

abbrev pub scope_read : Scope
scope_read = text "read"

abbrev pub scope_write : Scope
scope_write = text "write"

abbrev pub metadata_key : Text
metadata_key = text "rateLimit"

pub record EndpointConfig : Type 0 where
  -- empty: detect the scope by the method
  pub scope : Scope
  pub limits : List LimitConfig
  pub disabled : Bool

-- A metadata value of type `any`: an `EndpointConfig`, or something else.
pub data Metadata : Type 0 where
  endpoint_config : EndpointConfig → Metadata
  other_value : Metadata

-- `huma.Operation`; a nil map of metadata is `none`.
pub record Operation : Type 0 where
  pub path : Text
  pub metadata : Option (Map Text Metadata)

pub record Context : Type 0 where
  pub method : Text
  pub operation : Option Operation
  -- `ctx.Header(name)`, "" where the request has no such header
  pub header : Text → Text
  pub host : Text

-- `MethodScopeResolver.Resolve`
unfoldable pub resolve_method : Context → List Scope
unfolding text_eq
resolve_method ctx =
    scope_global
    ∷ (if text_eq ctx.method (text "GET")
          || (text_eq ctx.method (text "HEAD") || text_eq ctx.method (text "OPTIONS"))
        then scope_read ∷ []
        else scope_write ∷ [])

-- The type assertion of the metadata's value.
unfoldable pub as_endpoint_config : Option Metadata → Option EndpointConfig
as_endpoint_config none = none
as_endpoint_config (some (endpoint_config cfg)) = some cfg
as_endpoint_config (some other_value) = none

-- `GetEndpointConfig`
unfoldable pub get_endpoint_config : Context → Option EndpointConfig
unfolding as_endpoint_config
get_endpoint_config ctx = elim ctx.operation [
  | none ↦ none
  | some op ↦ elim op.metadata [
    | none ↦ none
    | some metadata ↦ as_endpoint_config (lookup metadata_key metadata)
  ]
]

-- The configured scope, if it is not empty.
unfoldable pub resolve_config : Context → Option EndpointConfig → List Scope
unfolding resolve_method
resolve_config ctx none = resolve_method ctx
resolve_config ctx (some cfg) =
    if not (text_eq cfg.scope []) then scope_global ∷ cfg.scope ∷ [] else resolve_method ctx

-- `OperationScopeResolver.Resolve`
unfoldable pub resolve_operation : Context → List Scope
unfolding resolve_config as_endpoint_config
resolve_operation ctx = elim ctx.operation [
  | none ↦ resolve_method ctx
  | some op ↦ elim op.metadata [
    | none ↦ resolve_method ctx
    | some metadata ↦ resolve_config ctx (as_endpoint_config (lookup metadata_key metadata))
  ]
]
