-- ===== src/Tests/Requests.antt =====
-- Requests through internal/middleware/ratelimit.go under a strict policy.
use web_demo_go.Prelude.{
  Option, none, some, true, Map, trim_space, insert, ◌+ℤ◌, ◌≡◌, refl, [], ◌∷◌, lookup, arith, Text,
  text, if◌then◌else◌, text_eq,
}
use web_demo_go.RateLimit.{build_key, check_limits, new_policy_builder, add_limit, policy_allow}
use web_demo_go.RateLimit.Memory.{Memory, new_memory, record_request, neg64}
use web_demo_go.RateLimit.Scope.{
  Metadata, resolve_method, Context, EndpointConfig, endpoint_config, metadata_key,
  get_endpoint_config,
}
use web_demo_go.Middleware.{
  Outcome, rejected, Lib, passed, policy_rate_limiter, client_ip, extract_client_ip,
}
use web_demo_go.Middleware.Refusals.{Refused, policy_rate_limiter-Refused}
use web_demo_go.Middleware.Laws.{client_ip-forwarded, Admitted, policy_rate_limiter-Admitted}
use web_demo_go.Tests.Limits.{counters, strict}

abbrev pub proxy_lib : Lib
proxy_lib = record {
  sha256_hex = λ t. t;
  split_host = λ h. some h;
  duration_string = λ d. text "1m0s";
  wide = record { trim_func = λ t. t; trim_right_func = λ t. t };
}

abbrev request : Option (Map Text Metadata) → Context
request metadata = record {
  method = text "GET";
  operation = some (record { path = text "/x"; metadata = metadata });
  header = λ name. if text_eq name (text "X-Forwarded-For") then text " 1.2.3.4, 5.6.7.8" else [];
  host = text "9.9.9.9:1";
}

client_ip-forwarded_example :
    (client_ip proxy_lib (request none) ≡ text "1.2.3.4")
    × (extract_client_ip proxy_lib (request none) ≡ text "1.2.3.4")
unfolding trim_space text_eq
client_ip-forwarded_example =
    client_ip-forwarded proxy_lib (request none) (text " 1.2.3.4") (text " 5.6.7.8") (ground arith)
      refl

abbrev unlimited : EndpointConfig
unlimited = record { scope = []; limits = []; disabled = true }

abbrev open_request : Context
open_request = request (some ((metadata_key, endpoint_config unlimited) ∷ []))

open_config : get_endpoint_config open_request ≡ some unlimited
unfolding get_endpoint_config lookup text_eq
open_config = refl

first_passed :
    (policy_rate_limiter proxy_lib counters strict resolve_method (request none) new_memory).0
    ≡ passed
unfolding policy_rate_limiter get_endpoint_config policy_allow resolve_method lookup add_limit
    insert new_policy_builder check_limits record_request new_memory build_key
first_passed = refl

policy_rate_limiter-Admitted_example :
    Admitted proxy_lib counters strict resolve_method (request none) new_memory
policy_rate_limiter-Admitted_example =
    policy_rate_limiter-Admitted proxy_lib counters strict resolve_method (request none) new_memory
      first_passed

abbrev first_outcome : Outcome × Memory
first_outcome =
    policy_rate_limiter proxy_lib counters strict resolve_method (request none) new_memory

abbrev refusal_message : Text
refusal_message = text "rate limit exceeded: global scope, 2/1 requests in 1m0s"

refused_again :
    (policy_rate_limiter proxy_lib counters strict resolve_method (request none) first_outcome.1).0
    ≡ rejected 429 refusal_message
unfolding policy_rate_limiter get_endpoint_config policy_allow resolve_method lookup add_limit
    insert new_policy_builder check_limits record_request new_memory build_key ◌+ℤ◌ neg64
refused_again = refl

policy_rate_limiter-Refused_example :
    Refused proxy_lib counters strict resolve_method (request none) first_outcome.1 refusal_message
policy_rate_limiter-Refused_example =
    policy_rate_limiter-Refused proxy_lib counters strict resolve_method (request none)
      first_outcome.1 refusal_message refused_again
