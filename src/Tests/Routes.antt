-- ===== src/Tests/Routes.antt =====
-- The two routes of internal/handlers/routes.go under the policy of internal/container, and variants
-- of one URL.
use web_demo_go.Prelude.{◌≡◌, refl, inr, some, [], ◌++◌, Text, text, text_eq, ◌*◌, pos, ok}
use web_demo_go.RateLimit.{RateStore}
use web_demo_go.RateLimit.Memory.{Memory, new_memory, memory_store}
use web_demo_go.RateLimit.Scope.{Context, resolve_method, resolve_operation}
use web_demo_go.Handlers.Routes.{redirect_operation}
use web_demo_go.Container.{Options, build_policy}
use web_demo_go.Middleware.{Lib, policy_rate_limiter}
use web_demo_go.Middleware.Routes.{policy_rate_limiter-routes}
use web_demo_go.Shortener.UrlHash.{has_suffix, Url, UrlLib, normalize_url}
use web_demo_go.Shortener.Normal.{SamePage, same, vary, end_slash, normalize_url-SamePage}

abbrev counted : RateStore Memory
counted = memory_store (λ n. pos (n * 1_000_000_000))

abbrev plain_lib : Lib
plain_lib = record {
  sha256_hex = λ t. t;
  split_host = λ h. some h;
  duration_string = λ d. text "1m0s";
  wide = record { trim_func = λ t. t; trim_right_func = λ t. t };
}

abbrev read_request : Context
read_request = record {
  method = text "GET";
  operation = some redirect_operation;
  header = λ name. [];
  host = text "9.9.9.9:1";
}

-- The options of a deployment that allows no reads at all.
abbrev no_reads : Options
no_reads = record {
  port = pos 8888;
  code_length = pos 8;
  redis_addr = text "localhost:6379";
  database_url = [];
  rate_limit_store = text "memory";
  cache_size = pos 1000;
  cache_ttl = pos 3_600_000_000_000;
  log_format = text "console";
  topic_url_created = text "url.created";
  topic_url_accessed = text "url.accessed";
  consumer_group = text "analytics";
  rate_limit_global_per_day = pos 0;
  rate_limit_read_per_minute = pos 0;
  rate_limit_write_per_minute = pos 10;
  rate_limit_write_per_hour = pos 100;
  rate_limit_write_per_day = pos 500;
}

policy_rate_limiter-routes_example :
    policy_rate_limiter plain_lib counted
      (build_policy no_reads)
      resolve_operation
      read_request
      new_memory
    ≡ policy_rate_limiter plain_lib counted [] resolve_method read_request new_memory
policy_rate_limiter-routes_example =
    policy_rate_limiter-routes plain_lib counted (build_policy no_reads) [] resolve_operation
      resolve_method read_request new_memory (inr refl)

-- The path and the fragment stand on both sides of a mark.
abbrev url_lib : UrlLib (Unit {0})
url_lib = record {
  parse = λ t. ok (record { scheme = []; host = []; path = t; fragment = []; other = tt });
  to_string = λ u. u.path ++ u.fragment;
  to_lower_wide = λ t. t;
  sha256_hex = λ t. t;
}

abbrev page : Text → Url (Unit {0})
page t = record { scheme = []; host = []; path = t; fragment = []; other = tt }

with_slash : SamePage url_lib (page (text "/a")) (page (text "/a/"))
unfolding has_suffix text_eq
with_slash = vary (same (page (text "/a"))) (end_slash (λ e. cc) refl)

normalize_url-SamePage_example :
    normalize_url url_lib (text "/a") ≡ normalize_url url_lib (text "/a/")
normalize_url-SamePage_example =
    normalize_url-SamePage url_lib (text "/a") (text "/a/") (page (text "/a")) (page (text "/a/"))
      refl refl with_slash
