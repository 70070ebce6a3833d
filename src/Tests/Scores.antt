-- ===== src/Tests/Scores.antt =====
-- Two requests at the same nanosecond, of internal/ratelimit/store/redis.go over sorted sets.
use web_demo_go.Prelude.{
  insert, text_eq, Result, ◌≡◌, ◌≢◌, refl, ℕ, [], ◌++◌, Text, Text_eq, text, ℤ, pos, ◌≤ℤ◌, ◌<ℤ◌,
  ◌+ℤ◌, ◌-ℤ◌, ok, length, arith, suc, IsInt64,
}
use web_demo_go.RateLimit.Memory.{neg64, prune}
use web_demo_go.RateLimit.Redis.{RateClient, RedisLimits, limit_prefix, float64, record_redis}
use web_demo_go.RateLimit.Redis.Server.{SortedSet, run_rates, last_count, IsRateServer}
use web_demo_go.RateLimit.Redis.Laws.{
  entries, times_after, record_redis-times, record_redis-same_instant,
}
use web_demo_go.RateLimit.Redis.Rounding.{record_redis-window}

abbrev client : RateClient (Text → SortedSet)
client commands sets = (ok (last_count commands sets (pos 0)), run_rates commands sets)

pick : (m n : ℤ) → ok m ≡ ok n → n ≡ m
pick m n e = ground arith

abbrev server : IsRateServer client (λ sets. sets)
server = record {
  runs = λ commands sets n e k. refl;
  counts = λ commands sets n e. pick (last_count commands sets (pos 0)) n e;
}

-- Time stands still.
abbrev clock : ℕ → ℤ
clock n = pos 100

abbrev started : RedisLimits (Text → SortedSet)
started = record { redis = λ k. []; ticks = 0 }

empty_set : started.redis (limit_prefix ++ text "k") ≡ entries []
unfolding entries
empty_set = refl

abbrev record_one : RedisLimits (Text → SortedSet) → Result ℤ × RedisLimits (Text → SortedSet)
record_one = record_redis client clock (text "k") (pos 50)

first : (record_one started).0 ≡ ok (pos 1)
unfolding record_redis last_count text_eq insert
first = refl

second : (record_one (record_one started).1).0 ≡ ok (pos 1)
unfolding record_redis last_count text_eq insert run_rates ◌+ℤ◌ neg64
second = refl

record_redis-times_example :
    (pos 1 ≡ pos (length (times_after server clock (pos 50) started [])))
    × ((record_one started).1.redis (limit_prefix ++ text "k")
        ≡ entries (times_after server clock (pos 50) started []))
    × ((other : Text)
        → text "k" ≢ other
        → (record_one started).1.redis (limit_prefix ++ other)
          ≡ started.redis (limit_prefix ++ other))
record_redis-times_example =
    record_redis-times server clock (text "k") (pos 50) started [] (pos 1) empty_set first

long : float64 (pos 100 +ℤ neg64 (pos 50)) <ℤ float64 (pos 100)
unfolding float64 neg64 ◌+ℤ◌
long = omega arith

record_redis-same_instant_example : pos 1 ≡ pos 1
record_redis-same_instant_example =
    record_redis-same_instant server clock (text "k") (pos 50) started [] (pos 1) (pos 1) empty_set
      refl long first second

cutoff_small : IsInt64 (pos 100 +ℤ neg64 (pos 50))
unfolding neg64 ◌+ℤ◌
cutoff_small = omega arith

record_redis-window_example :
    (pos (length (prune ((pos 100 +ℤ neg64 (pos 50)) +ℤ pos 2048) [])) ≤ℤ pos 1)
    × (pos 1 ≤ℤ pos (suc (length (prune ((pos 100 +ℤ neg64 (pos 50)) -ℤ pos 2048) []))))
record_redis-window_example =
    record_redis-window server clock (text "k") (pos 50) started [] (pos 1) empty_set cutoff_small
      tt first
