-- ===== src/RateLimit/Redis.antt =====
-- internal/ratelimit/store/redis.go. The client and the Redis server behind it are a parameter; the
-- results of `time.Now` are a function of the number of the call.
pub mod Server
pub mod Laws
pub mod Rounding
use web_demo_go.Prelude.{
  ℕ, zero, suc, ◌+◌, ◌*◌, ◌/◌, ◌%◌, ◌^◌, ltb, nat_eq, List, [], ◌∷◌, ◌++◌, Text, text, ℤ, pos,
  negsuc, sub_ℕ, ◌+ℤ◌, Result, ok, err, print_int, if◌then◌else◌,
}
use web_demo_go.RateLimit.{RateStore}
use web_demo_go.RateLimit.Memory.{neg64}

-- The distance of two float64 values that lie as far from 0 as `n`, from `p` on. It doubles with
-- each power of two past the 53 bits of a float64, at most 11 times for a number of 64 bits.
unfoldable pub spacing : ℕ → ℕ → ℕ → ℕ
spacing zero p n = p
spacing (suc fuel) p n = let rest = spacing fuel (2 * p) n in if ltb n (2 ^ 53 * p) then p else rest

-- The multiple of `p` next to `n`, of two the even one.
unfoldable pub round_even : ℕ → ℕ → ℕ
round_even n p =
    let down = n / p in
    let twice = 2 * (n % p) in
    if ltb twice p
    then down * p
    else if ltb p twice
    then (down + 1) * p
    else if nat_eq (down % 2) 0
    then down * p
    else (down + 1) * p

-- `float64(n)`; a float64 that is an integer is shown by it.
unfoldable pub float64 : ℤ → ℤ
unfolding spacing round_even
float64 (pos n) = pos (round_even n (spacing 11 1 n))
float64 (negsuc n) = sub_ℕ 0 (round_even (suc n) (spacing 11 1 (suc n)))

-- The commands of the pipeline. `FormatFloat` with the precision -1 gives a text that reads back as
-- the same number, which stands for it.
pub data RateCommand : Type 0 where
  -- ZREMRANGEBYSCORE of a key, from -inf up to a score
  remove_up_to : Text → ℤ → RateCommand
  -- ZADD to a key of a score and a member
  add_member : Text → ℤ → Text → RateCommand
  -- ZCARD of a key
  cardinality : Text → RateCommand
  -- EXPIRE of a key, after a time
  expire_after : Text → ℤ → RateCommand

-- `Exec` of a pipeline, over the state `R` of the server: the reply to its ZCARD, or the error.
abbrev pub RateClient : Type 0 → Type 0
RateClient R = List RateCommand → R → Result ℤ × R

pub record RedisLimits (R : Type 0) : Type 0 where
  pub redis : R
  pub ticks : ℕ

abbrev pub limit_prefix : Text
limit_prefix = text "ratelimit:"

-- `time.Second`
abbrev second : ℤ
second = pos 1_000_000_000

unfoldable pub rate_commands : Text → ℤ → ℤ → List RateCommand
unfolding float64 print_int
rate_commands key window now =
    remove_up_to (limit_prefix ++ key) (float64 (now +ℤ neg64 window))
    ∷ add_member (limit_prefix ++ key) (float64 now) (print_int now)
    ∷ cardinality (limit_prefix ++ key)
    ∷ expire_after (limit_prefix ++ key) (window +ℤ second)
    ∷ []

module _ {R : Type 0} (client : RateClient R) (clock : ℕ → ℤ) where
  -- `Record`
  unfoldable pub record_redis : Text → ℤ → RedisLimits R → Result ℤ × RedisLimits R
  unfolding rate_commands
  record_redis key window s =
      let (r, redis) = client (rate_commands key window (clock s.ticks)) s.redis in
      (r, record { redis = redis; ticks = suc s.ticks })

  abbrev pub redis_store : RateStore (RedisLimits R)
  redis_store = record { record_request = record_redis }
