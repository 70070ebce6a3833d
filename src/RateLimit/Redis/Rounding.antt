-- ===== src/RateLimit/Redis/Rounding.antt =====
-- The float64 scores of internal/ratelimit/store/redis.go, which round nanoseconds.
use native.Mathlib.Nat.{div-add-mod', lt-div-mul-add, suc-mul}
use web_demo_go.Prelude.{
  List, [], ◌∷◌, ◌++◌, Text, ok, All, length, ◌-ℤ◌, -ℤ_parts, ◌≡◌, ℕ, zero, suc, ◌+◌, ◌*◌, ◌/◌, ◌^◌,
  ◌≤◌, ◌<◌, ℤ, pos, negsuc, ◌≤ℤ◌, ◌+ℤ◌, +ℤ_parts, IsInt64, arith,
}
use web_demo_go.RateLimit.Memory.{neg64, prune}
use web_demo_go.RateLimit.Redis.{
  spacing, round_even, float64, RateClient, RedisLimits, limit_prefix, record_redis,
}
use web_demo_go.RateLimit.Redis.Laws.{entries, prune_float, add_time, record_redis-times}
use web_demo_go.RateLimit.Redis.Server.{SortedSet, IsRateServer}

round_even-near :
    (n p : ℕ) → 0 < p → (2 * round_even n p ≤ 2 * n + p) × (2 * n ≤ 2 * round_even n p + p)
unfolding round_even
round_even-near n p h =
    ground (arith, div-add-mod' n p, lt-div-mul-add {a = n} h, suc-mul (n / p) p)

-- The spacing is never far above the number, in units of 2^52.
spacing-bound :
    (fuel p n : ℕ)
    → 2 ^ 52 * p ≤ n
    → 0 < p
    → (2 ^ 52 * spacing fuel p n ≤ n) × (0 < spacing fuel p n)
unfolding spacing
spacing-bound zero p n h positive = (h, positive)
spacing-bound (suc fuel) p n h positive = ground (arith, spacing-bound fuel (2 * p) n)

spacing-Int64 : (n : ℕ) → n ≤ 2 ^ 63 → (spacing 11 1 n ≤ 2 ^ 11) × (0 < spacing 11 1 n)
unfolding spacing
spacing-Int64 n h = ground (arith, spacing-bound 10 2 n)

near_round :
    (n : ℕ)
    → n ≤ 2 ^ 63
    → (round_even n (spacing 11 1 n) ≤ n + 1024) × (n ≤ round_even n (spacing 11 1 n) + 1024)
near_round n h =
    let (small, positive) = spacing-Int64 n h in
    ground (arith, round_even-near n (spacing 11 1 n) positive)

-- Rounding a 64-bit number to a float64 moves it by no more than 1024.
pub float64-near : (t : ℤ) → IsInt64 t → (float64 t ≤ℤ t +ℤ pos 1024) × (t ≤ℤ float64 t +ℤ pos 1024)
unfolding float64
float64-near (pos n) h =
    ground (arith, near_round n, +ℤ_parts (pos n) (pos 1024), +ℤ_parts (float64 (pos n)) (pos 1024))
float64-near (negsuc n) h = ground (
  arith,
  near_round (suc n),
  +ℤ_parts (negsuc n) (pos 1024),
  +ℤ_parts (float64 (negsuc n)) (pos 1024),
)

prune_float-between :
    (cutoff : ℤ) (times : List ℤ)
    → IsInt64 cutoff
    → All IsInt64 times
    → (length (prune (cutoff +ℤ pos 2048) times) ≤ length (prune_float cutoff times))
      × (length (prune_float cutoff times) ≤ length (prune (cutoff -ℤ pos 2048) times))
unfolding prune prune_float
prune_float-between cutoff [] c all = ground arith
prune_float-between cutoff (t ∷ times) c (here, all) =
    let (up, down) = float64-near cutoff c in
    let (up', down') = float64-near t here in
    ground (
      arith,
      prune_float-between cutoff times c all,
      +ℤ_parts cutoff (pos 2048),
      -ℤ_parts cutoff (pos 2048),
      +ℤ_parts cutoff (pos 1024),
      +ℤ_parts (float64 cutoff) (pos 1024),
      +ℤ_parts t (pos 1024),
      +ℤ_parts (float64 t) (pos 1024),
    )

length-add_time :
    (now : ℤ) (times : List ℤ)
    → (length times ≤ length (add_time now times))
      × (length (add_time now times) ≤ suc (length times))
unfolding add_time
length-add_time now [] = ground arith
length-add_time now (t ∷ times) = ground (arith, length-add_time now times)

module _ {R : Type 0} {client : RateClient R} {sets : R → Text → SortedSet}
    (server : IsRateServer client sets) (clock : ℕ → ℤ) where
  -- On a server that runs the pipelines on which it reports no error, with times of 64 bits, the
  -- count of `Record` is at least the number of earlier times of the key that lie in the window
  -- shortened by 2048 nanoseconds, and at most one more than the number of those in the window
  -- lengthened by as much.
  pub record_redis-window :
      (key : Text) (window : ℤ) (s : RedisLimits R) (times : List ℤ) (n : ℤ)
      → let cutoff = clock s.ticks +ℤ neg64 window in
        sets s.redis (limit_prefix ++ key) ≡ entries times
        → IsInt64 cutoff
        → All IsInt64 times
        → (record_redis client clock key window s).0 ≡ ok n
        → (pos (length (prune (cutoff +ℤ pos 2048) times)) ≤ℤ n)
          × (n ≤ℤ pos (suc (length (prune (cutoff -ℤ pos 2048) times))))
  record_redis-window key window s times n holds c all done =
      let cutoff = clock s.ticks +ℤ neg64 window in
      let (count, _, _) = record_redis-times server clock key window s times n holds done in
      let (low, high) = prune_float-between cutoff times c all in
      let (more, less) = length-add_time (clock s.ticks) (prune_float cutoff times) in
      rw count (ground arith)
