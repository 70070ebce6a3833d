-- ===== src/RateLimit/Redis/Server.antt =====
-- The sorted sets of a Redis server behind internal/ratelimit/store/redis.go. A set whose time to
-- live ends is one that a later call would empty; the end itself is left out.
use web_demo_go.Prelude.{
  ◌≡◌, List, [], ◌∷◌, Text, Text_eq, text_eq, Map, insert, ℤ, pos, ltb_ℤ, length, ok, if◌then◌else◌,
}
use web_demo_go.RateLimit.Redis.{
  RateCommand, remove_up_to, add_member, cardinality, expire_after, RateClient,
}

-- The score of each member.
abbrev pub SortedSet : Type 0
SortedSet = Map Text ℤ

unfoldable pub above : ℤ → SortedSet → SortedSet
above max [] = []
above max ((member, score) ∷ set) =
    let rest = above max set in if ltb_ℤ max score then (member, score) ∷ rest else rest

unfoldable pub run_rate : RateCommand → (Text → SortedSet) → Text → SortedSet
unfolding above
run_rate (remove_up_to key max) sets k = if text_eq key k then above max (sets k) else sets k
run_rate (add_member key score member) sets k =
    if text_eq key k then insert member score (sets k) else sets k
run_rate (cardinality key) sets k = sets k
run_rate (expire_after key ttl) sets k = sets k

unfoldable pub run_rates : List RateCommand → (Text → SortedSet) → Text → SortedSet
unfolding run_rate
run_rates [] sets = sets
run_rates (command ∷ commands) sets = run_rates commands (run_rate command sets)

-- The reply to the last ZCARD, `count` where there is none.
unfoldable pub last_count : List RateCommand → (Text → SortedSet) → ℤ → ℤ
unfolding run_rate
last_count [] sets count = count
last_count (cardinality key ∷ commands) sets count =
    last_count commands sets (pos (length (sets key)))
last_count (remove_up_to key max ∷ commands) sets count =
    last_count commands (run_rate (remove_up_to key max) sets) count
last_count (add_member key score member ∷ commands) sets count =
    last_count commands (run_rate (add_member key score member) sets) count
last_count (expire_after key ttl ∷ commands) sets count = last_count commands sets count

-- A pipeline that reports no error has run.
pub record IsRateServer {R : Type 0} (client : RateClient R) (sets : R → Text → SortedSet)
    : Type 0 where
  pub runs :
      (commands : List RateCommand) (r : R) (n : ℤ)
      → (client commands r).0 ≡ ok n
      → (k : Text) → sets (client commands r).1 k ≡ run_rates commands (sets r) k
  pub counts :
      (commands : List RateCommand) (r : R) (n : ℤ)
      → (client commands r).0 ≡ ok n
      → n ≡ last_count commands (sets r) (pos 0)
