-- ===== src/RateLimit.antt =====
-- internal/ratelimit: store.go, limiter.go, policy.go and policy_limiter.go. A `time.Duration` and
-- an int64 are integers; a duration is in nanoseconds.
pub mod Memory
pub mod Redis
pub mod Scope
pub mod Window
pub mod Burst
pub mod Limiter
pub mod Keys
pub mod Policy
use web_demo_go.Prelude.{
  Bool, true, false, Option, none, some, List, [], ◌∷◌, ◌++◌, Text, text, Text_eq, Map, lookup,
  insert, ℤ, leb_ℤ, ltb_ℤ, Result, ok, err, if◌then◌else◌, print_int, div_trunc,
}

-- The interface `Store`, over its state `S`: `Record` returns the count in the window.
pub record RateStore (S : Type 0) : Type 0 where
  pub record_request : Text → ℤ → S → Result ℤ × S

pub record SlidingWindowLimiter : Type 0 where
  pub limit : ℤ
  pub window : ℤ

pub record LimitConfig : Type 0 where
  pub window : ℤ
  pub max : ℤ

abbrev pub Scope : Type 0
Scope = Text

-- `Policy`, whose one field is the map of limits.
abbrev pub Policy : Type 0
Policy = Map Scope (List LimitConfig)

pub record LimitExceeded : Type 0 where
  pub scope : Scope
  pub config : LimitConfig
  pub count : ℤ

-- `NewPolicyBuilder`, `AddLimit` and `Build`: a builder holds the map that the policy gets.
unfoldable pub new_policy_builder : Policy
new_policy_builder = []

-- `b.limits[scope]`, nil where the scope has no entry.
unfoldable pub limits_of : Scope → Policy → List LimitConfig
limits_of scope p = elim (lookup scope p) [ none ↦ [] | some limits ↦ limits ]

unfoldable pub add_limit : Scope → ℤ → ℤ → Policy → Policy
unfolding limits_of
add_limit scope max window p =
    insert scope (limits_of scope p ++ record { window = window; max = max } ∷ []) p

-- `limit.Window.Milliseconds()`
unfoldable pub milliseconds : ℤ → ℤ
unfolding div_trunc
milliseconds d = div_trunc d 1_000_000

unfoldable pub build_key : Text → Scope → LimitConfig → Text
unfolding milliseconds print_int
build_key client_key scope limit =
    client_key ++ (text ":" ++ (scope ++ (text ":" ++ print_int (milliseconds limit.window))))

module _ {S : Type 0} (store : RateStore S) where
  -- `SlidingWindowLimiter.Allow`
  unfoldable pub sliding_allow : SlidingWindowLimiter → Text → S → Result Bool × S
  sliding_allow l key s =
      let (r, s') = store.record_request key l.window s in
      elim r [ err e ↦ (err e, s') | ok count ↦ (ok (leb_ℤ count l.limit), s') ]

  -- The inner loop of `PolicyLimiter.Allow`; `none` says that it ran to its end.
  unfoldable pub check_limits :
      Text → Scope → List LimitConfig → S → Result (Option LimitExceeded) × S
  check_limits client_key scope [] s = (ok none, s)
  check_limits client_key scope (limit ∷ limits) s =
      let (r, s') = store.record_request (build_key client_key scope limit) limit.window s in
      let rest = check_limits client_key scope limits s' in
      elim r [
        | err e ↦ (err e, s')
        | ok count ↦
            if ltb_ℤ limit.max count
            then (ok (some (record { scope = scope; config = limit; count = count })), s')
            else rest
      ]

  -- `PolicyLimiter.Allow`: the first two results, or the error.
  unfoldable pub policy_allow :
      Policy → Text → List Scope → S → Result (Bool × Option LimitExceeded) × S
  policy_allow policy client_key [] s = (ok (true, none), s)
  policy_allow policy client_key (scope ∷ scopes) s = elim (lookup scope policy) [
    | none ↦ policy_allow policy client_key scopes s
    | some limits ↦
        let (r, s') = check_limits client_key scope limits s in
        let rest = policy_allow policy client_key scopes s' in
        elim r [
          | err e ↦ (err e, s')
          | ok (some exceeded) ↦ (ok (false, some exceeded), s')
          | ok none ↦ rest
        ]
  ]
