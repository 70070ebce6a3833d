-- ===== src/Tests/Limits.antt =====
-- Requests to the in-memory rate limit store, whose clock ticks once a second, for
-- internal/ratelimit and internal/middleware.
use web_demo_go.Prelude.{
  leb_ℤ, Option, none, some, true, false, List, ◌<ℤ◌, insert, ◌+ℤ◌, ◌≡◌, refl, [], ◌∷◌, ◌++◌, ℕ,
  suc, ◌*◌, ℤ, pos, ◌≤ℤ◌, lookup, arith, Text, text, ok, text_eq,
}
use web_demo_go.RateLimit.{
  SlidingWindowLimiter, sliding_allow, build_key, check_limits, Scope, LimitExceeded, LimitConfig,
  Policy, RateStore, new_policy_builder, add_limit, milliseconds, policy_allow,
}
use web_demo_go.RateLimit.Memory.{
  Memory, new_memory, prune, timestamps_of, record_request, memory_store, neg64,
}
use web_demo_go.RateLimit.Limiter.{sliding_allow-window}
use web_demo_go.RateLimit.Window.{history_of, record_all, record-window, within}
use web_demo_go.RateLimit.Scope.{scope_global, scope_read}
use web_demo_go.RateLimit.Keys.{build_key_injective}
use web_demo_go.RateLimit.Policy.{Counted, policy_allow-exceeded, policy_allow-Counted, applicable}
use mathlib.Core.List.{Memᴰ}

abbrev seconds : ℕ → ℤ
seconds n = pos (n * 1_000_000_000)

abbrev two_seconds : Text → ℤ
two_seconds k = pos 2_000_000_000

abbrev pub counters : RateStore Memory
counters = memory_store seconds

-- The third request of a key finds that the first is no longer in the window.
third_count :
    (record_request seconds
      (text "k")
      (pos 2_000_000_000)
      (record_all seconds two_seconds (text "k" ∷ text "k" ∷ []) new_memory)).0
    ≡ ok (pos 2)
unfolding record_request record_all new_memory prune neg64 timestamps_of lookup insert text_eq ◌+ℤ◌
third_count = refl

seconds_step : (n : ℕ) → seconds n ≤ℤ seconds (suc n)
seconds_step n = omega arith

record-window_example :
    (record_request seconds
      (text "k")
      (pos 2_000_000_000)
      (record_all seconds two_seconds (text "k" ∷ text "j" ∷ text "k" ∷ []) new_memory)).0
    ≡ ok (
        pos (
          within
            (seconds
              (record_all seconds two_seconds
                (text "k" ∷ text "j" ∷ text "k" ∷ [])
                new_memory).ticks)
            (pos 2_000_000_000)
            (history_of seconds two_seconds
                (text "k" ∷ text "j" ∷ text "k" ∷ [])
                0
                (λ k. [])
                (text "k")
              ++ seconds
                  (record_all seconds two_seconds
                    (text "k" ∷ text "j" ∷ text "k" ∷ [])
                    new_memory).ticks
                ∷ [])))
record-window_example =
    record-window seconds two_seconds seconds_step (λ k. omega arith)
      (text "k" ∷ text "j" ∷ text "k" ∷ []) (text "k")

abbrev one_each : SlidingWindowLimiter
one_each = record { limit = pos 1; window = pos 2_000_000_000 }

abbrev after_two : Memory
after_two = record_all seconds two_seconds (text "k" ∷ text "j" ∷ []) new_memory

sliding_allow-window_example :
    (sliding_allow counters one_each (text "k") after_two).0
    ≡ ok (
        leb_ℤ
          (pos (
            within (seconds after_two.ticks) (pos 2_000_000_000) (
              history_of seconds two_seconds (text "k" ∷ text "j" ∷ []) 0 (λ k. []) (text "k")
              ++ seconds after_two.ticks ∷ [])))
          (pos 1))
sliding_allow-window_example =
    sliding_allow-window seconds seconds_step one_each (text "k" ∷ text "j" ∷ []) (text "k")
      (omega arith)

abbrev one_per_minute : LimitConfig
one_per_minute = record { window = pos 60_000_000_000; max = pos 1 }

-- One request a minute of every kind, and one read.
abbrev pub strict : Policy
strict =
    add_limit scope_read (pos 1) (pos 60_000_000_000)
      (add_limit scope_global (pos 1) (pos 60_000_000_000) new_policy_builder)

build_key_injective_example :
    (text "c" ≡ text "c")
    × (scope_read ≡ scope_read)
    × (milliseconds one_per_minute.window ≡ milliseconds one_per_minute.window)
build_key_injective_example =
    build_key_injective (text "c") (text "c") scope_read scope_read one_per_minute one_per_minute
      (ground arith) (ground arith) (ground arith) (ground arith) refl

-- The second read of a client is refused for the global scope.
abbrev scopes : List Scope
scopes = scope_global ∷ scope_read ∷ []

abbrev second : Memory
second = (policy_allow counters strict (text "c") scopes new_memory).1

abbrev refusal : LimitExceeded
refusal = record { scope = scope_global; config = one_per_minute; count = pos 2 }

second_refused :
    (policy_allow counters strict (text "c") scopes second).0 ≡ ok (false, some refusal)
unfolding policy_allow lookup add_limit insert new_policy_builder text_eq check_limits
    record_request new_memory build_key ◌+ℤ◌ neg64
second_refused = refl

policy_allow-exceeded_example :
    (false ≡ false)
    × (pos 1 <ℤ pos 2)
    × Memᴰ (scope_global, one_per_minute) (applicable strict scopes)
policy_allow-exceeded_example =
    policy_allow-exceeded counters (text "c") strict scopes second false refusal second_refused

first_allowed : (policy_allow counters strict (text "c") scopes new_memory).0 ≡ ok (true, none)
unfolding policy_allow lookup add_limit insert new_policy_builder text_eq check_limits
    record_request new_memory build_key
first_allowed = refl

abbrev no_refusal : Option LimitExceeded
no_refusal = none

policy_allow-Counted_example :
    (no_refusal ≡ none) × Counted counters (text "c") (applicable strict scopes) new_memory
policy_allow-Counted_example =
    policy_allow-Counted counters (text "c") strict scopes new_memory none first_allowed
