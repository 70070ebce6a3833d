-- ===== src/RateLimit/Keys.antt =====
-- The keys of the counters of internal/ratelimit/policy_limiter.go.
use web_demo_go.Prelude.{print_int_injective, ◌≡◌, ◌≢◌, [], ◌∷◌, ◌++◌, Text, arith, All}
use web_demo_go.RateLimit.{LimitConfig, Scope, build_key, milliseconds}

-- No byte is a colon.
abbrev pub NoColon : Text → Type 0
NoColon = All (λ b. b ≢ b':')

split_colon :
    (s t a b : Text) → NoColon s → NoColon t → s ++ b':' ∷ a ≡ t ++ b':' ∷ b → (s ≡ t) × (a ≡ b)
split_colon [] [] a b n k h = ground arith
split_colon [] (y ∷ t) a b n k h = absurd (ground arith)
split_colon (x ∷ s) [] a b n k h = absurd (ground arith)
split_colon (x ∷ s) (y ∷ t) a b n k h = ground (arith, split_colon s t a b)

-- Two counters have one key only if the client, the scope and the milliseconds of the window agree,
-- where neither the client keys nor the scopes hold a colon.
pub build_key_injective :
    (client client' : Text) (scope scope' : Scope) (limit limit' : LimitConfig)
    → NoColon client
    → NoColon client'
    → NoColon scope
    → NoColon scope'
    → build_key client scope limit ≡ build_key client' scope' limit'
    → (client ≡ client')
      × (scope ≡ scope')
      × (milliseconds limit.window ≡ milliseconds limit'.window)
unfolding build_key
build_key_injective client client' scope scope' limit limit' a b c d h =
    let (clients, rest) = split_colon client client' _ _ a b h in
    let (scopes, windows) = split_colon scope scope' _ _ c d rest in
    (
      clients,
      scopes,
      print_int_injective (milliseconds limit.window) (milliseconds limit'.window) windows,
    )
