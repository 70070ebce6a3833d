-- ===== src/RateLimit/Policy.antt =====
-- internal/ratelimit/policy.go and policy_limiter.go: the builder, and the two loops of `Allow`.
use mathlib.Core.List.{Memᴰ}
use web_demo_go.Prelude.{
  ◌≤ℤ◌, ◌≡◌, refl, ap, sym, ◌∙◌, Bool, true, false, Option, none, some, List, [], ◌∷◌, ◌++◌, Text,
  Text_eq, text_eq, text_eq_iff, lookup, lookup-insert, ℤ, ltb_ℤ, ltb_ℤ_iff, ◌<ℤ◌, Result, ok, err,
  if◌then◌else◌, arith, Option-cases, Bool-cases, inl, inr, Result-cases,
}
use web_demo_go.RateLimit.{
  RateStore, LimitConfig, Scope, Policy, LimitExceeded, limits_of, add_limit, build_key,
  check_limits, policy_allow,
}

-- `AddLimit` appends to the limits of its scope and leaves the other scopes alone.
pub limits_of-add_limit :
    (scope q : Scope) (max window : ℤ) (p : Policy)
    → limits_of q (add_limit scope max window p) ≡ (
        if text_eq scope q
        then limits_of q p ++ record { window = window; max = max } ∷ []
        else limits_of q p)
unfolding limits_of add_limit
limits_of-add_limit scope q max window p = ground (
  arith,
  lookup-insert scope q (limits_of scope p ++ record { window = window; max = max } ∷ []) p,
  text_eq_iff scope q,
)

-- The limits that apply to a request, in the order in which they are checked.
unfoldable pub tag_limits : Scope → List LimitConfig → List (Scope × LimitConfig)
tag_limits scope [] = []
tag_limits scope (limit ∷ limits) = (scope, limit) ∷ tag_limits scope limits

unfoldable pub applicable : Policy → List Scope → List (Scope × LimitConfig)
applicable policy [] = []
applicable policy (scope ∷ scopes) =
    tag_limits scope (limits_of scope policy) ++ applicable policy scopes

module _ {S : Type 0} (store : RateStore S) where
  -- One loop over the applicable limits.
  unfoldable pub check_all :
      Text → List (Scope × LimitConfig) → S → Result (Option LimitExceeded) × S
  check_all client_key [] s = (ok none, s)
  check_all client_key ((scope, limit) ∷ limits) s =
      let (r, s') = store.record_request (build_key client_key scope limit) limit.window s in
      let rest = check_all client_key limits s' in
      elim r [
        | err e ↦ (err e, s')
        | ok count ↦
            if ltb_ℤ limit.max count
            then (ok (some (record { scope = scope; config = limit; count = count })), s')
            else rest
      ]

  abbrev pub verdict : Result (Option LimitExceeded) → Result (Bool × Option LimitExceeded)
  verdict (err e) = err e
  verdict (ok none) = ok (true, none)
  verdict (ok (some x)) = ok (false, some x)

  -- What follows a loop that ran to its end.
  abbrev pub continue_with :
      (S → Result (Option LimitExceeded) × S)
      → Result (Option LimitExceeded) × S
      → Result (Option LimitExceeded) × S
  continue_with next (err e, s) = (err e, s)
  continue_with next (ok (some x), s) = (ok (some x), s)
  continue_with next (ok none, s) = next s

  check_all-append :
      (client_key : Text) (scope : Scope) (limits : List LimitConfig)
      (more : List (Scope × LimitConfig)) (s : S)
      → check_all client_key (tag_limits scope limits ++ more) s
        ≡ continue_with (check_all client_key more) (check_limits store client_key scope limits s)
  unfolding check_all check_limits tag_limits
  check_all-append client_key scope [] more s = refl
  check_all-append client_key scope (limit ∷ limits) more s = ground (
    arith,
    check_all-append client_key scope limits more
        (store.record_request (build_key client_key scope limit) limit.window s).1,
  )

  -- The nested loops of `Allow` check exactly the applicable limits, one after the other, up to the
  -- first that fails or is exceeded.
  pub policy_allow-check_all :
      (policy : Policy) (client_key : Text) (scopes : List Scope) (s : S)
      → policy_allow store policy client_key scopes s ≡ (
        verdict (check_all client_key (applicable policy scopes) s).0,
        (check_all client_key (applicable policy scopes) s).1,
      )
  unfolding policy_allow applicable check_all tag_limits limits_of
  policy_allow-check_all policy client_key [] s = refl
  policy_allow-check_all policy client_key (scope ∷ scopes) s =
      elim (Option-cases (lookup scope policy)) [
        | inl missing ↦ ground (arith, policy_allow-check_all policy client_key scopes s)
        | inr (limits, found) ↦ ground (
          arith,
          check_all-append client_key scope limits (applicable policy scopes) s,
          policy_allow-check_all policy client_key scopes
              (check_limits store client_key scope limits s).1,
        )
      ]

  verdict-some :
      (r : Result (Option LimitExceeded)) (allowed : Bool) (x : LimitExceeded)
      → verdict r ≡ ok (allowed, some x)
      → (allowed ≡ false) × (r ≡ ok (some x))
  verdict-some (err e) allowed x h = absurd (ground arith)
  verdict-some (ok none) allowed x h = absurd (ground arith)
  verdict-some (ok (some y)) allowed x h = ground arith

  verdict-true :
      (r : Result (Option LimitExceeded)) (x : Option LimitExceeded)
      → verdict r ≡ ok (true, x)
      → (x ≡ none) × (r ≡ ok none)
  verdict-true (err e) x h = absurd (ground arith)
  verdict-true (ok none) x h = ground arith
  verdict-true (ok (some y)) x h = absurd (ground arith)

  module _ (client_key : Text) where
    -- Each of the limits records the request in the state that the ones before it leave, and gets
    -- a count that is not above its maximum.
    abbrev pub Counted : List (Scope × LimitConfig) → S → Type 0
    Counted [] s = Unit
    Counted ((scope, limit) ∷ limits) s =
        ((count : ℤ) × ((store.record_request (build_key client_key scope limit) limit.window s).0
            ≡ ok count)
          × (count ≤ℤ limit.max))
        × Counted limits (store.record_request (build_key client_key scope limit) limit.window s).1

    -- A limit has counted the request above its maximum, in the state that the limits before it
    -- leave, which have counted it within theirs; `x` tells this limit and this count.
    pub data Exceeded (x : LimitExceeded) : List (Scope × LimitConfig) → S → Type 0 where
      exceeds_first :
          (scope : Scope) (limit : LimitConfig) (limits : List (Scope × LimitConfig)) (s : S)
          (count : ℤ)
          → (store.record_request (build_key client_key scope limit) limit.window s).0 ≡ ok count
          → limit.max <ℤ count
          → record { scope = scope; config = limit; count = count } ≡ x
          → Exceeded x ((scope, limit) ∷ limits) s
      exceeds_later :
          (scope : Scope) (limit : LimitConfig) (limits : List (Scope × LimitConfig)) (s : S)
          (count : ℤ)
          → (store.record_request (build_key client_key scope limit) limit.window s).0 ≡ ok count
          → count ≤ℤ limit.max
          → Exceeded x limits
              (store.record_request (build_key client_key scope limit) limit.window s).1
          → Exceeded x ((scope, limit) ∷ limits) s

    check_all-Exceeded :
        (limits : List (Scope × LimitConfig)) (s : S) (x : LimitExceeded)
        → (check_all client_key limits s).0 ≡ ok (some x)
        → Exceeded x limits s
    unfolding check_all
    check_all-Exceeded [] s x h = absurd (ground arith)
    check_all-Exceeded ((scope, limit) ∷ limits) s x h =
        let out = store.record_request (build_key client_key scope limit) limit.window s in
        elim (Result-cases out.0) [
          | inr (e, failed) ↦ absurd (ground arith)
          | inl (count, counted) ↦ elim (Bool-cases (ltb_ℤ limit.max count)) [
            | inl over ↦
                exceeds_first scope limit limits s count counted
                  (ground (arith, ltb_ℤ_iff limit.max count)) (ground arith)
            | inr under ↦
                exceeds_later scope limit limits s count counted
                  (ground (arith, ltb_ℤ_iff limit.max count))
                  (check_all-Exceeded limits out.1 x (ground arith))
          ]
        ]

    check_all-exceeded :
        (limits : List (Scope × LimitConfig)) (s : S) (x : LimitExceeded)
        → (check_all client_key limits s).0 ≡ ok (some x)
        → (x.config.max <ℤ x.count) × Memᴰ (x.scope, x.config) limits
    unfolding check_all
    check_all-exceeded [] s x h = absurd (ground arith)
    check_all-exceeded ((scope, limit) ∷ limits) s x h =
        let out = store.record_request (build_key client_key scope limit) limit.window s in
        elim (Result-cases out.0) [
          | inr (e, failed) ↦ absurd (ground arith)
          | inl (count, counted) ↦ elim (Bool-cases (ltb_ℤ limit.max count)) [
            | inl over ↦
                let same : record { scope = scope; config = limit; count = count } ≡ x =
                  ground arith in
                (
                  ground (arith, ltb_ℤ_iff limit.max count),
                  Memᴰ.head (sym (ap (λ y. (y.scope, y.config)) same)),
                )
            | inr under ↦
                let (over, listed) = check_all-exceeded limits out.1 x (ground arith) in
                (over, Memᴰ.tail listed)
          ]
        ]

    check_all-Counted :
        (limits : List (Scope × LimitConfig)) (s : S)
        → (check_all client_key limits s).0 ≡ ok none
        → Counted limits s
    unfolding check_all
    check_all-Counted [] s h = tt
    check_all-Counted ((scope, limit) ∷ limits) s h =
        let out = store.record_request (build_key client_key scope limit) limit.window s in
        elim (Result-cases out.0) [
          | inr (e, failed) ↦ absurd (ground arith)
          | inl (count, counted) ↦ elim (Bool-cases (ltb_ℤ limit.max count)) [
            | inl over ↦ absurd (ground arith)
            | inr under ↦ (
              (count, counted, ground (arith, ltb_ℤ_iff limit.max count)),
              check_all-Counted limits out.1 (ground arith),
            )
          ]
        ]

    module _ (policy : Policy) (scopes : List Scope) (s : S) where
      -- Where a limit is reported as exceeded the request is denied, and the limit is one that
      -- applies to it and has a count above its maximum.
      pub policy_allow-exceeded :
          (allowed : Bool) (x : LimitExceeded)
          → (policy_allow store policy client_key scopes s).0 ≡ ok (allowed, some x)
          → (allowed ≡ false)
            × (x.config.max <ℤ x.count)
            × Memᴰ (x.scope, x.config) (applicable policy scopes)
      policy_allow-exceeded allowed x h =
          let all = check_all client_key (applicable policy scopes) s in
          let same = ap (λ r. r.0) (policy_allow-check_all policy client_key scopes s) in
          let (denied, found) = verdict-some all.0 allowed x (sym same ∙ h) in
          let (over, listed) = check_all-exceeded (applicable policy scopes) s x found in
          (denied, over, listed)

      pub policy_allow-Exceeded :
          (allowed : Bool) (x : LimitExceeded)
          → (policy_allow store policy client_key scopes s).0 ≡ ok (allowed, some x)
          → Exceeded x (applicable policy scopes) s
      policy_allow-Exceeded allowed x h =
          let all = check_all client_key (applicable policy scopes) s in
          let same = ap (λ r. r.0) (policy_allow-check_all policy client_key scopes s) in
          let (denied, found) = verdict-some all.0 allowed x (sym same ∙ h) in
          check_all-Exceeded (applicable policy scopes) s x found

      -- An allowed request comes with no exceeded limit, has been recorded under every limit that
      -- applies to it, one after the other, and no count was above its maximum.
      pub policy_allow-Counted :
          (x : Option LimitExceeded)
          → (policy_allow store policy client_key scopes s).0 ≡ ok (true, x)
          → (x ≡ none) × Counted (applicable policy scopes) s
      policy_allow-Counted x h =
          let all = check_all client_key (applicable policy scopes) s in
          let same = ap (λ r. r.0) (policy_allow-check_all policy client_key scopes s) in
          let (no_limit, found) = verdict-true all.0 x (sym same ∙ h) in
          (no_limit, check_all-Counted (applicable policy scopes) s found)
