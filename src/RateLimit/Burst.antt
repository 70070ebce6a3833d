-- ===== src/RateLimit/Burst.antt =====
-- The timestamps that internal/ratelimit/store/memory.go keeps through a burst of requests, which
-- is shorter than every window.
use web_demo_go.Prelude.{
  ℕ, suc, List, [], ◌∷◌, ◌++◌, Text, text_eq, text_eq_iff, ℤ, pos, ◌+ℤ◌, ◌≤ℤ◌, ◌<ℤ◌, ltb_ℤ, ok,
  length, if◌then◌else◌, arith, ◌≡◌, ◌≤◌, Bool-cases, inl, inr,
}
use web_demo_go.RateLimit.Memory.{Memory, neg64, prune, timestamps_of, record_request}
use web_demo_go.RateLimit.Window.{timestamps-insert}

-- How many of the times are not before `from`.
unfoldable pub since : ℤ → List ℤ → ℕ
since from [] = 0
since from (t ∷ l) = let rest = since from l in if ltb_ℤ t from then rest else suc rest

since-prune :
    (from cutoff : ℤ) (l : List ℤ) → cutoff <ℤ from → since from l ≤ since from (prune cutoff l)
unfolding since prune
since-prune from cutoff [] h = ground arith
since-prune from cutoff (t ∷ l) h = ground (arith, since-prune from cutoff l)

since-append : (from t : ℤ) (l : List ℤ) → from ≤ℤ t → since from (l ++ t ∷ []) ≡ suc (since from l)
unfolding since
since-append from t [] h = ground arith
since-append from t (x ∷ l) h = ground (arith, since-append from t l)

since-length : (from : ℤ) (l : List ℤ) → since from l ≤ length l
unfolding since
since-length from [] = ground arith
since-length from (t ∷ l) = ground (arith, since-length from l)

module _ (clock : ℕ → ℤ) (from : ℤ) where
  -- How many requests of a key are stored since the start of the burst.
  abbrev pub since_start : Text → Memory → ℕ
  since_start k m = since from (timestamps_of k m)

  unfoldable stored : Text → ℤ → Memory → List ℤ
  stored key window m =
      prune (clock m.ticks +ℤ neg64 window) (timestamps_of key m) ++ clock m.ticks ∷ []

  module _ (key : Text) (window : ℤ) (m : Memory) (started : from ≤ℤ clock m.ticks)
      (within : clock m.ticks +ℤ neg64 window <ℤ from) where
    grown : suc (since_start key m) ≤ since from (stored key window m)
    unfolding stored
    grown =
        let c = clock m.ticks +ℤ neg64 window in
        omega (
          arith,
          since-append from (clock m.ticks) (prune c (timestamps_of key m)) started,
          since-prune from c (timestamps_of key m) within,
        )

    -- The count that `Record` gives is above that of the burst before it.
    pub record-count :
        (n : ℤ) → (record_request clock key window m).0 ≡ ok n → pos (suc (since_start key m)) ≤ℤ n
    unfolding record_request stored
    record-count n h = let long = since-length from (stored key window m) in ground (arith, grown)

    record_lookup :
        (k : Text)
        → timestamps_of k (record_request clock key window m).1
          ≡ (if text_eq key k then stored key window m else timestamps_of k m)
    unfolding record_request stored
    record_lookup k = timestamps-insert key k (stored key window m) m.requests (suc m.ticks)

    pub record-since_self :
        suc (since_start key m) ≤ since_start key (record_request clock key window m).1
    record-since_self = ground (arith, grown, record_lookup key, text_eq_iff key key)

    pub record-since :
        (k : Text) → since_start k m ≤ since_start k (record_request clock key window m).1
    record-since k = elim (Bool-cases (text_eq key k)) [
      | inl same ↦ ground (arith, grown, record_lookup k, text_eq_iff key k)
      | inr other ↦ ground (arith, record_lookup k)
    ]
