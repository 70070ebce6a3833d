-- ===== src/RateLimit/Memory.antt =====
-- internal/ratelimit/store/memory.go. `Record` runs under the mutex; the results of `time.Now` are
-- a function of the number of the call.
use web_demo_go.Prelude.{
  ℕ, suc, List, [], ◌∷◌, ◌++◌, none, some, Text, Text_eq, Map, lookup, insert, ℤ, pos, negsuc,
  ltb_ℤ, ◌+ℤ◌, Result, ok, length, if◌then◌else◌, ◌^◌, nat_eq, sub_ℕ,
}
use web_demo_go.RateLimit.{RateStore}

pub record Memory : Type 0 where
  pub requests : Map Text (List ℤ)
  pub ticks : ℕ

unfoldable pub new_memory : Memory
new_memory = record { requests = []; ticks = 0 }

-- `-window` on int64: the least value is its own negation.
unfoldable pub neg64 : ℤ → ℤ
neg64 (pos n) = sub_ℕ 0 n
neg64 (negsuc n) = if nat_eq (suc n) (2 ^ 63) then negsuc n else pos (suc n)

-- The loop that keeps the timestamps after the cutoff.
unfoldable pub prune : ℤ → List ℤ → List ℤ
prune cutoff [] = []
prune cutoff (ts ∷ timestamps) =
    let rest = prune cutoff timestamps in if ltb_ℤ cutoff ts then ts ∷ rest else rest

-- `s.requests[key]`, nil for a new key.
unfoldable pub timestamps_of : Text → Memory → List ℤ
timestamps_of key m = elim (lookup key m.requests) [ none ↦ [] | some l ↦ l ]

module _ (clock : ℕ → ℤ) where
  unfoldable pub record_request : Text → ℤ → Memory → Result ℤ × Memory
  unfolding timestamps_of prune
  record_request key window m =
      let now = clock m.ticks in
      let cutoff = now +ℤ neg64 window in
      let valid = prune cutoff (timestamps_of key m) ++ now ∷ [] in
      (
        ok (pos (length valid)),
        record { requests = insert key valid m.requests; ticks = suc m.ticks },
      )

  abbrev pub memory_store : RateStore Memory
  memory_store = record { record_request = record_request }
