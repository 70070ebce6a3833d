-- ===== src/Container/Http/Bursts.antt =====
-- The limits of an endpoint (internal/middleware/ratelimit.go) through a burst of requests, over
-- internal/ratelimit/store/memory.go.
use mathlib.Core.Path.{subst}
use web_demo_go.Prelude.{
  ◌⊎◌, sym, ℕ, suc, List, [], ◌∷◌, Text, ℤ, pos, ◌+ℤ◌, ◌≤ℤ◌, ◌<ℤ◌, ltb_ℤ, +ℤ_parts, ◌+◌, length,
  arith, All, refl, ◌≡◌, ◌≤◌, ◌<◌, Bool-cases, Result-cases, inl, inr,
}
use web_demo_go.RateLimit.{RateStore, LimitConfig}
use web_demo_go.RateLimit.Memory.{Memory, neg64, record_request, memory_store}
use web_demo_go.RateLimit.Burst.{since_start, record-count, record-since, record-since_self}
use web_demo_go.Handlers.Routes.{minute}
use web_demo_go.Middleware.{Lib, passed, custom_key, check_custom}
use web_demo_go.Middleware.Laws.{check_custom-passed}

-- The windows that are not shorter than a minute.
abbrev pub Long : LimitConfig → Type 0
Long limit = neg64 limit.window ≤ℤ neg64 minute

module _ (clock : ℕ → ℤ) (from : ℤ) where
  -- The next `n` readings of the clock after the first `t` lie within a minute of `from`.
  abbrev pub InMinute : ℕ → ℕ → Type 0
  InMinute t n = (i : ℕ) → t ≤ i → i < t + n → (from ≤ℤ clock i) × (clock i +ℤ neg64 minute <ℤ from)

  -- What at most `n` calls of `Record` leave of a store.
  pub record Kept (n : ℕ) (m m' : Memory) : Type 0 where
    pub grows : (k : Text) → since_start clock from k m ≤ since_start clock from k m'
    pub later : m.ticks ≤ m'.ticks
    pub soon : m'.ticks ≤ m.ticks + n

  long_within :
      (t w : ℤ) → neg64 w ≤ℤ neg64 minute → t +ℤ neg64 minute <ℤ from → t +ℤ neg64 w <ℤ from
  long_within t w h k = omega (arith, +ℤ_parts t (neg64 w), +ℤ_parts t (neg64 minute))

  module _ (lib : Lib) (client path : Text) where
    module _ (limit : LimitConfig) (m : Memory) (long : Long limit)
        (now : (from ≤ℤ clock m.ticks) × (clock m.ticks +ℤ neg64 minute <ℤ from)) where
      within : clock m.ticks +ℤ neg64 limit.window <ℤ from
      within = long_within (clock m.ticks) limit.window long now.1

      abbrev recorded : Memory
      recorded = (record_request clock (custom_key lib client path limit) limit.window m).1

      record-Kept : Kept 1 m recorded
      unfolding record_request
      record-Kept = record {
        grows =
            record-since clock from (custom_key lib client path limit) limit.window m now.0 within;
        later = omega arith;
        soon = omega arith;
      }

    -- The limits stop at the first one, or go on in the state that it leaves.
    check_custom_next :
        {L : Type 0} (store : RateStore L) (limit : LimitConfig) (limits : List LimitConfig) (s : L)
        → let out = store.record_request (custom_key lib client path limit) limit.window s in
          ((check_custom lib store client path (limit ∷ limits) s).1 ≡ out.1)
          ⊎ ((check_custom lib store client path (limit ∷ limits) s).1
              ≡ (check_custom lib store client path limits out.1).1)
    unfolding check_custom
    check_custom_next store limit limits s =
        let out = store.record_request (custom_key lib client path limit) limit.window s in
        elim (Result-cases out.0) [
          | inr (e, failed) ↦ inl (ground arith)
          | inl (count, counted) ↦ elim (Bool-cases (ltb_ℤ limit.max count)) [
            | inl over ↦ inl (ground arith)
            | inr under ↦ inr (ground arith)
          ]
        ]

    record_ticks :
        (limit : LimitConfig) (m : Memory)
        → (record_request clock (custom_key lib client path limit) limit.window m).1.ticks
          ≡ suc m.ticks
    unfolding record_request
    record_ticks limit m = refl

    rest_in :
        (limit : LimitConfig) (m : Memory) (n : ℕ)
        → InMinute m.ticks (suc n)
        → InMinute
            (record_request clock (custom_key lib client path limit) limit.window m).1.ticks
            n
    rest_in limit m n burst i h k =
        let t = record_ticks limit m in burst i (omega (arith, h, t)) (omega (arith, k, t))

    record_more : (b : ℕ) (m n o : Memory) → Kept 1 m n → Kept b n o → Kept (suc b) m o
    record_more b m n o h k = record {
      grows = λ key. omega (arith, h.grows key, k.grows key);
      later = omega (arith, h.later, k.later);
      soon = omega (arith, h.soon, k.soon);
    }

    record_only : (b : ℕ) (m n : Memory) → Kept 1 m n → Kept (suc b) m n
    record_only b m n h = record { grows = h.grows; later = h.later; soon = omega (arith, h.soon) }

    pub check_custom-Kept :
        (limits : List LimitConfig) (m : Memory)
        → All Long limits
        → InMinute m.ticks (length limits)
        → Kept (length limits) m (check_custom lib (memory_store clock) client path limits m).1
    unfolding check_custom
    check_custom-Kept [] m long burst = record {
      grows = λ k. omega arith;
      later = omega arith;
      soon = omega arith;
    }
    check_custom-Kept (limit ∷ limits) m (l, long) burst =
        let first = record-Kept limit m l (burst m.ticks (omega arith) (omega arith)) in
        let out = record_request clock (custom_key lib client path limit) limit.window m in
        let rest = check_custom-Kept limits out.1 long (rest_in limit m (length limits) burst) in
        elim (check_custom_next (memory_store clock) limit limits m) [
          | inl stopped ↦
              subst (Kept (suc (length limits)) m) (sym stopped)
                (record_only (length limits) m out.1 first)
          | inr went ↦
              subst (Kept (suc (length limits)) m) (sym went)
                (record_more (length limits) m out.1 _ first rest)
        ]

    module _ (limit : LimitConfig) (limits : List LimitConfig) (m : Memory) (long : Long limit)
        (longs : All Long limits) (burst : InMinute m.ticks (suc (length limits))) where
      now : (from ≤ℤ clock m.ticks) × (clock m.ticks +ℤ neg64 minute <ℤ from)
      now = burst m.ticks (omega arith) (omega arith)

      -- The first limit counts the request, whatever the answer.
      pub check_custom-since :
          let k = custom_key lib client path limit in
          suc (since_start clock from k m)
          ≤ since_start clock from k
              (check_custom lib (memory_store clock) client path (limit ∷ limits) m).1
      check_custom-since =
          let k = custom_key lib client path limit in
          let out = record_request clock k limit.window m in
          let first =
            record-since_self clock from k limit.window m now.0 (within limit m long now) in
          elim (check_custom_next (memory_store clock) limit limits m) [
            | inl stopped ↦ rw stopped first
            | inr went ↦
                let rest =
                  check_custom-Kept limits out.1 longs (rest_in limit m (length limits) burst) in
                rw went (omega (arith, first, rest.grows k))
          ]

      -- A request that passes is within the first limit.
      pub check_custom-max :
          (check_custom lib (memory_store clock) client path (limit ∷ limits) m).0 ≡ passed
          → pos (suc (since_start clock from (custom_key lib client path limit) m)) ≤ℤ limit.max
      check_custom-max h =
          let k = custom_key lib client path limit in
          let ((count, counted, below), others) =
            check_custom-passed lib (memory_store clock) client path (limit ∷ limits) m h in
          omega (
            arith,
            below,
            record-count clock from k limit.window m now.0 (within limit m long now) count counted,
          )
