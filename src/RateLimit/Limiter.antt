-- ===== src/RateLimit/Limiter.antt =====
-- The sliding window limiter of internal/ratelimit/limiter.go over internal/ratelimit/store/memory.go.
use web_demo_go.Prelude.{
  ◌≡◌, ℕ, suc, List, [], ◌∷◌, ◌++◌, Text, ℤ, pos, ◌≤ℤ◌, ◌<ℤ◌, leb_ℤ, ok, arith,
}
use web_demo_go.RateLimit.{SlidingWindowLimiter, RateStore, sliding_allow}
use web_demo_go.RateLimit.Memory.{new_memory, memory_store}
use web_demo_go.RateLimit.Window.{within, history_of, record_all, record-window}

allow_count :
    {S : Type 0} (store : RateStore S) (l : SlidingWindowLimiter) (key : Text) (s : S) (n : ℤ)
    → (store.record_request key l.window s).0 ≡ ok n
    → (sliding_allow store l key s).0 ≡ ok (leb_ℤ n l.limit)
unfolding sliding_allow
allow_count store l key s n h = ground arith

module _ (clock : ℕ → ℤ) (steps : (n : ℕ) → clock n ≤ℤ clock (suc n)) where
  -- After any requests on a new store, with a clock that does not run back and a positive window, the
  -- limiter allows a request exactly if the requests of its key, this one included, whose time plus
  -- the window is later than its own time are at most the limit.
  pub sliding_allow-window :
      (l : SlidingWindowLimiter) (keys : List Text) (key : Text)
      → pos 0 <ℤ l.window
      → let m = record_all clock (λ k. l.window) keys new_memory in
        let history = history_of clock (λ k. l.window) keys 0 (λ k. []) in
        (sliding_allow (memory_store clock) l key m).0
        ≡ ok (
            leb_ℤ
              (pos (within (clock m.ticks) l.window (history key ++ clock m.ticks ∷ [])))
              l.limit)
  sliding_allow-window l keys key positive =
      allow_count (memory_store clock) l key (record_all clock (λ k. l.window) keys new_memory) _
        (record-window clock (λ k. l.window) steps (λ k. positive) keys key)
