-- ===== src/RateLimit/Redis/Laws.antt =====
-- internal/ratelimit/store/redis.go: the sorted set of a key as a set of times.
use web_demo_go.Prelude.{
  ◌≢◌, sym, ◌∙◌, ℕ, ◌++◌, Text, pos, ◌<ℤ◌, ◌+ℤ◌, ok, ◌≡◌, ◌↔◌, refl, ap, suc, Bool, true, List, [],
  ◌∷◌, Text_eq, text_eq_iff, insert, ℤ, ltb_ℤ, leb_ℤ, ◌&&◌, length, print_int, print_int_injective,
  if◌then◌else◌, arith,
}
use web_demo_go.RateLimit.Memory.{neg64}
use web_demo_go.RateLimit.Redis.{
  RateClient, RedisLimits, limit_prefix, rate_commands, record_redis, float64,
}
use web_demo_go.RateLimit.Redis.Server.{
  run_rate, run_rates, last_count, IsRateServer, SortedSet, above,
}

-- The set of some times.
unfoldable pub entries : List ℤ → SortedSet
entries [] = []
entries (t ∷ times) = (print_int t, float64 t) ∷ entries times

-- The times after a cutoff, as far as a float64 tells.
unfoldable pub prune_float : ℤ → List ℤ → List ℤ
prune_float cutoff [] = []
prune_float cutoff (t ∷ times) =
    let rest = prune_float cutoff times in
    if ltb_ℤ (float64 cutoff) (float64 t) then t ∷ rest else rest

abbrev pub eq_ℤ : ℤ → ℤ → Bool
eq_ℤ a b = leb_ℤ a b && leb_ℤ b a

-- One more time, if it is a new one.
unfoldable pub add_time : ℤ → List ℤ → List ℤ
add_time now [] = now ∷ []
add_time now (t ∷ times) =
    let rest = add_time now times in if eq_ℤ t now then t ∷ times else t ∷ rest

eq_ℤ_iff : (a b : ℤ) → (eq_ℤ a b ≡ true) ↔ (a ≡ b)
eq_ℤ_iff a b = ground arith

prune-add_time :
    (now cutoff : ℤ) (times : List ℤ)
    → float64 cutoff <ℤ float64 now
    → prune_float cutoff (add_time now times) ≡ add_time now (prune_float cutoff times)
unfolding add_time prune_float
prune-add_time now cutoff [] h = ground arith
prune-add_time now cutoff (t ∷ times) h =
    ground (arith, prune-add_time now cutoff times, eq_ℤ_iff t now)

prune_float_twice :
    (cutoff : ℤ) (times : List ℤ)
    → prune_float cutoff (prune_float cutoff times) ≡ prune_float cutoff times
unfolding prune_float
prune_float_twice cutoff [] = refl
prune_float_twice cutoff (t ∷ times) = ground (arith, prune_float_twice cutoff times)

add_time_twice : (now : ℤ) (times : List ℤ) → add_time now (add_time now times) ≡ add_time now times
unfolding add_time
add_time_twice now [] = ground (arith, eq_ℤ_iff now now)
add_time_twice now (t ∷ times) = ground (arith, add_time_twice now times, eq_ℤ_iff t now)

add_again :
    (now cutoff : ℤ) (times : List ℤ)
    → float64 cutoff <ℤ float64 now
    → add_time now (prune_float cutoff (add_time now (prune_float cutoff times)))
      ≡ add_time now (prune_float cutoff times)
add_again now cutoff times h =
    ap (add_time now) (prune-add_time now cutoff (prune_float cutoff times) h)
    ∙ add_time_twice now (prune_float cutoff (prune_float cutoff times))
    ∙ ap (add_time now) (prune_float_twice cutoff times)

above-entries :
    (cutoff : ℤ) (times : List ℤ)
    → above (float64 cutoff) (entries times) ≡ entries (prune_float cutoff times)
unfolding above entries prune_float
above-entries cutoff [] = refl
above-entries cutoff (t ∷ times) = ground (arith, above-entries cutoff times)

insert-entries :
    (now : ℤ) (times : List ℤ)
    → insert (print_int now) (float64 now) (entries times) ≡ entries (add_time now times)
unfolding insert entries add_time
insert-entries now [] = refl
insert-entries now (t ∷ times) = ground (
  arith,
  insert-entries now times,
  text_eq_iff (print_int t) (print_int now),
  eq_ℤ_iff t now,
  print_int_injective t now,
)

length-entries : (times : List ℤ) → length (entries times) ≡ length times
unfolding entries
length-entries [] = refl
length-entries (t ∷ times) = ap suc (length-entries times)

module _ (key : Text) (window now : ℤ) (sets : Text → SortedSet) where
  abbrev own : Text
  own = limit_prefix ++ key

  abbrev new_set : SortedSet
  new_set = insert (print_int now) (float64 now) (above (float64 (now +ℤ neg64 window)) (sets own))

  own_set : run_rates (rate_commands key window now) sets own ≡ new_set
  unfolding run_rates run_rate rate_commands
  own_set = ground (arith, text_eq_iff own own)

  own_count : last_count (rate_commands key window now) sets (pos 0) ≡ pos (length new_set)
  unfolding last_count run_rate rate_commands
  own_count = ground (arith, text_eq_iff own own)

  other_set : (k : Text) → own ≢ k → run_rates (rate_commands key window now) sets k ≡ sets k
  unfolding run_rates run_rate rate_commands
  other_set k apart = ground (arith, text_eq_iff own k)

prefix_injective : (a b : Text) → limit_prefix ++ a ≡ limit_prefix ++ b → a ≡ b
prefix_injective a b e = ground arith

module _ {R : Type 0} {client : RateClient R} {sets : R → Text → SortedSet}
    (server : IsRateServer client sets) (clock : ℕ → ℤ) where
  -- The times that a call of `Record` leaves for its key.
  abbrev pub times_after : ℤ → RedisLimits R → List ℤ → List ℤ
  times_after window s times =
      add_time (clock s.ticks) (prune_float (clock s.ticks +ℤ neg64 window) times)

  record_runs :
      (key : Text) (window : ℤ) (s : RedisLimits R)
      → record_redis client clock key window s ≡ (
        (client (rate_commands key window (clock s.ticks)) s.redis).0,
        record {
          redis = (client (rate_commands key window (clock s.ticks)) s.redis).1;
          ticks = suc s.ticks;
        },
      )
  unfolding record_redis
  record_runs key window s = refl

  -- On a server that runs the pipelines on which it reports no error, `Record` treats the sorted
  -- set of a key as a set of times: it drops those that, rounded to a float64, are not after the
  -- rounded cutoff, adds the present time unless it is in the set, counts the set, and leaves the
  -- sets of all other keys.
  pub record_redis-times :
      (key : Text) (window : ℤ) (s : RedisLimits R) (times : List ℤ) (n : ℤ)
      → sets s.redis (limit_prefix ++ key) ≡ entries times
      → (record_redis client clock key window s).0 ≡ ok n
      → let after = (record_redis client clock key window s).1 in
        (n ≡ pos (length (times_after window s times)))
        × (sets after.redis (limit_prefix ++ key) ≡ entries (times_after window s times))
        × ((other : Text)
            → key ≢ other
            → sets after.redis (limit_prefix ++ other) ≡ sets s.redis (limit_prefix ++ other))
  unfolding record_redis
  record_redis-times key window s times n holds done =
      let now = clock s.ticks in
      let commands = rate_commands key window now in
      let old = sets s.redis in
      let cutoff = now +ℤ neg64 window in
      let new : new_set key window now old ≡ entries (times_after window s times) =
        ap (λ l. insert (print_int now) (float64 now) (above (float64 cutoff) l)) holds
        ∙ ap (insert (print_int now) (float64 now)) (above-entries cutoff times)
        ∙ insert-entries now (prune_float cutoff times) in
      (
        server.counts commands s.redis n done
            ∙ own_count key window now old
            ∙ ap (λ l. pos (length l)) new
            ∙ ap pos (length-entries (times_after window s times)),
        server.runs commands s.redis n done (limit_prefix ++ key)
            ∙ own_set key window now old
            ∙ new,
        λ other apart.
            server.runs commands s.redis n done (limit_prefix ++ other)
            ∙ other_set key window now old (limit_prefix ++ other)
                (λ e. apart (prefix_injective key other e)),
      )

  -- Two calls of `Record` for one key at the same instant, where the server runs both pipelines
  -- and the window is long enough for a float64 to tell its cutoff from the present: the second
  -- counts no more requests than the first.
  pub record_redis-same_instant :
      (key : Text) (window : ℤ) (s : RedisLimits R) (times : List ℤ) (m n : ℤ)
      → sets s.redis (limit_prefix ++ key) ≡ entries times
      → clock (suc s.ticks) ≡ clock s.ticks
      → float64 (clock s.ticks +ℤ neg64 window) <ℤ float64 (clock s.ticks)
      → (record_redis client clock key window s).0 ≡ ok m
      → (record_redis client clock key window (record_redis client clock key window s).1).0 ≡ ok n
      → n ≡ m
  record_redis-same_instant key window s times m n holds instant long first second =
      let s' = (record_redis client clock key window s).1 in
      let kept = times_after window s times in
      let (count, set, _) = record_redis-times key window s times m holds first in
      let (again, _, _) = record_redis-times key window s' kept n set second in
      let now : clock s'.ticks ≡ clock s.ticks =
        ap (λ x. clock x.1.ticks) (record_runs key window s) ∙ instant in
      again
      ∙ ap (λ t. pos (length (add_time t (prune_float (t +ℤ neg64 window) kept)))) now
      ∙ ap (λ l. pos (length l))
          (add_again (clock s.ticks) (clock s.ticks +ℤ neg64 window) times long)
      ∙ sym count
