-- ===== src/Messaging/Groups.antt =====
-- The lifecycle of internal/messaging/group.go.
use web_demo_go.Prelude.{
  ◌≡◌, refl, sym, ap, ◌∙◌, Option, none, some, List, [], ◌∷◌, ◌++◌, ℕ, suc, ◌+◌, length, Error,
  arith, Option-cases, inl, inr,
}
use web_demo_go.Messaging.{
  Runnable, roll_back, start_from, start_group, keep_first, shutdown_from, shutdown_group,
}

-- The first error in a list of results.
unfoldable pub first_error : List (Option Error) → Option Error
first_error [] = none
first_error (some e ∷ results) = some e
first_error (none ∷ results) = first_error results

first_error-append :
    (results : List (Option Error)) (last : Option Error)
    → first_error (results ++ last ∷ []) ≡ keep_first (first_error results) last
unfolding first_error keep_first
first_error-append [] none = refl
first_error-append [] (some e) = refl
first_error-append (none ∷ results) last = first_error-append results last
first_error-append (some e ∷ results) last = refl

module _ {S : Type 0} where
  -- Shutting all consumers down, with all their results.
  unfoldable pub shutdown_all : List (Runnable S) → S → List (Option Error) × S
  shutdown_all [] s = ([], s)
  shutdown_all (consumer ∷ consumers) s =
      let (failed, s') = consumer.run_shutdown s in
      let (others, s'') = shutdown_all consumers s' in (failed ∷ others, s'')

  roll_back-all :
      (consumers : List (Runnable S)) (s : S) → roll_back consumers s ≡ (shutdown_all consumers s).1
  unfolding roll_back shutdown_all
  roll_back-all [] s = refl
  roll_back-all (consumer ∷ consumers) s = roll_back-all consumers (consumer.run_shutdown s).1

  -- Starting consumers without a look at their errors.
  unfoldable pub start_all : List (Runnable S) → S → S
  start_all [] s = s
  start_all (consumer ∷ consumers) s = start_all consumers (consumer.run_start s).1

  -- Each consumer starts without an error in the state that those before it leave.
  abbrev pub AllStart : List (Runnable S) → S → Type 0
  AllStart [] s = Unit
  AllStart (consumer ∷ consumers) s =
      ((consumer.run_start s).0 ≡ none) × AllStart consumers (consumer.run_start s).1

  -- The consumers in the order in which they are rolled back, on top of those started before.
  unfoldable pub onto : List (Runnable S) → List (Runnable S) → List (Runnable S)
  onto started [] = started
  onto started (consumer ∷ consumers) = onto (consumer ∷ started) consumers

  -- A start that fails: the consumers before the failing one started, it did not, and then those
  -- before it were shut down, the last one first.
  pub record RolledBack (i : ℕ) (started consumers : List (Runnable S)) (s : S) (n : ℕ) (e : Error)
      (s' : S) : Type 0 where
    pub before : List (Runnable S)
    pub failing : Runnable S
    pub after : List (Runnable S)
    pub split : consumers ≡ before ++ failing ∷ after
    pub index : n ≡ i + length before
    pub ran : AllStart before s
    pub failed : (failing.run_start (start_all before s)).0 ≡ some e
    pub undone :
        s' ≡ (shutdown_all (onto started before) (failing.run_start (start_all before s)).1).1

  start_from-RolledBack :
      (i : ℕ) (started consumers : List (Runnable S)) (s s' : S) (n : ℕ) (e : Error)
      → start_from i started consumers s ≡ (some (n, e), s')
      → RolledBack i started consumers s n e s'
  unfolding start_from start_all onto
  start_from-RolledBack i started [] s s' n e h = absurd (ground arith)
  start_from-RolledBack i started (consumer ∷ consumers) s s' n e h =
      elim (Option-cases (consumer.run_start s).0) [
        | inr (e', bad) ↦ record {
          before = [];
          failing = consumer;
          after = consumers;
          split = refl;
          index = ground arith;
          ran = tt;
          failed = ground arith;
          undone = ground (arith, roll_back-all started (consumer.run_start s).1);
        }
        | inl good ↦
            let r =
              start_from-RolledBack (suc i) (consumer ∷ started) consumers (consumer.run_start s).1
                s' n e (ground arith) in
            record {
              before = consumer ∷ r.before;
              failing = r.failing;
              after = r.after;
              split = ap (◌∷◌ consumer) r.split;
              index = ground (arith, r.index);
              ran = (good, r.ran);
              failed = r.failed;
              undone = r.undone;
            }
      ]

  -- A group that fails to start reports the index and the error of the first consumer that does not
  -- start, and has shut down exactly the consumers before it, in reverse order.
  pub start_group-RolledBack :
      (consumers : List (Runnable S)) (s s' : S) (n : ℕ) (e : Error)
      → start_group consumers s ≡ (some (n, e), s')
      → RolledBack 0 [] consumers s n e s'
  unfolding start_group
  start_group-RolledBack consumers s s' n e h = start_from-RolledBack 0 [] consumers s s' n e h

  start_from-AllStart :
      (i : ℕ) (started consumers : List (Runnable S)) (s : S)
      → AllStart consumers s
      → start_from i started consumers s ≡ (none, start_all consumers s)
  unfolding start_from start_all
  start_from-AllStart i started [] s ok_all = refl
  start_from-AllStart i started (consumer ∷ consumers) s (good, others) =
      let r =
        start_from-AllStart (suc i) (consumer ∷ started) consumers (consumer.run_start s).1
          others in
      ground arith

  -- A group whose consumers all start reports no error and shuts none of them down.
  pub start_group-AllStart :
      (consumers : List (Runnable S)) (s : S)
      → AllStart consumers s
      → start_group consumers s ≡ (none, start_all consumers s)
  unfolding start_group
  start_group-AllStart consumers s h = start_from-AllStart 0 [] consumers s h

  shutdown_from-all :
      (first_err : Option Error) (consumers : List (Runnable S)) (s : S)
      → shutdown_from first_err consumers s
        ≡ (first_error (first_err ∷ (shutdown_all consumers s).0), (shutdown_all consumers s).1)
  unfolding shutdown_from shutdown_all first_error keep_first
  shutdown_from-all none [] s = refl
  shutdown_from-all (some e) [] s = refl
  shutdown_from-all none (consumer ∷ consumers) s =
      shutdown_from-all (consumer.run_shutdown s).0 consumers (consumer.run_shutdown s).1
  shutdown_from-all (some e) (consumer ∷ consumers) s =
      shutdown_from-all (some e) consumers (consumer.run_shutdown s).1

  -- A shutdown shuts every consumer down in order and then closes the subscriber, whatever fails on
  -- the way, and reports the first of all the errors.
  pub shutdown_group-all :
      (close : S → Option Error × S) (consumers : List (Runnable S)) (s : S)
      → let all = shutdown_all consumers s in
        shutdown_group close consumers s
        ≡ (first_error (all.0 ++ (close all.1).0 ∷ []), (close all.1).1)
  unfolding shutdown_group first_error
  shutdown_group-all close consumers s =
      let all = shutdown_all consumers s in
      ap (λ r. (keep_first r.0 (close r.1).0, (close r.1).1)) (shutdown_from-all none consumers s)
      ∙ ap (λ o. (o, (close all.1).1)) (sym (first_error-append all.0 (close all.1).0))
