-- ===== src/Messaging/Keeping.antt =====
-- What the start of a group of internal/messaging/group.go keeps.
use mathlib.Core.Path.{subst}
use web_demo_go.Prelude.{◌≡◌, none, some, List, [], ◌∷◌, ℕ, suc, All, arith, Option-cases, inl, inr}
use web_demo_go.Messaging.{Error, Runnable, roll_back, start_from, start_group}

module _ {S : Type 0} (P : S → Type 0) where
  abbrev pub RunKeeps : Runnable S → Type 0
  RunKeeps r = ((s : S) → P s → P (r.run_start s).1) × ((s : S) → P s → P (r.run_shutdown s).1)

  roll_back-keeps :
      (started : List (Runnable S)) (s : S) → All RunKeeps started → P s → P (roll_back started s)
  unfolding roll_back
  roll_back-keeps [] s all h = h
  roll_back-keeps (r ∷ started) s (keeps, all) h =
      roll_back-keeps started (r.run_shutdown s).1 all (keeps.1 s h)

  start_went :
      (i : ℕ) (started : List (Runnable S)) (r : Runnable S) (consumers : List (Runnable S)) (s : S)
      → (r.run_start s).0 ≡ none
      → (start_from (suc i) (r ∷ started) consumers (r.run_start s).1).1
        ≡ (start_from i started (r ∷ consumers) s).1
  unfolding start_from
  start_went i started r consumers s went = ground arith

  start_stopped :
      (i : ℕ) (started : List (Runnable S)) (r : Runnable S) (consumers : List (Runnable S)) (s : S)
      → (e : Error) → (r.run_start s).0 ≡ some e
      → roll_back started (r.run_start s).1 ≡ (start_from i started (r ∷ consumers) s).1
  unfolding start_from
  start_stopped i started r consumers s e stopped = ground arith

  start_from-keeps :
      (i : ℕ) (started consumers : List (Runnable S)) (s : S)
      → All RunKeeps started
      → All RunKeeps consumers
      → P s
      → P (start_from i started consumers s).1
  unfolding start_from
  start_from-keeps i started [] s before all h = h
  start_from-keeps i started (r ∷ consumers) s before (keeps, all) h =
      let ran = keeps.0 s h in
      elim (Option-cases (r.run_start s).0) [
        | inl went ↦ subst P (start_went i started r consumers s went) (
            start_from-keeps (suc i) (r ∷ started) consumers (r.run_start s).1 (keeps, before) all
              ran)
        | inr (e, stopped) ↦
            subst P (start_stopped i started r consumers s e stopped)
              (roll_back-keeps started (r.run_start s).1 before ran)
      ]

  -- Whatever the start and the shutdown of each consumer keep, the start of the group keeps.
  pub start_group-keeps :
      (consumers : List (Runnable S)) (s : S)
      → All RunKeeps consumers
      → P s
      → P (start_group consumers s).1
  unfolding start_group
  start_group-keeps consumers s all h = start_from-keeps 0 [] consumers s tt all h
