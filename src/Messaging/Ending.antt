-- ===== src/Messaging/Ending.antt =====
-- How the loop of internal/messaging/consumer.go comes to its end.
use web_demo_go.Prelude.{
  ◌≡◌, ◌⊎◌, inl, inr, refl, sym, ap, ◌∙◌, ℕ, suc, ◌+◌, ◌≤◌, true, false, Option, List, [], ◌∷◌,
  ◌++◌, length, Text, Error, Result, arith, if◌then◌else◌,
}
use web_demo_go.Messaging.Consuming.{append_assoc}
use web_demo_go.Messaging.{
  Consumer, leave_loop, receive, Step, stop_cancelled, stop_closed, take_message,
}

append_nil : (xs : List Text) → xs ++ [] ≡ xs
append_nil [] = refl
append_nil (x ∷ xs) = ap (◌∷◌ x) (append_nil xs)

List-cases : (l : List Text) → (l ≡ []) ⊎ ((x : Text) × (xs : List Text) × (l ≡ x ∷ xs))
List-cases [] = inl refl
List-cases (x ∷ xs) = inr (x, xs, refl)

module _ {T S : Type 0} (unmarshal : Text → Result T) (handler : T → S → Option Error × S) where
  -- A step of the loop itself.
  pub data LoopStep (c : Consumer S) : Consumer S → Type 0 where
    stops_cancelled : c.looping ≡ true → c.cancelled ≡ true → LoopStep c (leave_loop c)
    stops_closed :
        c.looping ≡ true → c.queue ≡ [] → c.open_channel ≡ false → LoopStep c (leave_loop c)
    takes_message :
        (payload : Text) (rest : List Text)
        → c.looping ≡ true
        → c.queue ≡ payload ∷ rest
        → LoopStep c (receive unmarshal handler payload rest c)

  pub LoopStep-Step : (c d : Consumer S) → LoopStep c d → Step unmarshal handler c d
  LoopStep-Step c _ (stops_cancelled runs gone) = stop_cancelled runs gone
  LoopStep-Step c _ (stops_closed runs empty closed) = stop_closed runs empty closed
  LoopStep-Step c _ (takes_message payload rest runs queued) = take_message payload rest runs queued

  -- So many steps of the loop, with no other between them.
  pub data LoopRun (c : Consumer S) : ℕ → Consumer S → Type 0 where
    no_step : LoopRun c 0 c
    one_more : {n : ℕ} {d e : Consumer S} → LoopRun c n d → LoopStep d e → LoopRun c (suc n) e

  -- The steps that a consumer has left.
  unfoldable pub left : Consumer S → ℕ
  left c = if c.looping then suc (length c.queue) else 0

  step_left : (c d : Consumer S) → LoopStep c d → suc (left d) ≤ left c
  unfolding left leave_loop receive
  step_left c _ (stops_cancelled runs gone) = ground arith
  step_left c _ (stops_closed runs empty closed) = ground arith
  step_left c _ (takes_message payload rest runs queued) = ground arith

  -- What a run of the loop has done by some state.
  pub record Runs (c : Consumer S) (n : ℕ) (d : Consumer S) : Type 0 where
    pub bounded : n + left d ≤ left c
    pub same_cancelled : d.cancelled ≡ c.cancelled
    pub same_channel : d.open_channel ≡ c.open_channel
    pub ended : (d.looping ≡ true) ⊎ ((d.looping ≡ false) × (d.finished ≡ true))
    pub in_order : d.received ++ d.queue ≡ c.received ++ c.queue
    pub emptied : c.cancelled ≡ false → d.looping ≡ false → d.queue ≡ []

  step_Runs : (c d e : Consumer S) (n : ℕ) → Runs c n d → LoopStep d e → Runs c (suc n) e
  unfolding leave_loop receive
  step_Runs c d _ n r (stops_cancelled runs gone) = record {
    bounded = omega (arith, r.bounded, step_left d _ (stops_cancelled runs gone));
    same_cancelled = r.same_cancelled;
    same_channel = r.same_channel;
    ended = inr (refl, refl);
    in_order = r.in_order;
    emptied = λ off k. absurd (ground (arith, r.same_cancelled));
  }
  step_Runs c d _ n r (stops_closed runs empty closed) = record {
    bounded = omega (arith, r.bounded, step_left d _ (stops_closed runs empty closed));
    same_cancelled = r.same_cancelled;
    same_channel = r.same_channel;
    ended = inr (refl, refl);
    in_order = r.in_order;
    emptied = λ off k. empty;
  }
  step_Runs c d _ n r (takes_message payload rest runs queued) = record {
    bounded = omega (arith, r.bounded, step_left d _ (takes_message payload rest runs queued));
    same_cancelled = r.same_cancelled;
    same_channel = r.same_channel;
    ended = inl runs;
    in_order =
        append_assoc d.received (payload ∷ []) rest
        ∙ ap (◌++◌ {A = Text} d.received) (sym queued)
        ∙ r.in_order;
    emptied = λ off k. absurd (ground arith);
  }

  run_Runs : (c d : Consumer S) (n : ℕ) → c.looping ≡ true → LoopRun c n d → Runs c n d
  run_Runs c _ _ runs no_step = record {
    bounded = omega arith;
    same_cancelled = refl;
    same_channel = refl;
    ended = inl runs;
    in_order = refl;
    emptied = λ off k. absurd (ground arith);
  }
  run_Runs c d _ runs (one_more {n = n} {d = e} path step) =
      step_Runs c e d n (run_Runs c e n runs path) step

  -- A loop that runs and whose context is done or whose channel is closed can take a step.
  progress :
      (d : Consumer S)
      → d.looping ≡ true
      → (d.cancelled ≡ true) ⊎ (d.open_channel ≡ false)
      → (e : Consumer S) × LoopStep d e
  progress d runs (inl gone) = (leave_loop d, stops_cancelled runs gone)
  progress d runs (inr closed) = elim (List-cases d.queue) [
    | inl empty ↦ (leave_loop d, stops_closed runs empty closed)
    | inr (payload, rest, queued) ↦
        (receive unmarshal handler payload rest d, takes_message payload rest runs queued)
  ]

  -- Once the context of a running consumer is done or its channel is closed, its loop ends, whichever
  -- ready branches it takes: it takes at most one step more than messages wait, wherever it has not
  -- closed `done` it can take another, and if the context is not done, by the end it has handled
  -- every message that waited.
  pub loop-ends :
      (c d : Consumer S) (n : ℕ)
      → c.looping ≡ true
      → (c.cancelled ≡ true) ⊎ (c.open_channel ≡ false)
      → LoopRun c n d
      → (n ≤ suc (length c.queue))
        × ((d.finished ≡ true) ⊎ ((e : Consumer S) × LoopStep d e))
        × (c.cancelled ≡ false → d.looping ≡ false → d.received ≡ c.received ++ c.queue)
  unfolding left
  loop-ends c d n runs ready path =
      let r = run_Runs c d n runs path in
      let still : (d.cancelled ≡ true) ⊎ (d.open_channel ≡ false) = elim ready [
        | inl gone ↦ inl (r.same_cancelled ∙ gone)
        | inr closed ↦ inr (r.same_channel ∙ closed)
      ] in
      (
        ground (arith, r.bounded),
        elim r.ended [ inl going ↦ inr (progress d going still) | inr (off, done) ↦ inl done ],
        λ off ended.
            sym (append_nil d.received)
            ∙ ap (◌++◌ {A = Text} d.received) (sym (r.emptied off ended))
            ∙ r.in_order,
      )
