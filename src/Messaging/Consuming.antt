-- ===== src/Messaging/Consuming.antt =====
-- The consumer loop of internal/messaging/consumer.go, and what it makes of published events.
use mathlib.Core.Path.{subst}
use web_demo_go.Prelude.{
  err, Result-cases, Option-cases, ◌↔◌, ◌≡◌, refl, sym, ap, ◌∙◌, true, false, Option, none, some,
  List, [], ◌∷◌, ◌++◌, Text, Error, Result, ok, arith, inl, inr,
}
use web_demo_go.Messaging.{
  Settled, nacked, acked, new_publish_func, handle_message, Consumer, new_consumer, start,
  begin_shutdown, leave_loop, receive, Step, deliver, close_channel, cancel, stop_cancelled,
  stop_closed, take_message, Reach, here, next,
}

pub append_assoc : (xs ys zs : List Text) → (xs ++ ys) ++ zs ≡ xs ++ (ys ++ zs)
append_assoc [] ys zs = refl
append_assoc (x ∷ xs) ys zs = ap (◌∷◌ x) (append_assoc xs ys zs)

module _ {T S : Type 0} (unmarshal : Text → Result T) (handler : T → S → Option Error × S) where
  -- What becomes of a message, by what the decoder and the handler make of it.
  pub data Settles (payload : Text) (s : S) : Settled → S → Type 0 where
    undecoded : (e : Error) → unmarshal payload ≡ err e → Settles payload s nacked s
    failed :
        (event : T) (e : Error)
        → unmarshal payload ≡ ok event
        → (handler event s).0 ≡ some e
        → Settles payload s nacked (handler event s).1
    succeeded :
        (event : T)
        → unmarshal payload ≡ ok event
        → (handler event s).0 ≡ none
        → Settles payload s acked (handler event s).1

  -- The messages one after the other.
  pub data SettlesAll (s : S) : List Text → List Settled → S → Type 0 where
    none_yet : SettlesAll s [] [] s
    one_more :
        {payloads : List Text} {marks : List Settled} {s' s'' : S} (payload : Text) (mark : Settled)
        → SettlesAll s payloads marks s'
        → Settles payload s' mark s''
        → SettlesAll s (payloads ++ payload ∷ []) (marks ++ mark ∷ []) s''

  handle_message-undecoded :
      (payload : Text) (s : S) (e : Error)
      → unmarshal payload ≡ err e
      → (nacked, s) ≡ handle_message unmarshal handler payload s
  unfolding handle_message
  handle_message-undecoded payload s e h = ground arith

  handle_message-failed :
      (payload : Text) (s : S) (event : T) (e : Error)
      → unmarshal payload ≡ ok event
      → (handler event s).0 ≡ some e
      → (nacked, (handler event s).1) ≡ handle_message unmarshal handler payload s
  unfolding handle_message
  handle_message-failed payload s event e h g = ground arith

  handle_message-succeeded :
      (payload : Text) (s : S) (event : T)
      → unmarshal payload ≡ ok event
      → (handler event s).0 ≡ none
      → (acked, (handler event s).1) ≡ handle_message unmarshal handler payload s
  unfolding handle_message
  handle_message-succeeded payload s event h g = ground arith

  handle_message-Settles :
      (payload : Text) (s : S)
      → let done = handle_message unmarshal handler payload s in Settles payload s done.0 done.1
  handle_message-Settles payload s =
      let made = λ (done : Settled × S). Settles payload s done.0 done.1 in
      elim (Result-cases (unmarshal payload)) [
        | inr (e, bad) ↦ subst made (handle_message-undecoded payload s e bad) (undecoded e bad)
        | inl (event, good) ↦ elim (Option-cases (handler event s).0) [
          | inl fine ↦
              subst made (handle_message-succeeded payload s event good fine)
                (succeeded event good fine)
          | inr (e, bad) ↦
              subst made (handle_message-failed payload s event e good bad)
                (failed event e good bad)
        ]
      ]

  -- The received messages are the first of the delivered ones, each has been settled once and in
  -- order, by the decoder and the handler, and only a loop that runs can finish.
  pub record InOrder (s : S) (c : Consumer S) : Type 0 where
    pub handled : SettlesAll s c.received c.settled c.state
    pub waiting : c.delivered ≡ c.received ++ c.queue
    pub one_end : c.finished ≡ true → c.looping ≡ false

  receive-handled :
      (s : S) (c : Consumer S) (payload : Text) (rest : List Text)
      → SettlesAll s c.received c.settled c.state
      → let d = receive unmarshal handler payload rest c in
        SettlesAll s d.received d.settled d.state
  unfolding receive
  receive-handled s c payload rest h = one_more payload _ h (handle_message-Settles payload c.state)

  Step-InOrder : (s : S) (c d : Consumer S) → InOrder s c → Step unmarshal handler c d → InOrder s d
  unfolding leave_loop receive
  Step-InOrder s c d i (deliver payload open_now) = record {
    handled = i.handled;
    waiting =
        ap (λ l. l ++ payload ∷ []) i.waiting ∙ append_assoc c.received c.queue (payload ∷ []);
    one_end = i.one_end;
  }
  Step-InOrder s c d i close_channel = record {
    handled = i.handled;
    waiting = i.waiting;
    one_end = i.one_end;
  }
  Step-InOrder s c d i cancel = record {
    handled = i.handled;
    waiting = i.waiting;
    one_end = i.one_end;
  }
  Step-InOrder s c d i (stop_cancelled runs off) = record {
    handled = i.handled;
    waiting = i.waiting;
    one_end = λ e. refl;
  }
  Step-InOrder s c d i (stop_closed runs empty closed) = record {
    handled = i.handled;
    waiting = i.waiting;
    one_end = λ e. refl;
  }
  Step-InOrder s c d i (take_message payload rest runs queued) = record {
    handled = receive-handled s c payload rest i.handled;
    waiting =
        i.waiting
        ∙ ap (◌++◌ {A = Text} c.received) queued
        ∙ sym (append_assoc c.received (payload ∷ []) rest);
    one_end = i.one_end;
  }

  Reach-InOrder :
      (s : S) (c d : Consumer S) → InOrder s c → Reach unmarshal handler c d → InOrder s d
  Reach-InOrder s c d i here = i
  Reach-InOrder s c d i (next {d = e} path step) =
      Step-InOrder s e d (Reach-InOrder s c e i path) step

  -- Whatever a started consumer and its environment do, the received messages are the first of the
  -- delivered ones; each was settled once, in order: acknowledged exactly if it decoded and its
  -- handler succeeded in the state that the messages before it left, which only the handler changes;
  -- and once `done` is closed the loop does not run.
  pub start-InOrder :
      (s : S) (c : Consumer S)
      → Reach unmarshal handler (start none (new_consumer s)).1 c
      → InOrder s c
  unfolding start new_consumer
  start-InOrder s c path =
      Reach-InOrder s _ c (record { handled = none_yet; waiting = refl; one_end = λ e. cc }) path

  finished_keeps :
      (c d : Consumer S)
      → c.looping ≡ false
      → Step unmarshal handler c d
      → (d.looping ≡ false)
        × (d.finished ≡ c.finished)
        × (d.received ≡ c.received)
        × (d.settled ≡ c.settled)
        × (d.state ≡ c.state)
  finished_keeps c d off (deliver payload open_now) = (off, refl, refl, refl, refl)
  finished_keeps c d off close_channel = (off, refl, refl, refl, refl)
  finished_keeps c d off cancel = (off, refl, refl, refl, refl)
  finished_keeps c d off (stop_cancelled runs gone) = absurd (ground arith)
  finished_keeps c d off (stop_closed runs empty closed) = absurd (ground arith)
  finished_keeps c d off (take_message payload rest runs queued) = absurd (ground arith)

  -- Once the loop has ended, or where it never ran, no later step handles a message or ends it
  -- again.
  pub Reach-stopped :
      (c d : Consumer S)
      → c.looping ≡ false
      → Reach unmarshal handler c d
      → (d.looping ≡ false)
        × (d.finished ≡ c.finished)
        × (d.received ≡ c.received)
        × (d.settled ≡ c.settled)
        × (d.state ≡ c.state)
  Reach-stopped c d off here = (off, refl, refl, refl, refl)
  Reach-stopped c d off (next {d = e} path step) =
      let (off', a, b, m, x) = Reach-stopped c e off path in
      let (off'', a', b', m', x') = finished_keeps e d off' step in
      (off'', a' ∙ a, b' ∙ b, m' ∙ m, x' ∙ x)

  -- `Shutdown` of a consumer whose `Start` failed never returns: its wait for `done` has no end,
  -- whatever happens.
  pub failed_start-blocks :
      (s : S) (e : Error) (d : Consumer S)
      → Reach unmarshal handler (begin_shutdown (start (some e) (new_consumer s)).1) d
      → d.finished ≡ false
  unfolding begin_shutdown start new_consumer
  failed_start-blocks s e d path =
      (Reach-stopped (begin_shutdown (start (some e) (new_consumer s)).1) d refl path).1

  -- `Shutdown` of a running consumer can return at any time: the loop may end at once, with every
  -- message that it has received settled.
  pub begin_shutdown-stops :
      (c : Consumer S)
      → c.has_cancel ≡ true
      → c.looping ≡ true
      → Step unmarshal handler (begin_shutdown c) (leave_loop (begin_shutdown c))
        × ((leave_loop (begin_shutdown c)).finished ≡ true)
        × ((leave_loop (begin_shutdown c)).received ≡ c.received)
  unfolding begin_shutdown leave_loop
  begin_shutdown-stops c set runs = (stop_cancelled runs (ground arith), refl, refl)

  -- Where an event encodes to a payload that decodes to the event, publishing it sends exactly this
  -- payload to the topic, and a consumer that handles this payload runs the handler on the event
  -- and acknowledges the message exactly if the handler succeeds.
  pub publish-handle :
      {P : Type 0} (marshal : T → Result Text) (send : Text → Text → P → Option Error × P)
      (topic payload : Text) (event : T) (p : P) (s : S)
      → marshal event ≡ ok payload
      → unmarshal payload ≡ ok event
      → (new_publish_func marshal send topic event p ≡ send topic payload p)
        × ((handle_message unmarshal handler payload s).1 ≡ (handler event s).1)
        × (((handle_message unmarshal handler payload s).0 ≡ acked) ↔ ((handler event s).0 ≡ none))
  unfolding new_publish_func handle_message
  publish-handle marshal send topic payload event p s coded decoded =
      elim (Option-cases (handler event s).0) [
        | inl good ↦ (ground arith, ground arith, (λ h. good, λ h. ground arith))
        | inr (e, bad) ↦
            (ground arith, ground arith, (λ h. absurd (ground arith), λ h. absurd (ground arith)))
      ]
