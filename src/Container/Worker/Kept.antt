-- ===== src/Container/Worker/Kept.antt =====
-- The events that the consumers of internal/container/container.go acknowledge are in the database.
use mathlib.Core.Path.{subst}
use web_demo_go.Prelude.{
  ◌≡◌, Option, some, none, List, [], ◌∷◌, ◌++◌, Text, Error, Result, ok, err, inl, inr, arith,
  Option-cases, Result-cases,
}
use web_demo_go.Messaging.{
  start, Settled, acked, Consumer, Step, deliver, close_channel, cancel, stop_cancelled,
  stop_closed, take_message, handle_message, receive, leave_loop,
}

-- What holds of the payloads of the messages that were acknowledged.
pub data Stored (holds : Text → Type 0) : List Text → List Settled → Type 0 where
  none_yet : Stored holds [] []
  one_more :
      {received : List Text} {settled : List Settled} (payload : Text) (mark : Settled)
      → Stored holds received settled
      → (mark ≡ acked → holds payload)
      → Stored holds (received ++ payload ∷ []) (settled ++ mark ∷ [])

module _ {holds holds' : Text → Type 0} (grows : (p : Text) → holds p → holds' p) where
  pub map-Stored :
      (received : List Text) (settled : List Settled)
      → Stored holds received settled
      → Stored holds' received settled
  map-Stored _ _ none_yet = none_yet
  map-Stored _ _ (one_more {received = r} {settled = s} payload mark before this) =
      one_more payload mark (map-Stored r s before) (λ h. grows payload (this h))

-- A handler that stores each event, in a state from which nothing that is stored goes.
pub record Keeps {T S : Type 0} (handler : T → S → Option Error × S) (In : T → S → Type 0)
    : Type 0 where
  pub stores : (event : T) (s : S) → (handler event s).0 ≡ none → In event (handler event s).1
  pub keeps : (event old : T) (s : S) → In old s → In old (handler event s).1

module _ {T S : Type 0} (unmarshal : Text → Result T) (In : T → S → Type 0) where
  abbrev pub Decoded : S → Text → Type 0
  Decoded s payload = (event : T) × (unmarshal payload ≡ ok event) × In event s

  pub map-Decoded :
      (s s' : S)
      → ((event : T) → In event s → In event s')
      → (p : Text) → Decoded s p
      → Decoded s' p
  map-Decoded s s' grows p (event, good, there) = (event, good, grows event there)

  -- Each message of the consumer that was acknowledged is stored.
  abbrev pub AckedStored : Consumer S → S → Type 0
  AckedStored c s = Stored (Decoded s) c.received c.settled

  pub start-AckedStored :
      (subscribed : Option Error) (c : Consumer S) (s : S)
      → AckedStored c s
      → AckedStored (start subscribed c).1 s
  unfolding start
  start-AckedStored none c s h = h
  start-AckedStored (some e) c s h = h

module _ {T S : Type 0} (unmarshal : Text → Result T) (handler : T → S → Option Error × S) where
  handle_good :
      (payload : Text) (s : S) (event : T)
      → unmarshal payload ≡ ok event
      → (handler event s).1 ≡ (handle_message unmarshal handler payload s).1
  unfolding handle_message
  handle_good payload s event good = elim (Option-cases (handler event s).0) [
    | inr (e, failed) ↦ ground arith
    | inl fine ↦ ground arith
  ]

  handle_bad :
      (payload : Text) (s : S) (e : Error)
      → unmarshal payload ≡ err e
      → s ≡ (handle_message unmarshal handler payload s).1
  unfolding handle_message
  handle_bad payload s e bad = ground arith

  -- A step of a consumer takes its state nowhere that its handler does not.
  module _ (P : S → Type 0) (kept : (event : T) (s : S) → P s → P (handler event s).1) where
    handle_keeps : (payload : Text) (s : S) → P s → P (handle_message unmarshal handler payload s).1
    handle_keeps payload s h = elim (Result-cases (unmarshal payload)) [
      | inr (e, bad) ↦ subst P (handle_bad payload s e bad) h
      | inl (event, good) ↦ subst P (handle_good payload s event good) (kept event s h)
    ]

    pub Step-keeps : (c c' : Consumer S) → Step unmarshal handler c c' → P c.state → P c'.state
    unfolding receive leave_loop
    Step-keeps c _ (deliver payload o) h = h
    Step-keeps c _ close_channel h = h
    Step-keeps c _ cancel h = h
    Step-keeps c _ (stop_cancelled l d) h = h
    Step-keeps c _ (stop_closed l q o) h = h
    Step-keeps c _ (take_message payload rest l q) h = handle_keeps payload c.state h

  module _ (In : T → S → Type 0) (k : Keeps handler In) where
    handle_message-acked :
        (payload : Text) (s : S)
        → (handle_message unmarshal handler payload s).0 ≡ acked
        → Decoded unmarshal In (handle_message unmarshal handler payload s).1 payload
    unfolding handle_message
    handle_message-acked payload s h = elim (Result-cases (unmarshal payload)) [
      | inr (e, bad) ↦ absurd (ground arith)
      | inl (event, good) ↦ elim (Option-cases (handler event s).0) [
        | inr (e, failed) ↦ absurd (ground arith)
        | inl fine ↦ (
          event,
          good,
          subst (In event) (handle_good payload s event good) (k.stores event s fine),
        )
      ]
    ]

    pub Step-AckedStored :
        (c c' : Consumer S)
        → Step unmarshal handler c c'
        → AckedStored unmarshal In c c.state
        → AckedStored unmarshal In c' c'.state
    unfolding receive leave_loop
    Step-AckedStored c _ (deliver payload o) h = h
    Step-AckedStored c _ close_channel h = h
    Step-AckedStored c _ cancel h = h
    Step-AckedStored c _ (stop_cancelled l d) h = h
    Step-AckedStored c _ (stop_closed l q o) h = h
    Step-AckedStored c _ (take_message payload rest l q) h =
        let done = handle_message unmarshal handler payload c.state in
        one_more payload done.0
          (map-Stored
            (map-Decoded unmarshal In c.state done.1 (λ event there.
              handle_keeps (In event) (λ new s. k.keeps new event s) payload c.state there))
            c.received c.settled h)
          (handle_message-acked payload c.state)
