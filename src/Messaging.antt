-- ===== src/Messaging.antt =====
-- internal/messaging: consumer.go, group.go and publisher.go. encoding/json and the message broker
-- are parameters; a message is its payload.
pub mod Consuming
pub mod Ending
pub mod Groups
pub mod Keeping
use web_demo_go.Prelude.{
  ℕ, suc, Bool, true, false, Option, none, some, List, [], ◌∷◌, ◌++◌, ◌≡◌, Text, Error, Result, ok,
  err, if◌then◌else◌,
}

-- `msg.Ack()` or `msg.Nack()`
pub data Settled : Type 0 where
  acked : Settled
  nacked : Settled

-- `Publish[T]`, over the state of the publisher.
abbrev pub Publish : Type 0 → Type 0 → Type 0
Publish T P = T → P → Option Error × P

-- `NewPublishFunc`: `marshal` is `json.Marshal`, and `send` is `publisher.Publish` of a topic and a
-- payload.
unfoldable pub new_publish_func :
    {T P : Type 0} → (T → Result Text) → (Text → Text → P → Option Error × P) → Text → Publish T P
new_publish_func marshal send topic event p = elim (marshal event) [
  | err e ↦ (some e, p)
  | ok payload ↦ send topic payload p
]

module _ {T S : Type 0} (unmarshal : Text → Result T) (handler : T → S → Option Error × S) where
  -- `handleMessage`, over the state of the handler.
  unfoldable pub handle_message : Text → S → Settled × S
  handle_message payload s = elim (unmarshal payload) [
    | err e ↦ (nacked, s)
    | ok event ↦
        let (failed, s') = handler event s in
        elim failed [ some e ↦ (nacked, s') | none ↦ (acked, s') ]
  ]

-- `Consumer`, with the channel of its subscription, the state of its handler, and what has happened
-- to the messages so far.
pub record Consumer (S : Type 0) : Type 0 where
  -- `c.cancel` is not nil
  pub has_cancel : Bool
  -- the context is done
  pub cancelled : Bool
  -- the goroutine of `consumeLoop` runs
  pub looping : Bool
  -- `c.done` is closed
  pub finished : Bool
  pub open_channel : Bool
  pub queue : List Text
  pub state : S
  pub delivered : List Text
  pub received : List Text
  pub settled : List Settled

module _ {S : Type 0} where
  unfoldable pub new_consumer : S → Consumer S
  new_consumer s = record {
    has_cancel = false;
    cancelled = false;
    looping = false;
    finished = false;
    open_channel = true;
    queue = [];
    state = s;
    delivered = [];
    received = [];
    settled = [];
  }

  -- `Start`, by the result of `Subscribe`.
  unfoldable pub start : Option Error → Consumer S → Option Error × Consumer S
  start (some e) c = (some e, record c { has_cancel = true })
  start none c = (none, record c { has_cancel = true; looping = true })

  -- `Shutdown` up to its wait for `c.done`.
  unfoldable pub begin_shutdown : Consumer S → Consumer S
  begin_shutdown c = record c { cancelled = if c.has_cancel then true else c.cancelled }

  -- `defer close(c.done)`
  unfoldable pub leave_loop : Consumer S → Consumer S
  leave_loop c = record c { looping = false; finished = true }

module _ {T S : Type 0} (unmarshal : Text → Result T) (handler : T → S → Option Error × S) where
  -- The branch of the loop that receives a message.
  unfoldable pub receive : Text → List Text → Consumer S → Consumer S
  unfolding handle_message
  receive payload rest c =
      let (mark, s) = handle_message unmarshal handler payload c.state in
      record c {
        queue = rest;
        state = s;
        received = c.received ++ payload ∷ [];
        settled = c.settled ++ mark ∷ [];
      }

  -- One step of `consumeLoop` or of its environment. Where several branches of the select are ready
  -- each of them may be taken.
  pub data Step (c : Consumer S) : Consumer S → Type 0 where
    deliver :
        (payload : Text)
        → c.open_channel ≡ true
        → Step c
            (record c { queue = c.queue ++ payload ∷ []; delivered = c.delivered ++ payload ∷ [] })
    close_channel : Step c (record c { open_channel = false })
    cancel : Step c (record c { cancelled = true })
    stop_cancelled : c.looping ≡ true → c.cancelled ≡ true → Step c (leave_loop c)
    stop_closed : c.looping ≡ true → c.queue ≡ [] → c.open_channel ≡ false → Step c (leave_loop c)
    take_message :
        (payload : Text) (rest : List Text)
        → c.looping ≡ true
        → c.queue ≡ payload ∷ rest
        → Step c (receive payload rest c)

  pub data Reach (c : Consumer S) : Consumer S → Type 0 where
    here : Reach c c
    next : {d d' : Consumer S} → Reach c d → Step d d' → Reach c d'

-- `if err != nil && firstErr == nil { firstErr = err }`
unfoldable pub keep_first : Option Error → Option Error → Option Error
keep_first (some e) failed = some e
keep_first none failed = failed

-- `Runnable`, over the state of all of them.
pub record Runnable (S : Type 0) : Type 0 where
  pub run_start : S → Option Error × S
  pub run_shutdown : S → Option Error × S

module _ {S : Type 0} where
  -- `g.consumers = append(g.consumers, consumer)`
  unfoldable pub add : Runnable S → List (Runnable S) → List (Runnable S)
  add consumer consumers = consumers ++ consumer ∷ []

  -- The inner loop of `Start`: the started consumers, the last one first.
  unfoldable pub roll_back : List (Runnable S) → S → S
  roll_back [] s = s
  roll_back (consumer ∷ consumers) s = roll_back consumers (consumer.run_shutdown s).1

  -- The loop of `Start` from index `i` on, with the consumers started before, the last one first.
  -- The error wraps that of the consumer with its index.
  unfoldable pub start_from : ℕ → List (Runnable S) → List (Runnable S) → S → Option (ℕ × Error) × S
  unfolding roll_back
  start_from i started [] s = (none, s)
  start_from i started (consumer ∷ consumers) s =
      let (failed, s') = consumer.run_start s in
      let rest = start_from (suc i) (consumer ∷ started) consumers s' in
      elim failed [ none ↦ rest | some e ↦ (some (i, e), roll_back started s') ]

  -- `(*ConsumerGroup).Start`
  unfoldable pub start_group : List (Runnable S) → S → Option (ℕ × Error) × S
  unfolding start_from
  start_group consumers s = start_from 0 [] consumers s

  -- The loop of `Shutdown`.
  unfoldable pub shutdown_from : Option Error → List (Runnable S) → S → Option Error × S
  unfolding keep_first
  shutdown_from first_err [] s = (first_err, s)
  shutdown_from first_err (consumer ∷ consumers) s =
      let (failed, s') = consumer.run_shutdown s in
      shutdown_from (keep_first first_err failed) consumers s'

  -- `(*ConsumerGroup).Shutdown`; `close` is `g.subscriber.Close`.
  unfoldable pub shutdown_group : (S → Option Error × S) → List (Runnable S) → S → Option Error × S
  unfolding shutdown_from keep_first
  shutdown_group close consumers s =
      let (first_err, s') = shutdown_from none consumers s in
      let (failed, s'') = close s' in (keep_first first_err failed, s'')
