-- ===== src/Tests/Messages.antt =====
-- Consumers of internal/messaging whose handler keeps the events and fails on an empty one.
use web_demo_go.Prelude.{
  true, suc, ◌≤◌, ◌⊎◌, inr, length, ◌≡◌, refl, Option, none, some, false, List, [], ◌∷◌, ◌++◌, ℕ,
  ◌+◌, ◌-◌, Text, text, Error, failure, Result, ok,
}
use web_demo_go.Messaging.{
  Consumer, new_consumer, start, begin_shutdown, receive, deliver, take_message, Reach, here, next,
  Runnable, start_group,
}
use web_demo_go.Messaging.Consuming.{InOrder, start-InOrder, failed_start-blocks}
use web_demo_go.Messaging.Ending.{LoopStep, one_more, no_step, takes_message, loop-ends}
use web_demo_go.Messaging.Groups.{RolledBack, start_group-RolledBack}

abbrev decode : Text → Result Text
decode t = ok t

abbrev keep : Text → List Text → Option Error × List Text
keep [] kept = (some (failure []), kept)
keep (b ∷ t) kept = (none, kept ++ (b ∷ t) ∷ [])

abbrev running : Consumer (List Text)
running = (start none (new_consumer [])).1

abbrev with_message : Consumer (List Text)
with_message = record running { queue = text "a" ∷ []; delivered = text "a" ∷ [] }

abbrev after_message : Consumer (List Text)
after_message = receive decode keep (text "a") [] with_message

one_message : Reach decode keep running after_message
unfolding start new_consumer
one_message = next (next here (deliver (text "a") refl)) (take_message (text "a") [] refl refl)

start-InOrder_example : InOrder decode keep [] after_message
start-InOrder_example = start-InOrder decode keep [] after_message one_message

abbrev unstarted : Consumer (List Text)
unstarted = begin_shutdown (start (some (failure [])) (new_consumer [])).1

abbrev unread : Consumer (List Text)
unread = record unstarted { queue = text "a" ∷ []; delivered = text "a" ∷ [] }

only_delivered : Reach decode keep unstarted unread
unfolding begin_shutdown start new_consumer
only_delivered = next here (deliver (text "a") refl)

not_looping : unstarted.looping ≡ false
unfolding begin_shutdown start new_consumer
not_looping = refl

failed_start-blocks_example : unread.finished ≡ false
failed_start-blocks_example = failed_start-blocks decode keep [] (failure []) unread only_delivered

-- A broker that keeps the topic and payload of what is sent.
abbrev broker : Text → Text → List (Text × Text) → Option Error × List (Text × Text)
broker topic payload sent = (none, sent ++ (topic, payload) ∷ [])

-- The state of a group counts the running consumers.
abbrev good : Runnable ℕ
good = record { run_start = λ n. (none, n + 1); run_shutdown = λ n. (none, n - 1) }

abbrev broken : Runnable ℕ
broken = record {
  run_start = λ n. (some (failure (text "no topic")), n);
  run_shutdown = λ n. (none, n);
}

abbrev group : List (Runnable ℕ)
group = good ∷ good ∷ broken ∷ good ∷ []

group_fails : start_group group 0 ≡ (some (2, failure (text "no topic")), 0)
unfolding start_group
group_fails = refl

start_group-RolledBack_example : RolledBack 0 [] group 0 2 (failure (text "no topic")) 0
start_group-RolledBack_example =
    start_group-RolledBack group 0 0 2 (failure (text "no topic")) group_fails

-- A consumer with one message left whose channel is closed.
abbrev closing : Consumer (List Text)
closing = record with_message { open_channel = false }

is_looping : closing.looping ≡ true
unfolding start new_consumer
is_looping = refl

loop-ends_example :
    (1 ≤ suc (length closing.queue))
    × (((receive decode keep (text "a") [] closing).finished ≡ true)
        ⊎ ((e : Consumer (List Text)) × LoopStep decode keep
              (receive decode keep (text "a") [] closing)
              e))
    × (closing.cancelled ≡ false
        → (receive decode keep (text "a") [] closing).looping ≡ false
        → (receive decode keep (text "a") [] closing).received ≡ closing.received ++ closing.queue)
loop-ends_example =
    loop-ends decode keep closing (receive decode keep (text "a") [] closing) 1 is_looping
      (inr refl) (one_more no_step (takes_message (text "a") [] is_looping refl))
