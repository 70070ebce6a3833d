-- ===== src/Tests/Workers.antt =====
-- An event through the consumers of internal/container/container.go into a table of rows.
use mathlib.Core.List.{Memᴰ}
use web_demo_go.Prelude.{◌≡◌, refl, none, some, [], ◌∷◌, ◌++◌, Text, text, text_eq, if◌then◌else◌}
use web_demo_go.Messaging.{start_group, Consumer, receive, deliver, take_message, acked}
use web_demo_go.Analytics.{CreatedRow, AccessedRow, save_url_created}
use web_demo_go.Container.{Options}
use web_demo_go.Container.Worker.{
  consumer_options, Worker, at_database, new_worker, consumer_group, steps_created, here, next,
}
use web_demo_go.Container.Worker.Safe.{IsEventTable, IsDurable, worker-IsDurable}
use web_demo_go.Tests.Events.{unmarshal_created, unmarshal_accessed, Table, pool}

-- The environment names one topic.
abbrev opts : Options
opts = consumer_options (λ key. if text_eq key (text "TOPIC_URL_CREATED") then text "made" else [])

topics : (opts.topic_url_created ≡ text "made") × (opts.topic_url_accessed ≡ text "url.accessed")
unfolding consumer_options text_eq
topics = (refl, refl)

abbrev HasCreated : CreatedRow Text → Table → Type 0
HasCreated row d = Memᴰ row d.0

abbrev HasAccessed : AccessedRow Text → Table → Type 0
HasAccessed row d = Memᴰ row d.1

pool-IsEventTable : IsEventTable pool HasCreated HasAccessed
pool-IsEventTable = record {
  created_inserted = λ r d h. Memᴰ.head refl;
  created_created = λ r x d h. Memᴰ.tail h;
  created_accessed = λ r x d h. h;
  accessed_inserted = λ r d h. Memᴰ.head refl;
  accessed_accessed = λ r x d h. Memᴰ.tail h;
  accessed_created = λ r x d h. h;
}

abbrev started : Worker Table
started =
    (start_group
      (consumer_group opts some pool unmarshal_created unmarshal_accessed (λ topic. none))
      (new_worker opts some pool unmarshal_created unmarshal_accessed ([], []))).1

abbrev waiting : Consumer Table
waiting =
    let c = at_database started.database started.created in
    record c { queue = c.queue ++ text "1" ∷ []; delivered = c.delivered ++ text "1" ∷ [] }

abbrev one_waits : Worker Table
one_waits = record started { created = waiting; database = waiting.state }

abbrev handled : Consumer Table
handled =
    receive unmarshal_created (save_url_created some pool) (text "1") []
      (at_database one_waits.database one_waits.created)

abbrev one_handled : Worker Table
one_handled = record one_waits { created = handled; database = handled.state }

worker-IsDurable_example :
    IsDurable opts some unmarshal_created unmarshal_accessed pool-IsEventTable one_handled
unfolding start_group consumer_group new_worker
worker-IsDurable_example =
    worker-IsDurable opts some unmarshal_created unmarshal_accessed pool-IsEventTable
      (λ topic. none) ([], []) one_handled
      (next (next here (steps_created waiting (deliver (text "1") refl)))
        (steps_created handled (take_message (text "1") [] refl refl)))

marked : one_handled.created.settled ≡ acked ∷ []
unfolding receive start_group consumer_group new_worker save_url_created
marked = refl
