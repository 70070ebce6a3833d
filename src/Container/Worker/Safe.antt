-- ===== src/Container/Worker/Safe.antt =====
-- What the process of cmd/consumer/main.go keeps of the events that its consumers acknowledge.

use web_demo_go.Prelude.{◌≡◌, Option, none, Text, Error, Result}
use web_demo_go.Handlers.{UrlCreatedEvent, UrlAccessedEvent}
use web_demo_go.Messaging.{begin_shutdown, add, start_group}
use web_demo_go.Messaging.Keeping.{RunKeeps, start_group-keeps}
use web_demo_go.Analytics.{
  EventPool, CreatedRow, AccessedRow, created_row, accessed_row, save_url_created,
  save_url_accessed,
}
use web_demo_go.Container.{Options}
use web_demo_go.Container.Worker.{
  Worker, at_database, new_worker, consumer_group, created_runnable, accessed_runnable, WorkerStep,
  steps_created, steps_accessed, WorkerReach, here, next,
}
use web_demo_go.Container.Worker.Kept.{
  none_yet, map-Stored, Keeps, AckedStored, map-Decoded, Step-AckedStored, start-AckedStored,
  Step-keeps,
}

-- What an insert does to the two tables: where it succeeds the row is there, and no row goes.
pub record IsEventTable {I D : Type 0} (pool : EventPool I D)
    (HasCreated : CreatedRow I → D → Type 0) (HasAccessed : AccessedRow I → D → Type 0)
    : Type 0 where
  pub created_inserted :
      (r : CreatedRow I) (d : D)
      → (pool.insert_created r d).0 ≡ none
      → HasCreated r (pool.insert_created r d).1
  pub created_created :
      (r x : CreatedRow I) (d : D) → HasCreated x d → HasCreated x (pool.insert_created r d).1
  pub created_accessed :
      (r : CreatedRow I) (x : AccessedRow I) (d : D)
      → HasAccessed x d
      → HasAccessed x (pool.insert_created r d).1
  pub accessed_inserted :
      (r : AccessedRow I) (d : D)
      → (pool.insert_accessed r d).0 ≡ none
      → HasAccessed r (pool.insert_accessed r d).1
  pub accessed_accessed :
      (r x : AccessedRow I) (d : D) → HasAccessed x d → HasAccessed x (pool.insert_accessed r d).1
  pub accessed_created :
      (r : AccessedRow I) (x : CreatedRow I) (d : D)
      → HasCreated x d
      → HasCreated x (pool.insert_accessed r d).1

module _ {I D : Type 0} (opts : Options) (net_parse_ip : Text → Option I) {pool : EventPool I D}
    (unmarshal_created : Text → Result UrlCreatedEvent)
    (unmarshal_accessed : Text → Result UrlAccessedEvent) {HasCreated : CreatedRow I → D → Type 0}
    {HasAccessed : AccessedRow I → D → Type 0}
    (table : IsEventTable pool HasCreated HasAccessed) where
  abbrev CreatedIn : UrlCreatedEvent → D → Type 0
  CreatedIn event = HasCreated (created_row net_parse_ip event)

  abbrev AccessedIn : UrlAccessedEvent → D → Type 0
  AccessedIn event = HasAccessed (accessed_row net_parse_ip event)

  created-Keeps : Keeps (save_url_created net_parse_ip pool) CreatedIn
  unfolding save_url_created
  created-Keeps = record {
    stores = λ event d h. table.created_inserted (created_row net_parse_ip event) d h;
    keeps = λ event old d h.
        table.created_created (created_row net_parse_ip event) (created_row net_parse_ip old) d h;
  }

  accessed-Keeps : Keeps (save_url_accessed net_parse_ip pool) AccessedIn
  unfolding save_url_accessed
  accessed-Keeps = record {
    stores = λ event d h. table.accessed_inserted (accessed_row net_parse_ip event) d h;
    keeps = λ event old d h.
        table.accessed_accessed (accessed_row net_parse_ip event) (accessed_row net_parse_ip old) d
          h;
  }

  -- Each acknowledged message of either consumer decodes to an event that has its row.
  abbrev pub IsDurable : Worker D → Type 0
  IsDurable w =
      AckedStored unmarshal_created CreatedIn w.created w.database
      × AckedStored unmarshal_accessed AccessedIn w.accessed w.database

  WorkerStep-IsDurable :
      (w v : Worker D)
      → WorkerStep opts net_parse_ip pool unmarshal_created unmarshal_accessed w v
      → IsDurable w
      → IsDurable v
  unfolding save_url_created save_url_accessed
  WorkerStep-IsDurable w _ (steps_created c step) (created, accessed) = (
    Step-AckedStored unmarshal_created (save_url_created net_parse_ip pool) CreatedIn created-Keeps
        (at_database w.database w.created) c step created,
    map-Stored
        (map-Decoded unmarshal_accessed AccessedIn w.database c.state (λ event.
          Step-keeps unmarshal_created (save_url_created net_parse_ip pool) (AccessedIn event)
            (λ new d.
              table.created_accessed (created_row net_parse_ip new)
                (accessed_row net_parse_ip event) d)
            (at_database w.database w.created) c step))
        w.accessed.received w.accessed.settled accessed,
  )
  WorkerStep-IsDurable w _ (steps_accessed c step) (created, accessed) = (
    map-Stored
        (map-Decoded unmarshal_created CreatedIn w.database c.state (λ event.
          Step-keeps unmarshal_accessed (save_url_accessed net_parse_ip pool) (CreatedIn event)
            (λ new d.
              table.accessed_created (accessed_row net_parse_ip new)
                (created_row net_parse_ip event) d)
            (at_database w.database w.accessed) c step))
        w.created.received w.created.settled created,
    Step-AckedStored unmarshal_accessed (save_url_accessed net_parse_ip pool) AccessedIn
        accessed-Keeps (at_database w.database w.accessed) c step accessed,
  )

  new_worker-IsDurable :
      (d : D) → IsDurable (new_worker opts net_parse_ip pool unmarshal_created unmarshal_accessed d)
  unfolding new_worker
  new_worker-IsDurable d = (none_yet, none_yet)

  module _ (subscribe : Text → Option Error) where
    created-RunKeeps :
        RunKeeps IsDurable
          (created_runnable opts net_parse_ip pool unmarshal_created unmarshal_accessed subscribe)
    unfolding created_runnable begin_shutdown
    created-RunKeeps = (
      λ w (created, accessed). (
        start-AckedStored unmarshal_created CreatedIn (subscribe opts.topic_url_created) w.created
            w.database created,
        accessed,
      ),
      λ w h. h,
    )

    accessed-RunKeeps :
        RunKeeps IsDurable
          (accessed_runnable opts net_parse_ip pool unmarshal_created unmarshal_accessed subscribe)
    unfolding accessed_runnable begin_shutdown
    accessed-RunKeeps = (
      λ w (created, accessed). (
        created,
        start-AckedStored unmarshal_accessed AccessedIn (subscribe opts.topic_url_accessed)
            w.accessed w.database accessed,
      ),
      λ w h. h,
    )

    started-IsDurable :
        (d : D)
        → IsDurable
            (start_group
              (consumer_group opts net_parse_ip pool unmarshal_created unmarshal_accessed subscribe)
              (new_worker opts net_parse_ip pool unmarshal_created unmarshal_accessed d)).1
    unfolding consumer_group add
    started-IsDurable d =
        start_group-keeps IsDurable _ _ (created-RunKeeps, (accessed-RunKeeps, tt))
          (new_worker-IsDurable d)

    WorkerReach-IsDurable :
        (w v : Worker D)
        → IsDurable w
        → WorkerReach opts net_parse_ip pool unmarshal_created unmarshal_accessed w v
        → IsDurable v
    WorkerReach-IsDurable w _ h here = h
    WorkerReach-IsDurable w v h (next {v = u} path step) =
        WorkerStep-IsDurable u v step (WorkerReach-IsDurable w u h path)

    -- Whatever the subscriptions answer, and however the steps of the two consumers and of their
    -- environment alternate after the start of the group: each message that a consumer has
    -- acknowledged decodes to an event whose row is in the table of its kind. Here an insert that
    -- succeeds leaves its row in the table, and no insert takes a row out of either table.
    pub worker-IsDurable :
        (d : D) (w : Worker D)
        → WorkerReach opts net_parse_ip pool unmarshal_created unmarshal_accessed
            (start_group
              (consumer_group opts net_parse_ip pool unmarshal_created unmarshal_accessed subscribe)
              (new_worker opts net_parse_ip pool unmarshal_created unmarshal_accessed d)).1
            w
        → IsDurable w
    worker-IsDurable d w path = WorkerReach-IsDurable _ w (started-IsDurable d) path
