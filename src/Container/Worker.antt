-- ===== src/Container/Worker.antt =====
-- ConsumerGroupPackage of internal/container/container.go: the two consumers of the process of
-- cmd/consumer/main.go, which share the analytics store.
pub mod Kept
pub mod Safe
use web_demo_go.Prelude.{
  ◌≡◌, Option, none, List, [], text, text_eq, pos, not, if◌then◌else◌, Text, Error, Result,
}
use web_demo_go.Handlers.{UrlCreatedEvent, UrlAccessedEvent}
use web_demo_go.Messaging.{
  Consumer, new_consumer, start, begin_shutdown, Runnable, add, start_group, Step,
}
use web_demo_go.Analytics.{EventPool, save_url_created, save_url_accessed}
use web_demo_go.Container.{Options}

-- `getEnv`, where `getenv` is `os.Getenv`
unfoldable pub get_env : (Text → Text) → Text → Text → Text
unfolding text_eq
get_env getenv key default_value =
    let v = getenv key in if not (text_eq v []) then v else default_value

-- The options of `main`, with the zero values of those that it does not set.
unfoldable pub consumer_options : (Text → Text) → Options
unfolding get_env
consumer_options getenv = record {
  port = pos 0;
  code_length = pos 0;
  redis_addr = get_env getenv (text "REDIS_ADDR") (text "localhost:6379");
  database_url = get_env getenv (text "DATABASE_URL") [];
  rate_limit_store = [];
  cache_size = pos 0;
  cache_ttl = pos 0;
  log_format = get_env getenv (text "LOG_FORMAT") (text "console");
  topic_url_created = get_env getenv (text "TOPIC_URL_CREATED") (text "url.created");
  topic_url_accessed = get_env getenv (text "TOPIC_URL_ACCESSED") (text "url.accessed");
  consumer_group = get_env getenv (text "CONSUMER_GROUP") (text "analytics");
  rate_limit_global_per_day = pos 0;
  rate_limit_read_per_minute = pos 0;
  rate_limit_write_per_minute = pos 0;
  rate_limit_write_per_hour = pos 0;
  rate_limit_write_per_day = pos 0;
}

-- Both consumers and the database that their handlers write to.
pub record Worker (D : Type 0) : Type 0 where
  pub created : Consumer D
  pub accessed : Consumer D
  pub database : D

-- A consumer as its handler finds the database.
abbrev pub at_database : {D : Type 0} → D → Consumer D → Consumer D
at_database d c = record c { state = d }

module _ {I D : Type 0} (opts : Options) (net_parse_ip : Text → Option I) (pool : EventPool I D)
    (unmarshal_created : Text → Result UrlCreatedEvent)
    (unmarshal_accessed : Text → Result UrlAccessedEvent) where
  unfoldable pub new_worker : D → Worker D
  unfolding new_consumer
  new_worker d = record { created = new_consumer d; accessed = new_consumer d; database = d }

  module _ (subscribe : Text → Option Error) where
    -- `Start` and `Shutdown`, up to its wait for the loop, of the consumer of URLs created.
    unfoldable pub created_runnable : Runnable (Worker D)
    unfolding start begin_shutdown
    created_runnable = record {
      run_start = λ w.
          let (failed, c) = start (subscribe opts.topic_url_created) w.created in
          (failed, record w { created = c });
      run_shutdown = λ w. (none, record w { created = begin_shutdown w.created });
    }

    unfoldable pub accessed_runnable : Runnable (Worker D)
    unfolding start begin_shutdown
    accessed_runnable = record {
      run_start = λ w.
          let (failed, c) = start (subscribe opts.topic_url_accessed) w.accessed in
          (failed, record w { accessed = c });
      run_shutdown = λ w. (none, record w { accessed = begin_shutdown w.accessed });
    }

    unfoldable pub consumer_group : List (Runnable (Worker D))
    unfolding add created_runnable accessed_runnable
    consumer_group = add accessed_runnable (add created_runnable [])

  -- A step of one of the consumers, or of its environment.
  pub data WorkerStep (w : Worker D) : Worker D → Type 0 where
    steps_created :
        (c : Consumer D)
        → Step unmarshal_created
            (save_url_created net_parse_ip pool)
            (at_database w.database w.created)
            c
        → WorkerStep w (record w { created = c; database = c.state })
    steps_accessed :
        (c : Consumer D)
        → Step unmarshal_accessed
            (save_url_accessed net_parse_ip pool)
            (at_database w.database w.accessed)
            c
        → WorkerStep w (record w { accessed = c; database = c.state })

  pub data WorkerReach (w : Worker D) : Worker D → Type 0 where
    here : WorkerReach w w
    next : {v v' : Worker D} → WorkerReach w v → WorkerStep v v' → WorkerReach w v'
