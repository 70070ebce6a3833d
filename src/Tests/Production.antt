-- ===== src/Tests/Production.antt =====
-- The repository of internal/container/container.go over a list of rows and a whole Redis server.
use web_demo_go.Lru.Nodes.{update}
use web_demo_go.Store.Either.{save_either}
use web_demo_go.Prelude.{
  Text, failure, some, ◌⊎◌, inr, ◌++◌, print_int, ◌≡◌, refl, none, [], ◌∷◌, List, Text_eq, text,
  text_eq, pos, lookup, ok, ℕ, ◌+◌, arith,
}
use web_demo_go.Lru
use web_demo_go.Shortener.{token_shorten, ShortUrl, Sources}
use web_demo_go.Shortener.UrlHash.{UrlLib}
use web_demo_go.Store.Contract.{IsStore, keeping}
use web_demo_go.Container.Faults.{database_of}
use web_demo_go.Store.Faults.{IsHonest}
use web_demo_go.Store.Postgres.Table.{table_rows, postgres-IsStore, postgres-IsHonest}
use web_demo_go.Store.Postgres.{query_failed, row_of, save_row, Row, postgres_repository}
use web_demo_go.Store.Redis.{entity_fields, read_entity, field, created_time}
use web_demo_go.Store.Redis.Cache.{save_through, redis_cache_repository}
use web_demo_go.Store.Redis.Server.{Hashes}
use web_demo_go.Store.Redis.Holds.{Holds}
use web_demo_go.Store.Redis.Ends.{CacheValid}
use web_demo_go.Store.Redis.Refines.{redis_cache-IsStore}
use web_demo_go.Store.Cached.{save as save_cached}
use web_demo_go.Handlers.{
  http_error, Reply, CreateShortUrlRequest, CreateShortUrlResponse, reply, Service,
  create_short_url,
}
use web_demo_go.Container.{Options, RepositoryState, repository, repository_package, url_handler}
use web_demo_go.Container.Production.{
  redirect, create-redirect_production, RepositoryValid, repository_rows, Provided,
  repository-IsStore, repository_package-Provided, create,
}
use web_demo_go.Tests.Database.{find, no_time, table, IsKeyed, rows_table, server, whole_server}

abbrev pub opts : Options
opts = record {
  port = pos 8888;
  code_length = pos 8;
  redis_addr = text "localhost:6379";
  database_url = [];
  rate_limit_store = text "memory";
  cache_size = pos 2;
  cache_ttl = pos 3_600_000_000_000;
  log_format = text "console";
  topic_url_created = text "url.created";
  topic_url_accessed = text "url.accessed";
  consumer_group = text "analytics";
  rate_limit_global_per_day = pos 1_000_000;
  rate_limit_read_per_minute = pos 100_000;
  rate_limit_write_per_minute = pos 10;
  rate_limit_write_per_hour = pos 100;
  rate_limit_write_per_day = pos 500;
}

back : (u : ShortUrl) → keeping no_time (read_entity (entity_fields u)) ≡ keeping no_time u
unfolding read_entity entity_fields field created_time lookup text_eq
back u = refl

table-IsStore :
    IsStore
      (keeping no_time)
      (postgres_repository table)
      IsKeyed
      (table_rows rows_table no_time (λ t. refl))
table-IsStore = postgres-IsStore rows_table no_time (λ t. refl)

postgres-IsHonest_example :
    IsHonest
      (postgres_repository table)
      IsKeyed
      (keeping no_time)
      (table_rows rows_table no_time (λ t. refl))
      (λ u d e. (table.insert_row (row_of u) d).0 ≡ some e)
      (λ c d m. (table.select_code c d).0 ≡ query_failed (failure m))
      (λ h d e. (table.select_hash h d).0 ≡ query_failed e)
postgres-IsHonest_example = postgres-IsHonest rows_table no_time (λ t. refl)

redis_cache-IsStore_example :
    IsStore
      (keeping no_time)
      (redis_cache_repository (postgres_repository table) server (pos 60))
      (CacheValid table-IsStore whole_server (pos 60) back)
      (λ c. table_rows rows_table no_time (λ t. refl) c.store)
redis_cache-IsStore_example = redis_cache-IsStore table-IsStore whole_server (pos 60) back

repository-IsStore_example :
    IsStore
      (keeping no_time)
      (repository opts table server)
      (RepositoryValid rows_table whole_server no_time (λ t. refl) back opts)
      (repository_rows rows_table whole_server no_time (λ t. refl) back opts)
repository-IsStore_example =
    repository-IsStore rows_table whole_server no_time (λ t. refl) back opts

abbrev no_hashes : Hashes
no_hashes k = []

held : Holds (keeping no_time) (table_rows rows_table no_time (λ t. refl) []) no_hashes
unfolding lookup
held = record {
  entities = λ c some_fields. absurd (some_fields refl);
  index = λ h c e. absurd (ground arith);
}

abbrev started : RepositoryState (List Row) Hashes
started = repository_package opts table server [] no_hashes

production-Provided : Provided rows_table whole_server no_time (λ t. refl) back opts [] started
production-Provided =
    repository_package-Provided rows_table whole_server no_time (λ t. refl) back opts [] no_hashes
      tt held

-- The path is the whole text, and a hash is the text with a mark.
abbrev pub lib : UrlLib (Unit {0})
lib = record {
  parse = λ t. ok (record { scheme = []; host = []; path = t; fragment = []; other = tt });
  to_string = λ u. u.path;
  to_lower_wide = λ t. t;
  sha256_hex = λ t. b'#' ∷ t;
}

abbrev pub sources : Sources
sources = record { generate = λ n. text "c"; now = λ n. pos n }

abbrev pub service : Service (RepositoryState (List Row) Hashes) ℕ
service = record { world = record { store = started; generated = 0; ticks = 0 }; publisher = 0 }

abbrev pub request : CreateShortUrlRequest
request = record { url = text "http://x"; strategy = [] }

abbrev response : CreateShortUrlResponse
response = record {
  location = text "http://localhost:8888/c";
  code = text "c";
  short_url = text "http://localhost:8888/c";
  original_url = text "http://x";
}

-- The encoder gives nothing, and the publisher counts.
abbrev create_one :
    Service (RepositoryState (List Row) Hashes) ℕ
    → Reply CreateShortUrlResponse × Service (RepositoryState (List Row) Hashes) ℕ
create_one =
    create rows_table whole_server no_time (λ t. refl) back opts lib sources (λ e. ok [])
      (λ e. ok []) (λ topic payload n. (none, n + 1)) none request

created : (create_one service).0 ≡ reply response
unfolding create_short_url url_handler lookup token_shorten save_either repository_package
    save_cached save_through save_row Lru.set Lru.new Lru.add_new Lru.make_room Lru.add_to_front
    update
created = refl

unused :
    repository_rows rows_table whole_server no_time (λ t. refl) back opts started (text "c") ≡ none
unfolding repository_package find
unused = refl

create-redirect_production_example :
    (text "http://localhost:8888/c"
      ≡ (text "http://localhost:" ++ print_int (pos 8888)) ++ (text "/" ++ text "c"))
    × (((redirect rows_table whole_server no_time
            (λ t. refl)
            back
            opts
            lib
            sources
            (λ e. ok [])
            (λ e. ok [])
            (λ topic payload n. (none, n + 1))
            none
            (text "c")
            (create_one service).1).0
          ≡ reply (record { status = 301; location = text "http://x" }))
        ⊎ ((m : Text) × ((table.select_code
                (text "c")
                (database_of (create_one service).1.world.store)).0
              ≡ query_failed (failure m))
            × ((redirect rows_table whole_server no_time
                  (λ t. refl)
                  back
                  opts
                  lib
                  sources
                  (λ e. ok [])
                  (λ e. ok [])
                  (λ topic payload n. (none, n + 1))
                  none
                  (text "c")
                  (create_one service).1).0
                ≡ http_error 500 (text "failed to get url"))))
create-redirect_production_example =
    create-redirect_production rows_table whole_server no_time (λ t. refl) back opts lib sources
      (λ e. ok []) (λ e. ok []) (λ topic payload n. (none, n + 1)) none none request service
      response (inr refl) production-Provided.0 unused created
