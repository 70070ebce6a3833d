-- ===== src/Analytics.antt =====
-- internal/analytics: store.go, and noop.go and postgres.go of its store. The pool of pgx, the
-- database behind it and net.ParseIP are parameters; a nil address is `none`.
pub mod Pipeline
use web_demo_go.Prelude.{Option, none, some, [], Text, text_eq, ℤ, Error, if◌then◌else◌}
use web_demo_go.Handlers.{UrlCreatedEvent, UrlAccessedEvent}

-- The interface `Store`, over its state.
pub record AnalyticsStore (S : Type 0) : Type 0 where
  pub save_url_created : UrlCreatedEvent → S → Option Error × S
  pub save_url_accessed : UrlAccessedEvent → S → Option Error × S

-- `Noop` only logs.
abbrev pub noop_store : {S : Type 0} → AnalyticsStore S
noop_store = record {
  save_url_created = λ event s. (none, s);
  save_url_accessed = λ event s. (none, s);
}

-- A row of the table `url_created_events`.
pub record CreatedRow (I : Type 0) : Type 0 where
  pub code : Text
  pub original_url : Text
  pub url_hash : Option Text
  pub strategy : Text
  pub created_at : ℤ
  pub client_ip : Option I
  pub user_agent : Option Text

-- A row of the table `url_accessed_events`.
pub record AccessedRow (I : Type 0) : Type 0 where
  pub code : Text
  pub accessed_at : ℤ
  pub client_ip : Option I
  pub user_agent : Option Text
  pub referrer : Option Text

-- The two statements, over the state `D` of the database.
pub record EventPool (I D : Type 0) : Type 0 where
  pub insert_created : CreatedRow I → D → Option Error × D
  pub insert_accessed : AccessedRow I → D → Option Error × D

unfoldable pub nullable_text : Text → Option Text
nullable_text s = if text_eq s [] then none else some s

module _ {I : Type 0} (net_parse_ip : Text → Option I) where
  unfoldable pub parse_ip : Text → Option I
  parse_ip s = if text_eq s [] then none else net_parse_ip s

  unfoldable pub created_row : UrlCreatedEvent → CreatedRow I
  unfolding nullable_text parse_ip
  created_row event = record {
    code = event.code;
    original_url = event.original_url;
    url_hash = nullable_text event.url_hash;
    strategy = event.strategy;
    created_at = event.created_at;
    client_ip = parse_ip event.client_ip;
    user_agent = nullable_text event.user_agent;
  }

  unfoldable pub accessed_row : UrlAccessedEvent → AccessedRow I
  unfolding nullable_text parse_ip
  accessed_row event = record {
    code = event.code;
    accessed_at = event.accessed_at;
    client_ip = parse_ip event.client_ip;
    user_agent = nullable_text event.user_agent;
    referrer = nullable_text event.referrer;
  }

  module _ {D : Type 0} (pool : EventPool I D) where
    unfoldable pub save_url_created : UrlCreatedEvent → D → Option Error × D
    unfolding created_row
    save_url_created event d = pool.insert_created (created_row event) d

    unfoldable pub save_url_accessed : UrlAccessedEvent → D → Option Error × D
    unfolding accessed_row
    save_url_accessed event d = pool.insert_accessed (accessed_row event) d

    abbrev pub postgres_analytics : AnalyticsStore D
    postgres_analytics = record {
      save_url_created = save_url_created;
      save_url_accessed = save_url_accessed;
    }
