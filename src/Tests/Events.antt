-- ===== src/Tests/Events.antt =====
-- An event of internal/handlers/url.go on its way into a table that is a list of rows.
use web_demo_go.Prelude.{
  ◌≡◌, ◌↔◌, refl, Option, none, some, List, [], ◌∷◌, ◌++◌, Text, Text_eq, text, pos, lookup, Error,
  Result, ok, err, not_found,
}
use web_demo_go.Shortener.{ShortUrl, Repository, Sources}
use web_demo_go.Messaging.{new_publish_func, handle_message, acked}
use web_demo_go.Handlers.{
  CreateShortUrlRequest, UrlHandler, Service, UrlCreatedEvent, UrlAccessedEvent, created_event,
  accessed_event, no_meta, strategy_token, strategy_name, reply, create_short_url, redirect_to_url,
  created_response, request_meta_from,
}
use web_demo_go.Analytics.{
  EventPool, CreatedRow, AccessedRow, save_url_created, save_url_accessed, nullable_text, parse_ip,
}
use web_demo_go.Analytics.Pipeline.{create-analytics, redirect-analytics}

abbrev made : ShortUrl
made = record { code = text "c"; original_url = text "u"; url_hash = []; created_at = pos 5 }

-- Every lookup finds the one entity.
abbrev one : Repository (Unit {0})
one = record {
  save = λ u s. (none, s);
  get_by_code = λ code s. (ok made, s);
  get_by_hash = λ hash s. (err not_found, s);
}

-- The broker keeps what was sent.
abbrev Sent : Type 0
Sent = List (Text × Text)

abbrev send : Text → Text → Sent → Option Error × Sent
send topic payload sent = (none, sent ++ (topic, payload) ∷ [])

-- The encoders know one event.
abbrev marshal_created : UrlCreatedEvent → Result Text
marshal_created event = ok (text "1")

abbrev marshal_accessed : UrlAccessedEvent → Result Text
marshal_accessed event = ok (text "2")

abbrev handler : UrlHandler (Unit {0}) Sent
handler = record {
  strategies = (strategy_token, λ url w. (ok made, w)) ∷ [];
  store = one;
  base_url = text "http://h";
  default_strategy = strategy_token;
  publish_created = new_publish_func marshal_created send (text "t");
  publish_accessed = new_publish_func marshal_accessed send (text "t");
}

abbrev service : Service (Unit {0}) Sent
service = record { world = record { store = tt; generated = 0; ticks = 9 }; publisher = [] }

abbrev clock : Sources
clock = record { generate = λ n. text "c"; now = λ n. pos n }

abbrev pub unmarshal_created : Text → Result UrlCreatedEvent
unmarshal_created t = ok (created_event strategy_token no_meta made)

abbrev pub unmarshal_accessed : Text → Result UrlAccessedEvent
unmarshal_accessed t = ok (accessed_event (text "c") no_meta (pos 9))

abbrev no_error : Option Error
no_error = none

abbrev pub Table : Type 0
Table = List (CreatedRow Text) × List (AccessedRow Text)

abbrev pub pool : EventPool Text Table
pool = record {
  insert_created = λ row d. (none, (row ∷ d.0, d.1));
  insert_accessed = λ row d. (none, (d.0, row ∷ d.1));
}

abbrev request : CreateShortUrlRequest
request = record { url = text "u"; strategy = strategy_token }

chosen : lookup (strategy_name handler request) handler.strategies ≡ some (λ url w. (ok made, w))
unfolding lookup strategy_name
chosen = refl

abbrev created : CreatedRow Text
created = record {
  code = text "c";
  original_url = text "u";
  url_hash = nullable_text [];
  strategy = strategy_name handler request;
  created_at = pos 5;
  client_ip = parse_ip some [];
  user_agent = nullable_text [];
}

named :
    unmarshal_created (text "1")
    ≡ ok (created_event (strategy_name handler request) (request_meta_from none) made)
unfolding strategy_name request_meta_from
named = refl

create-analytics_example :
    ((create_short_url handler none request service).0 ≡ reply (created_response handler made))
    × ((create_short_url handler none request service).1.publisher ≡ (text "t", text "1") ∷ [])
    × ((handle_message unmarshal_created (save_url_created some pool) (text "1") ([], [])).1
        ≡ (created ∷ [], []))
    × (((handle_message unmarshal_created (save_url_created some pool) (text "1") ([], [])).0
          ≡ acked)
        ↔ (no_error ≡ none))
unfolding request_meta_from
create-analytics_example =
    create-analytics handler some pool send (text "t") marshal_created unmarshal_created none
      request service (λ url w. (ok made, w)) made (text "1") ([], []) refl chosen refl refl named

abbrev accessed : AccessedRow Text
accessed = record {
  code = text "c";
  accessed_at = pos 9;
  client_ip = parse_ip some [];
  user_agent = nullable_text [];
  referrer = nullable_text [];
}

met :
    unmarshal_accessed (text "2") ≡ ok (accessed_event (text "c") (request_meta_from none) (pos 9))
unfolding request_meta_from
met = refl

redirect-analytics_example :
    ((redirect_to_url handler clock none (text "c") service).0
      ≡ reply (record { status = 301; location = text "u" }))
    × ((redirect_to_url handler clock none (text "c") service).1.publisher
        ≡ (text "t", text "2") ∷ [])
    × ((handle_message unmarshal_accessed (save_url_accessed some pool) (text "2") ([], [])).1
        ≡ ([], accessed ∷ []))
    × (((handle_message unmarshal_accessed (save_url_accessed some pool) (text "2") ([], [])).0
          ≡ acked)
        ↔ (no_error ≡ none))
unfolding request_meta_from
redirect-analytics_example =
    redirect-analytics handler some pool send (text "t") clock marshal_accessed unmarshal_accessed
      none (text "c") service made (text "2") ([], []) refl refl refl met
