-- ===== src/Analytics/Pipeline.antt =====
-- The way of an event from internal/handlers/url.go through internal/messaging to a row of
-- internal/analytics/store/postgres.go.
use web_demo_go.Prelude.{
  ◌≡◌, ◌↔◌, ap, ◌∙◌, Option, none, some, Text, Text_eq, lookup, Error, Result, ok, arith,
}
use web_demo_go.Shortener.{ShortUrl, Sources, World}
use web_demo_go.Messaging.Consuming.{publish-handle}
use web_demo_go.Messaging.{new_publish_func, handle_message, acked}
use web_demo_go.Handlers.{
  CreateShortUrlRequest, RequestMeta, reply, UrlHandler, Service, UrlCreatedEvent, UrlAccessedEvent,
  created_event, accessed_event, strategy_name, request_meta_from, create_short_url, finish_create,
  redirect_to_url, finish_redirect, created_response,
}
use web_demo_go.Analytics.{
  EventPool, created_row, accessed_row, save_url_created, save_url_accessed, nullable_text,
  parse_ip,
}

module _ {S P I D : Type 0} (h : UrlHandler S P) (net_parse_ip : Text → Option I)
    (pool : EventPool I D) (send : Text → Text → P → Option Error × P) (topic : Text) where
  created_published :
      (ctx : Option RequestMeta) (req : CreateShortUrlRequest) (s : Service S P)
      (shorten : Text → World S → Result ShortUrl × World S) (u : ShortUrl)
      → lookup (strategy_name h req) h.strategies ≡ some shorten
      → (shorten req.url s.world).0 ≡ ok u
      → (create_short_url h ctx req s).1.publisher
        ≡ (h.publish_created
            (created_event (strategy_name h req) (request_meta_from ctx) u)
            s.publisher).1
  unfolding create_short_url finish_create
  created_published ctx req s shorten u chosen made = ground arith

  accessed_published :
      (sources : Sources) (ctx : Option RequestMeta) (code : Text) (s : Service S P) (u : ShortUrl)
      → (h.store.get_by_code code s.world.store).0 ≡ ok u
      → (redirect_to_url h sources ctx code s).1.publisher
        ≡ (h.publish_accessed
            (accessed_event code (request_meta_from ctx) (sources.now s.world.ticks))
            s.publisher).1
  unfolding redirect_to_url finish_redirect
  accessed_published sources ctx code s u found = ground arith

  -- Where a handler publishes by the encoder and the broker, a URL is shortened, and the event
  -- encodes to a payload that decodes to the event, the request is answered whatever becomes of the
  -- publication, exactly this payload is sent to the topic, and a consumer that handles it inserts
  -- one row, with the code, the URL, its hash or null, the strategy, the time, and the client's
  -- address and agent or null, and acknowledges it exactly if the insert succeeds.
  pub create-analytics :
      (marshal : UrlCreatedEvent → Result Text) (unmarshal : Text → Result UrlCreatedEvent)
      (ctx : Option RequestMeta) (req : CreateShortUrlRequest) (s : Service S P)
      (shorten : Text → World S → Result ShortUrl × World S) (u : ShortUrl) (payload : Text) (d : D)
      → h.publish_created ≡ new_publish_func marshal send topic
      → lookup (strategy_name h req) h.strategies ≡ some shorten
      → (shorten req.url s.world).0 ≡ ok u
      → let meta = request_meta_from ctx in
        let event = created_event (strategy_name h req) meta u in
        marshal event ≡ ok payload
        → unmarshal payload ≡ ok event
        → let out = create_short_url h ctx req s in
          let done = handle_message unmarshal (save_url_created net_parse_ip pool) payload d in
          let inserted =
            pool.insert_created
              (record {
                code = u.code;
                original_url = u.original_url;
                url_hash = nullable_text u.url_hash;
                strategy = strategy_name h req;
                created_at = u.created_at;
                client_ip = parse_ip net_parse_ip meta.client_ip;
                user_agent = nullable_text meta.user_agent;
              })
              d in
          (out.0 ≡ reply (created_response h u))
          × (out.1.publisher ≡ (send topic payload s.publisher).1)
          × (done.1 ≡ inserted.1)
          × ((done.0 ≡ acked) ↔ (inserted.0 ≡ none))
  unfolding create_short_url finish_create save_url_created created_row created_event
  create-analytics marshal unmarshal ctx req s shorten u payload d wired chosen made coded decoded =
      let event = created_event (strategy_name h req) (request_meta_from ctx) u in
      let (sent, row, mark) =
        publish-handle unmarshal (save_url_created net_parse_ip pool) marshal send topic payload
          event s.publisher d coded decoded in
      (
        ground arith,
        created_published ctx req s shorten u chosen made
            ∙ ap (λ f. (f event s.publisher).1) wired
            ∙ ap (λ x. x.1) sent,
        row,
        mark,
      )

  -- The same for a redirect of a code that the store finds: the row has the code, the time of the
  -- redirect, and the client's address, agent and referrer or null.
  pub redirect-analytics :
      (sources : Sources) (marshal : UrlAccessedEvent → Result Text)
      (unmarshal : Text → Result UrlAccessedEvent) (ctx : Option RequestMeta) (code : Text)
      (s : Service S P) (u : ShortUrl) (payload : Text) (d : D)
      → h.publish_accessed ≡ new_publish_func marshal send topic
      → (h.store.get_by_code code s.world.store).0 ≡ ok u
      → let meta = request_meta_from ctx in
        let now = sources.now s.world.ticks in
        let event = accessed_event code meta now in
        marshal event ≡ ok payload
        → unmarshal payload ≡ ok event
        → let out = redirect_to_url h sources ctx code s in
          let done = handle_message unmarshal (save_url_accessed net_parse_ip pool) payload d in
          let inserted =
            pool.insert_accessed
              (record {
                code = code;
                accessed_at = now;
                client_ip = parse_ip net_parse_ip meta.client_ip;
                user_agent = nullable_text meta.user_agent;
                referrer = nullable_text meta.referrer;
              })
              d in
          (out.0 ≡ reply (record { status = 301; location = u.original_url }))
          × (out.1.publisher ≡ (send topic payload s.publisher).1)
          × (done.1 ≡ inserted.1)
          × ((done.0 ≡ acked) ↔ (inserted.0 ≡ none))
  unfolding redirect_to_url finish_redirect save_url_accessed accessed_row accessed_event
  redirect-analytics sources marshal unmarshal ctx code s u payload d wired found coded decoded =
      let event = accessed_event code (request_meta_from ctx) (sources.now s.world.ticks) in
      let (sent, row, mark) =
        publish-handle unmarshal (save_url_accessed net_parse_ip pool) marshal send topic payload
          event s.publisher d coded decoded in
      (
        ground arith,
        accessed_published sources ctx code s u found
            ∙ ap (λ f. (f event s.publisher).1) wired
            ∙ ap (λ x. x.1) sent,
        row,
        mark,
      )
