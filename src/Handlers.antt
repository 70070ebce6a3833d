-- ===== src/Handlers.antt =====
-- internal/handlers: types.go and url.go. A failed publication is only logged, so it changes
-- nothing but the publisher. The request metadata stands for the value in the context.
pub mod Routes
pub mod Laws
pub mod Dedup
use web_demo_go.Prelude.{
  Option, none, some, ◌++◌, [], ℕ, ◌+◌, Text, text, text_eq, Text_eq, Map, lookup, ℤ, Error,
  is_not_found, Result, ok, err, if◌then◌else◌,
}
use web_demo_go.Shortener.{ShortUrl, Repository, Sources, World}

abbrev pub strategy_token : Text
strategy_token = text "token"

abbrev pub strategy_hash : Text
strategy_hash = text "hash"

pub record CreateShortUrlRequest : Type 0 where
  pub url : Text
  pub strategy : Text

pub record CreateShortUrlResponse : Type 0 where
  -- the header `Location`
  pub location : Text
  pub code : Text
  pub short_url : Text
  pub original_url : Text

pub record RedirectResponse : Type 0 where
  pub status : ℕ
  -- the header `Location`
  pub location : Text

pub record RequestMeta : Type 0 where
  pub client_ip : Text
  pub user_agent : Text
  pub referrer : Text

abbrev pub no_meta : RequestMeta
no_meta = record { client_ip = []; user_agent = []; referrer = [] }

-- `RequestMetaFromContext`: the value of the context, or empty metadata.
unfoldable pub request_meta_from : Option RequestMeta → RequestMeta
request_meta_from none = no_meta
request_meta_from (some meta) = meta

-- analytics.URLCreatedEvent
pub record UrlCreatedEvent : Type 0 where
  pub code : Text
  pub original_url : Text
  pub url_hash : Text
  pub strategy : Text
  pub created_at : ℤ
  pub client_ip : Text
  pub user_agent : Text

-- analytics.URLAccessedEvent
pub record UrlAccessedEvent : Type 0 where
  pub code : Text
  pub accessed_at : ℤ
  pub client_ip : Text
  pub user_agent : Text
  pub referrer : Text

-- A response, or an error of huma with its status and message.
pub data Reply (A : Type 0) : Type 0 where
  reply : A → Reply A
  http_error : ℕ → Text → Reply A

-- `URLHandler`, over the state `S` of the store and the state `P` of the publisher.
pub record UrlHandler (S P : Type 0) : Type 0 where
  pub strategies : Map Text (Text → World S → Result ShortUrl × World S)
  pub store : Repository S
  pub base_url : Text
  pub default_strategy : Text
  pub publish_created : UrlCreatedEvent → P → Option Error × P
  pub publish_accessed : UrlAccessedEvent → P → Option Error × P

pub record Service (S P : Type 0) : Type 0 where
  pub world : World S
  pub publisher : P

unfoldable pub created_event : Text → RequestMeta → ShortUrl → UrlCreatedEvent
created_event name meta u = record {
  code = u.code;
  original_url = u.original_url;
  url_hash = u.url_hash;
  strategy = name;
  created_at = u.created_at;
  client_ip = meta.client_ip;
  user_agent = meta.user_agent;
}

unfoldable pub accessed_event : Text → RequestMeta → ℤ → UrlAccessedEvent
accessed_event code meta now = record {
  code = code;
  accessed_at = now;
  client_ip = meta.client_ip;
  user_agent = meta.user_agent;
  referrer = meta.referrer;
}

unfoldable pub new_url_handler :
    {S P : Type 0}
    → Repository S
    → Text
    → Map Text (Text → World S → Result ShortUrl × World S)
    → (UrlCreatedEvent → P → Option Error × P)
    → (UrlAccessedEvent → P → Option Error × P)
    → UrlHandler S P
new_url_handler store base_url strategies publish_created publish_accessed = record {
  strategies = strategies;
  store = store;
  base_url = base_url;
  default_strategy = strategy_token;
  publish_created = publish_created;
  publish_accessed = publish_accessed;
}

module _ {S P : Type 0} (h : UrlHandler S P) where
  -- An empty name of the request stands for the default strategy.
  unfoldable pub strategy_name : CreateShortUrlRequest → Text
  unfolding text_eq
  strategy_name req = if text_eq req.strategy [] then h.default_strategy else req.strategy

  unfoldable pub created_response : ShortUrl → CreateShortUrlResponse
  created_response u =
      let full = h.base_url ++ (text "/" ++ u.code) in
      record { location = full; code = u.code; short_url = full; original_url = u.original_url }

  -- What follows `strategy.Shorten`.
  unfoldable pub finish_create :
      Text
      → RequestMeta
      → Result ShortUrl × World S
      → P
      → Reply CreateShortUrlResponse × Service S P
  unfolding created_event created_response
  finish_create name meta (err e, w) p =
      (http_error 500 (text "failed to save url"), record { world = w; publisher = p })
  finish_create name meta (ok u, w) p =
      let (failed, p') = h.publish_created (created_event name meta u) p in
      (reply (created_response u), record { world = w; publisher = p' })

  -- `CreateShortURL`
  unfoldable pub create_short_url :
      Option RequestMeta
      → CreateShortUrlRequest
      → Service S P
      → Reply CreateShortUrlResponse × Service S P
  unfolding strategy_name finish_create request_meta_from
  create_short_url ctx req s = elim (lookup (strategy_name req) h.strategies) [
    | none ↦ (http_error 400 (text "invalid strategy: must be 'token' or 'hash'"), s)
    | some shorten ↦
        finish_create (strategy_name req) (request_meta_from ctx) (shorten req.url s.world)
          s.publisher
  ]

  -- What follows `GetByCode`.
  unfoldable pub finish_redirect :
      Sources
      → RequestMeta
      → Text
      → Result ShortUrl
      → World S
      → P
      → Reply RedirectResponse × Service S P
  unfolding accessed_event
  finish_redirect sources meta code (err e) w p = (
    if is_not_found e
        then http_error 404 (text "short url not found")
        else http_error 500 (text "failed to get url"),
    record { world = w; publisher = p },
  )
  finish_redirect sources meta code (ok u) w p =
      let now = sources.now w.ticks in
      let (failed, p') = h.publish_accessed (accessed_event code meta now) p in
      (
        reply (record { status = 301; location = u.original_url }),
        record { world = record w { ticks = w.ticks + 1 }; publisher = p' },
      )

  -- `RedirectToURL`
  unfoldable pub redirect_to_url :
      Sources → Option RequestMeta → Text → Service S P → Reply RedirectResponse × Service S P
  unfolding finish_redirect request_meta_from
  redirect_to_url sources ctx code s =
      let (r, st) = h.store.get_by_code code s.world.store in
      finish_redirect sources (request_meta_from ctx) code r (record (s.world) { store = st })
        s.publisher
