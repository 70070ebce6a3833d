-- ===== src/Tests/Service.antt =====
-- The handlers of internal/handlers/url.go over the in-memory store behind the cache.
use web_demo_go.Lru.Nodes.{update}
use web_demo_go.Prelude.{
  Text, err, failure, ◌≡◌, refl, none, some, [], ◌∷◌, ◌++◌, ℕ, ◌+◌, pos, lookup, arith, text, ◌⊎◌,
  insert, text_eq, Text_eq,
}
use web_demo_go.Lru
use web_demo_go.Lru.{Lru}
use web_demo_go.Lru.Refines.{new-Represents}
use web_demo_go.Shortener.{ShortUrl, Repository, Sources, token_shorten}
use web_demo_go.Store.Memory.{save as save_memory, MemoryStore, new_memory_store, memory_repository}
use web_demo_go.Store.Memory.Laws.{urls_of, new-IsIndexed, memory-IsStore}
use web_demo_go.Store.Cached.{
  save as save_cached, get_by_code as get_cached, Cached, cached_repository,
}
use web_demo_go.Store.Cached.Laws.{CachedValid, cached-IsStore}
use web_demo_go.Handlers.{
  CreateShortUrlRequest, CreateShortUrlResponse, reply, http_error, UrlHandler, Service,
  strategy_token, strategy_name, create_short_url, redirect_to_url,
}
use web_demo_go.Handlers.Laws.{RedirectAnswers, redirect-answers, create-redirect}

abbrev one_code : Sources
one_code = record { generate = λ n. text "c"; now = λ n. pos n }

abbrev repo : Repository (Cached MemoryStore)
repo = cached_repository memory_repository

-- The publisher counts the events.
abbrev handler : UrlHandler (Cached MemoryStore) ℕ
handler = record {
  strategies = (strategy_token, token_shorten one_code repo) ∷ [];
  store = repo;
  base_url = text "http://h";
  default_strategy = strategy_token;
  publish_created = λ e n. (none, n + 1);
  publish_accessed = λ e n. (none, n + 1);
}

abbrev blank : ShortUrl
blank = record { code = []; original_url = []; url_hash = []; created_at = pos 0 }

abbrev started : Cached MemoryStore
started = record { store = new_memory_store; cache = Lru.new [] blank (pos 2) }

abbrev service : Service (Cached MemoryStore) ℕ
service = record { world = record { store = started; generated = 0; ticks = 0 }; publisher = 0 }

started_valid : CachedValid memory-IsStore started
unfolding lookup
started_valid = (
  new-IsIndexed,
  record {
    list = [];
    shown = new-Represents [] blank (pos 2);
    agree = λ k u h. absurd (ground arith);
  },
)

abbrev create : CreateShortUrlRequest
create = record { url = text "http://x"; strategy = [] }

abbrev created : CreateShortUrlResponse
created = record {
  location = text "http://h/c";
  code = text "c";
  short_url = text "http://h/c";
  original_url = text "http://x";
}

token_named :
    lookup (strategy_name handler create) handler.strategies ≡ some (token_shorten one_code repo)
unfolding lookup text_eq strategy_name
token_named = refl

code_unused : urls_of new_memory_store (text "c") ≡ none
unfolding lookup new_memory_store
code_unused = refl

create_done : (create_short_url handler none create service).0 ≡ reply created
unfolding create_short_url lookup token_shorten save_cached save_memory Lru.set Lru.new Lru.add_new
    Lru.make_room Lru.add_to_front update
create_done = refl

redirect-answers_example :
    RedirectAnswers
      (handler.store.get_by_code (text "c") service.world.store).0
      (urls_of new_memory_store (text "c"))
      (redirect_to_url handler one_code none (text "c") service).0
redirect-answers_example =
    redirect-answers handler (cached-IsStore memory-IsStore) one_code none (text "c") service
      started_valid

create-redirect_example :
    (text "http://h/c" ≡ text "http://h" ++ (text "/" ++ text "c"))
    × (((redirect_to_url handler one_code none
            (text "c")
            (create_short_url handler none create service).1).0
          ≡ reply (record { status = 301; location = text "http://x" }))
        ⊎ ((m : Text) × ((handler.store.get_by_code
                (text "c")
                (create_short_url handler none create service).1.world.store).0
              ≡ err (failure m))
            × ((redirect_to_url handler one_code none
                  (text "c")
                  (create_short_url handler none create service).1).0
                ≡ http_error 500 (text "failed to get url"))))
create-redirect_example =
    create-redirect handler (cached-IsStore memory-IsStore) one_code none none create service
      created token_named started_valid code_unused create_done

-- The run itself takes the first alternative, from the cache.
redirected :
    (redirect_to_url handler one_code none
      (text "c")
      (create_short_url handler none create service).1).0
    ≡ reply (record { status = 301; location = text "http://x" })
unfolding create_short_url lookup token_shorten save_cached save_memory Lru.set Lru.new Lru.add_new
    Lru.make_room Lru.add_to_front update redirect_to_url get_cached Lru.get insert
    Lru.move_to_front Lru.detach
redirected = refl
