-- ===== src/Handlers/Dedup.antt =====
-- Two requests of internal/handlers/url.go for one page, with the hash strategy.

use web_demo_go.Prelude.{
  ◌≡◌, ◌++◌, text, ◌≢◌, sym, ap, ◌∙◌, Option, none, some, [], Text, Text_eq, lookup, Result, ok,
}
use web_demo_go.Shortener.{ShortUrl, Sources, World, hash_shorten}
use web_demo_go.Shortener.UrlHash.{UrlLib, normalize_url, hash_url}
use web_demo_go.Shortener.Dedup.{UniqueHash, hash_shorten-dedup}
use web_demo_go.Store.Contract.{Rows, IsStore}
use web_demo_go.Handlers.{
  CreateShortUrlRequest, CreateShortUrlResponse, RequestMeta, reply, UrlHandler, Service,
  strategy_name, create_short_url, created_response, request_meta_from,
}
use web_demo_go.Handlers.Laws.{finish_create-ok, create-finish}

module _ {S P : Type 0} (h : UrlHandler S P) {keep : ShortUrl → ShortUrl} {Valid : S → Type 0}
    {rows : S → Rows} (i : IsStore keep h.store Valid rows) (sources : Sources) where
  -- A request that is answered, by what the strategy returned.
  record Answered (shorten : Text → World S → Result ShortUrl × World S) (ctx : Option RequestMeta)
      (req : CreateShortUrlRequest) (s : Service S P) (resp : CreateShortUrlResponse) : Type 0 where
    made : ShortUrl
    result : (shorten req.url s.world).0 ≡ ok made
    response : resp ≡ created_response h made
    world : (create_short_url h ctx req s).1.world ≡ (shorten req.url s.world).1

  answered :
      (shorten : Text → World S → Result ShortUrl × World S) (ctx : Option RequestMeta)
      (req : CreateShortUrlRequest) (s : Service S P) (resp : CreateShortUrlResponse)
      → lookup (strategy_name h req) h.strategies ≡ some shorten
      → (create_short_url h ctx req s).0 ≡ reply resp
      → Answered shorten ctx req s resp
  answered shorten ctx req s resp chosen done =
      let step = create-finish h i sources ctx req s shorten chosen in
      let (u, result, response, world) =
        finish_create-ok h i sources (strategy_name h req) (request_meta_from ctx)
          (shorten req.url s.world) s.publisher resp (ap (λ x. x.0) (sym step) ∙ done) in
      record {
        made = u;
        result = result;
        response = response;
        world = ap (λ x. x.1.world) step ∙ world;
      }

  module _ {O : Type 0} (lib : UrlLib O) (some_hash : (t : Text) → hash_url lib t ≢ []) where
    abbrev Hashing : CreateShortUrlRequest → Type 0
    Hashing req =
        lookup (strategy_name h req) h.strategies ≡ some (hash_shorten lib sources h.store)

    -- Over a store that meets the contract and is in a valid state, with unique hashes, no row under
    -- the next code and a hash that is never empty, two requests with the hash strategy, one after
    -- the other, for URLs that normalize to the same text: if both are answered they get the same
    -- code and the same short URL, and the second changes no row.
    pub create-dedup :
        (ctx ctx' : Option RequestMeta) (req req' : CreateShortUrlRequest) (t : Text)
        (s : Service S P) (resp resp' : CreateShortUrlResponse)
        → Hashing req
        → Hashing req'
        → normalize_url lib req.url ≡ ok t
        → normalize_url lib req'.url ≡ ok t
        → Valid s.world.store
        → UniqueHash (rows s.world.store)
        → rows s.world.store (sources.generate s.world.generated) ≡ none
        → (create_short_url h ctx req s).0 ≡ reply resp
        → (create_short_url h ctx' req' (create_short_url h ctx req s).1).0 ≡ reply resp'
        → let s1 = (create_short_url h ctx req s).1 in
          let s2 = (create_short_url h ctx' req' s1).1 in
          (resp'.code ≡ resp.code)
          × (resp'.short_url ≡ resp.short_url)
          × ((c : Text) → rows s2.world.store c ≡ rows s1.world.store c)
    unfolding created_response
    create-dedup ctx ctx' req req' t s resp resp' hashing hashing' norm norm' valid unique unused
          first second =
        let shorten = hash_shorten lib sources h.store in
        let s1 = (create_short_url h ctx req s).1 in
        let a = answered shorten ctx req s resp hashing first in
        let b = answered shorten ctx' req' s1 resp' hashing' second in
        let again = ap (λ w. (shorten req'.url w).0) (sym a.world) ∙ b.result in
        let (same, _, kept) =
          hash_shorten-dedup i sources lib some_hash req.url req'.url t s.world a.made b.made norm
            norm' valid unique unused a.result again in
        let code : b.made.code ≡ a.made.code =
          sym (i.kept.kept_code b.made) ∙ ap (λ u. u.code) same ∙ i.kept.kept_code a.made in
        (
          ap (λ r. r.code) b.response ∙ code ∙ sym (ap (λ r. r.code) a.response),
          ap (λ r. r.short_url) b.response
              ∙ ap (λ c. h.base_url ++ (text "/" ++ c)) code
              ∙ sym (ap (λ r. r.short_url) a.response),
          λ c.
              ap (λ w. rows w.store c) b.world
              ∙ ap (λ w. rows (shorten req'.url w).1.store c) a.world
              ∙ kept c
              ∙ ap (λ w. rows w.store c) (sym a.world),
        )
