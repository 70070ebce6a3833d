-- ===== src/Handlers/Laws.antt =====
-- The handlers of internal/handlers/url.go over a store of entities.
use mathlib.Core.Path.{subst}
use web_demo_go.Prelude.{
  not_found, failure, ◌≡◌, refl, sym, ap, ◌∙◌, ◌⊎◌, inl, inr, Option, none, some, ◌++◌, Text, text,
  Result, ok, err, arith, lookup, Text_eq,
}
use web_demo_go.Shortener.{ShortUrl, Sources, World, token_shorten}
use web_demo_go.Shortener.Laws.{token_shorten-Saved}
use web_demo_go.Store.Contract.{
  Rows, IsStore, Answers, answer_row, answer_missing, answer_failed, with_row_self,
}
use web_demo_go.Handlers.{
  CreateShortUrlRequest, CreateShortUrlResponse, RedirectResponse, RequestMeta, Reply, reply,
  http_error, UrlHandler, Service, strategy_name, finish_create, create_short_url, created_response,
  finish_redirect, redirect_to_url, request_meta_from,
}

-- What a redirect answers by what the store answers and the row of the code: an error 500 only where
-- the store reports a failure that is not `ErrNotFound`.
pub data RedirectAnswers (found : Result ShortUrl) (row : Option ShortUrl)
    (r : Reply RedirectResponse) : Type 0 where
  redirects :
      (v u : ShortUrl)
      → found ≡ ok v
      → row ≡ some u
      → r ≡ reply (record { status = 301; location = u.original_url })
      → RedirectAnswers found row r
  no_such_code :
      found ≡ err not_found
      → row ≡ none
      → r ≡ http_error 404 (text "short url not found")
      → RedirectAnswers found row r
  store_fails :
      (m : Text)
      → found ≡ err (failure m)
      → r ≡ http_error 500 (text "failed to get url")
      → RedirectAnswers found row r

module _ {S P : Type 0} (h : UrlHandler S P) {keep : ShortUrl → ShortUrl} {Valid : S → Type 0}
    {rows : S → Rows} (i : IsStore keep h.store Valid rows) (sources : Sources) where
  finish-Answers :
      (meta : RequestMeta) (code : Text) (r : Result ShortUrl) (row : Option ShortUrl) (w : World S)
      (p : P)
      → Answers keep r row
      → RedirectAnswers r row (finish_redirect h sources meta code r w p).0
  unfolding finish_redirect
  finish-Answers meta code _ _ w p answer_missing = no_such_code refl refl refl
  finish-Answers meta code _ _ w p (answer_row u) =
      redirects u (keep u) refl refl
        (ap (λ url. reply (record { status = 301; location = url })) (sym (i.kept.kept_url u)))
  finish-Answers meta code _ _ w p (answer_failed m row) = store_fails m refl refl

  -- Over a store that meets the contract and is in a valid state, whatever becomes of the
  -- publication: where the store finds the code a redirect answers 301 with the URL of the code's
  -- row, where the store answers `ErrNotFound` the code has no row and a redirect answers 404, and
  -- only where the store reports another failure it answers 500.
  pub redirect-answers :
      (ctx : Option RequestMeta) (code : Text) (s : Service S P)
      → Valid s.world.store
      → RedirectAnswers
          (h.store.get_by_code code s.world.store).0
          (rows s.world.store code)
          (redirect_to_url h sources ctx code s).0
  unfolding redirect_to_url
  redirect-answers ctx code s valid =
      finish-Answers (request_meta_from ctx) code (h.store.get_by_code code s.world.store).0
        (rows s.world.store code) _ s.publisher (i.get_answers code s.world.store valid)

  redirect_row :
      (found : Result ShortUrl) (r : Reply RedirectResponse) (row : Option ShortUrl) (u : ShortUrl)
      (url : Text)
      → RedirectAnswers found row r
      → row ≡ some u
      → u.original_url ≡ url
      → (r ≡ reply (record { status = 301; location = url }))
        ⊎ ((m : Text) × (found ≡ err (failure m)) × (r ≡ http_error 500 (text "failed to get url")))
  redirect_row found r row u url (redirects v w f e a) h o = inl (ground arith)
  redirect_row found r row u url (no_such_code f e a) h o = absurd (ground arith)
  redirect_row found r row u url (store_fails m f a) h o = inr (m, f, a)

  pub finish_create-ok :
      (name : Text) (meta : RequestMeta) (out : Result ShortUrl × World S) (p : P)
      (resp : CreateShortUrlResponse)
      → (finish_create h name meta out p).0 ≡ reply resp
      → (u : ShortUrl) × (out.0 ≡ ok u)
        × (resp ≡ created_response h u)
        × ((finish_create h name meta out p).1.world ≡ out.1)
  unfolding finish_create
  finish_create-ok name meta (ok u, w) p resp e = (u, refl, ground arith, refl)
  finish_create-ok name meta (err x, w) p resp e = absurd (ground arith)

  pub create-finish :
      (ctx : Option RequestMeta) (req : CreateShortUrlRequest) (s : Service S P)
      (shorten : Text → World S → Result ShortUrl × World S)
      → lookup (strategy_name h req) h.strategies ≡ some shorten
      → create_short_url h ctx req s
        ≡ finish_create h
            (strategy_name h req)
            (request_meta_from ctx)
            (shorten req.url s.world)
            s.publisher
  unfolding create_short_url
  create-finish ctx req s shorten e = rw (e, create_short_url)

  -- Over a store that meets the contract and is in a valid state, a URL that was shortened with the
  -- token strategy is found again: if the request succeeds and the code generated for it had no
  -- row, the short URL is the base URL, a slash and the code, and a redirect of the returned code
  -- answers 301 with the URL, or 500 where the store answers the lookup of this code with a failure
  -- that is not `ErrNotFound`.
  pub create-redirect :
      (ctx ctx' : Option RequestMeta) (req : CreateShortUrlRequest) (s : Service S P)
      (resp : CreateShortUrlResponse)
      → lookup (strategy_name h req) h.strategies ≡ some (token_shorten sources h.store)
      → Valid s.world.store
      → rows s.world.store (sources.generate s.world.generated) ≡ none
      → (create_short_url h ctx req s).0 ≡ reply resp
      → let s' = (create_short_url h ctx req s).1 in
        let r = (redirect_to_url h sources ctx' resp.code s').0 in
        (resp.short_url ≡ h.base_url ++ (text "/" ++ resp.code))
        × ((r ≡ reply (record { status = 301; location = req.url }))
            ⊎ ((m : Text) × ((h.store.get_by_code resp.code s'.world.store).0 ≡ err (failure m))
                × (r ≡ http_error 500 (text "failed to get url"))))
  unfolding created_response
  create-redirect ctx ctx' req s resp token valid unused done =
      let out = token_shorten sources h.store req.url s.world in
      let step = create-finish ctx req s (token_shorten sources h.store) token in
      let (u, shortened, response, world) =
        finish_create-ok (strategy_name h req) (request_meta_from ctx) out s.publisher resp
          (ap (λ x. x.0) (sym step) ∙ done) in
      let (code, original, hash, saved) =
        token_shorten-Saved i sources req.url s.world u valid unused shortened in
      let s' = (create_short_url h ctx req s).1 in
      let state : s'.world ≡ out.1 = ap (λ x. x.1.world) step ∙ world in
      let row : rows s'.world.store resp.code ≡ some (keep u) =
        ap (λ w. rows w.store resp.code) state
        ∙ ap (λ q. rows out.1.store q.code) response
        ∙ saved.added u.code
        ∙ with_row_self u.code (keep u) (rows s.world.store) in
      let valid' : Valid s'.world.store = subst (λ w. Valid w.store) (sym state) saved.valid in
      let answers = redirect-answers ctx' resp.code s' valid' in
      (
        ap (λ q. q.short_url) response
            ∙ ap (λ c. h.base_url ++ (text "/" ++ c)) (sym (ap (λ q. q.code) response)),
        redirect_row _ _ (rows s'.world.store resp.code) (keep u) req.url answers row
            (i.kept.kept_url u ∙ original),
      )
