-- ===== src/Store/Redis/Reads.antt =====
-- The writes and reads of internal/store/redis_cache.go against the hashes of the server.

use web_demo_go.Prelude.{
  ◌≡◌, ◌≢◌, sym, ap, ◌∙◌, refl, some, List, [], ◌∷◌, ◌++◌, Text, Map, Text_eq, text_eq, not, Bool,
  true, false, ℤ, pos, ltb_ℤ, Result, ok, err, arith, if◌then◌else◌,
}
use web_demo_go.Shortener.{ShortUrl, Repository}
use web_demo_go.Store.Contract.{Rows}
use web_demo_go.Store.Redis.{
  Command, hset, expire, Client, url_prefix, hash_key, entity_fields, read_entity, index_command,
  finish_entity,
}
use web_demo_go.Store.Redis.Cache.{cache_commands, cache_url, get_from_cache}
use web_demo_go.Store.Redis.Server.{Hashes, IsServer}
use web_demo_go.Store.Redis.Holds.{
  Holds, Holds-Fades, sound_entity, sound_index, sound_expire, AllSound, Runs-Holds,
}

finished :
    (out : Result (Map Text Text)) (u : ShortUrl)
    → finish_entity out ≡ ok u
    → (fields : Map Text Text) × (out ≡ ok fields) × (fields ≢ []) × (read_entity fields ≡ u)
unfolding finish_entity
finished (err e) u h = absurd (ground arith)
finished (ok []) u h = absurd (ground arith)
finished (ok (first ∷ fields)) u h = (first ∷ fields, refl, (λ e. cc), ground arith)

module _ (keep : ShortUrl → ShortUrl) (rows : Rows)
    (back : (u : ShortUrl) → keep (read_entity (entity_fields u)) ≡ keep u)
    (kept_hash : (u : ShortUrl) → (keep u).url_hash ≡ u.url_hash) where
  AllSound-append :
      (xs ys : List Command)
      → AllSound keep rows xs
      → AllSound keep rows ys
      → AllSound keep rows (xs ++ ys)
  AllSound-append [] ys a b = b
  AllSound-append (x ∷ xs) ys a b = (a.0, AllSound-append xs ys a.1 b)

  expire-AllSound :
      (test : Bool) (key : Text) (ttl : ℤ)
      → AllSound keep rows (if test then expire key ttl ∷ [] else [])
  expire-AllSound true key ttl = (sound_expire key ttl, tt)
  expire-AllSound false key ttl = tt

  index-AllSound :
      (test : Bool) (u : ShortUrl)
      → rows u.code ≡ some (keep u)
      → AllSound keep rows (if test then hset hash_key ((u.url_hash, u.code) ∷ []) ∷ [] else [])
  index-AllSound true u row = (sound_index u.url_hash (keep u) u.code row (kept_hash u), tt)
  index-AllSound false u row = tt

  cache_commands-AllSound :
      (ttl : ℤ) (u : ShortUrl)
      → rows u.code ≡ some (keep u)
      → AllSound keep rows (cache_commands ttl u)
  unfolding cache_commands index_command
  cache_commands-AllSound ttl u row = (
    sound_entity u (row ∙ ap some (sym (back u))),
    AllSound-append (if ltb_ℤ (pos 0) ttl then expire (url_prefix ++ u.code) ttl ∷ [] else [])
        (index_command u) (expire-AllSound (ltb_ℤ (pos 0) ttl) (url_prefix ++ u.code) ttl)
        (index-AllSound (not (text_eq u.url_hash [])) u row),
  )

  module _ {S R : Type 0} (repo : Repository S) {client : Client R} {hashes : R → Hashes}
      (server : IsServer client hashes) (ttl : ℤ) where
    -- Writing a row into the cache.
    pub cache_url-Holds :
        (u : ShortUrl) (r : R)
        → rows u.code ≡ some (keep u)
        → Holds keep rows (hashes r)
        → Holds keep rows (hashes (cache_url repo client ttl u r))
    unfolding cache_url
    cache_url-Holds u r row k =
        Runs-Holds keep rows (cache_commands ttl u) (hashes r) _ (cache_commands-AllSound ttl u row)
          k (server.exec_runs (cache_commands ttl u) r)

    -- What a read of the cache finds is a row.
    pub get_from_cache-Holds :
        (code : Text) (r : R)
        → Holds keep rows (hashes r)
        → Holds keep rows (hashes (get_from_cache repo client ttl code r).1)
          × ((u : ShortUrl)
              → (get_from_cache repo client ttl code r).0 ≡ ok u
              → rows code ≡ some (keep u))
    unfolding get_from_cache
    get_from_cache-Holds code r k =
        let key = url_prefix ++ code in
        let k' = Holds-Fades keep rows (hashes r) _ (server.all_fades key r) k in
        (
          k',
          λ u h.
              let (fields, read, some_fields, same) = finished (client.hget_all key r).0 u h in
              let held = server.all_reads key r fields read in
              k'.entities code (λ e. some_fields (held ∙ e))
              ∙ ap (λ f. some (keep (read_entity f))) (sym held)
              ∙ ap (λ v. some (keep v)) same,
        )
