-- ===== src/Tests/Stores.antt =====
-- A table as a list of rows, for internal/store/postgres.go, and a Redis that cannot be reached, for
-- internal/store/redis_cache.go.
use web_demo_go.Prelude.{
  ◌≡◌, refl, none, some, [], ◌∷◌, List, Text, text, text_eq, Text_eq, pos, Error, failure, ok, err,
  if◌then◌else◌,
}
use web_demo_go.Lru
use web_demo_go.Lru.{Lru}
use web_demo_go.Lru.Refines.{new-Represents}
use web_demo_go.Shortener.{ShortUrl}
use web_demo_go.Store.Memory.{MemoryStore, new_memory_store, memory_repository}
use web_demo_go.Store.Cached.{save, get_by_code}
use web_demo_go.Store.Postgres.{
  Row, Queried, one_row, no_rows, query_failed, Pool, row_of, scan, find_code, postgres_repository,
}
use web_demo_go.Store.Postgres.Laws.{save-taken}
use web_demo_go.Store.Redis.{Client}
use web_demo_go.Store.Redis.Cache.{RedisCached, save_through, get_code, get_hash}
use web_demo_go.Store.Redis.Laws.{outage-answers}

find_row : Text → List Row → Queried
find_row code [] = no_rows
find_row code (r ∷ rows) = if text_eq r.code code then one_row r else find_row code rows

abbrev table : Pool (List Row)
table = record {
  insert_row = λ r rows. elim (find_row r.code rows) [
    | one_row old ↦ (none, rows)
    | no_rows ↦ (none, r ∷ rows)
    | query_failed e ↦ (some e, rows)
  ];
  select_code = λ code rows. (find_row code rows, rows);
  select_hash = λ hash rows. (no_rows, rows);
}

abbrev first : ShortUrl
first = record {
  code = text "c";
  original_url = text "http://a";
  url_hash = [];
  created_at = pos 1;
}

abbrev clash : ShortUrl
clash = record {
  code = text "c";
  original_url = text "http://b";
  url_hash = text "h";
  created_at = pos 2;
}

abbrev rows : List Row
rows = row_of first ∷ []

abbrev cache : Lru Text ShortUrl
cache = Lru.new [] first (pos 2)

skipped : table.insert_row (row_of clash) rows ≡ (none, rows)
unfolding find_row text_eq row_of
skipped = refl

selected : table.select_code (text "c") rows ≡ (one_row (row_of first), rows)
unfolding find_row text_eq row_of
selected = refl

save-taken_example :
    ((save (postgres_repository table) clash (record { store = rows; cache = cache })).0 ≡ none)
    × ((save (postgres_repository table) clash (record { store = rows; cache = cache })).1.store
        ≡ rows)
    × ((find_code table
          (text "c")
          (save
            (postgres_repository table)
            clash
            (record { store = rows; cache = cache })).1.store).0
        ≡ ok (scan (row_of first)))
    × ((get_by_code
          (postgres_repository table)
          (text "c")
          (save (postgres_repository table) clash (record { store = rows; cache = cache })).1).0
        ≡ ok clash)
save-taken_example =
    save-taken table clash (row_of first) rows cache [] (new-Represents [] first (pos 2)) skipped
      selected

abbrev refused : Error
refused = failure (text "connection refused")

abbrev unreachable : Client (Unit {0})
unreachable = record {
  hget = λ k f r. (err refused, r);
  hget_all = λ k r. (err refused, r);
  exec = λ commands r. (some refused, r);
}

abbrev behind : RedisCached MemoryStore (Unit {0})
behind = record { store = new_memory_store; redis = tt }

outage-answers_example :
    ((save_through memory_repository unreachable (pos 60) clash behind).0
      ≡ (memory_repository.save clash behind.store).0)
    × ((save_through memory_repository unreachable (pos 60) clash behind).1.store
        ≡ (memory_repository.save clash behind.store).1)
    × ((get_code memory_repository unreachable (pos 60) (text "c") behind).0
        ≡ (memory_repository.get_by_code (text "c") behind.store).0)
    × ((get_code memory_repository unreachable (pos 60) (text "c") behind).1.store
        ≡ (memory_repository.get_by_code (text "c") behind.store).1)
    × ((get_hash memory_repository unreachable (pos 60) (text "c") behind).0
        ≡ (memory_repository.get_by_hash (text "c") behind.store).0)
    × ((get_hash memory_repository unreachable (pos 60) (text "c") behind).1.store
        ≡ (memory_repository.get_by_hash (text "c") behind.store).1)
outage-answers_example =
    outage-answers memory_repository unreachable (pos 60) refused (λ k r. refl) (λ k f r. refl)
      clash (text "c") behind
