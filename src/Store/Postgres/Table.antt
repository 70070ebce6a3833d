-- ===== src/Store/Postgres/Table.antt =====
-- The table `short_urls` behind internal/store/postgres.go, and the contract of Store/Contract.
use mathlib.Core.Path.{subst}
use web_demo_go.Prelude.{
  ok, err, sym, ap, ◌∙◌, inl, inr, ◌≡◌, ◌≢◌, ◌⊎◌, refl, Option, none, some, [], Text, Text_eq,
  text_eq, text_eq_iff, ℤ, Error, failure, not_found, panic, arith, if◌then◌else◌,
}
use web_demo_go.Shortener.{ShortUrl}
use web_demo_go.Store.Contract.{
  keeping-IsKept, IsStore, Answers, answer_row, answer_missing, answer_failed, with_row, keeping,
}
use web_demo_go.Store.Faults.{IsHonest}
use web_demo_go.Store.Postgres.{
  postgres_repository, find_code, save_row, find_hash, Row, Queried, one_row, no_rows, query_failed,
  Pool, nullable_string, row_of, scan, finish_query,
}

-- The answer to a selection by the primary key, by the row that has it.
pub data Selects : Option Row → Queried → Type 0 where
  selects_row : (r : Row) → Selects (some r) (one_row r)
  selects_none : Selects none no_rows
  selects_failed : (m : Text) (row : Option Row) → Selects row (query_failed (failure m))

-- The column of the time may keep less of it.
abbrev pub stored : (ℤ → ℤ) → Row → Row
stored store_time r = record r { created_at = store_time r.created_at }

abbrev pub with_stored : (ℤ → ℤ) → Row → (Text → Option Row) → Text → Option Row
with_stored store_time r find c = if text_eq r.code c then some (stored store_time r) else find c

-- What the statements do to the rows of a sound database, whose primary key is the code. Any
-- statement may fail, and one that inserts may then have taken effect or not.
pub record IsTable {D : Type 0} (pool : Pool D) (store_time : ℤ → ℤ) (Sound : D → Type 0)
    (find : D → Text → Option Row) : Type 0 where
  pub primary_key : (d : D) → Sound d → (c : Text) (r : Row) → find d c ≡ some r → r.code ≡ c
  pub insert_sound : (r : Row) (d : D) → Sound d → Sound (pool.insert_row r d).1
  pub insert_ok :
      (r : Row) (d : D)
      → Sound d
      → find d r.code ≡ none
      → (pool.insert_row r d).0 ≡ none
      → (c : Text) → find (pool.insert_row r d).1 c ≡ with_stored store_time r (find d) c
  pub insert_failed :
      (r : Row) (d : D)
      → Sound d
      → find d r.code ≡ none
      → (e : Error) → (pool.insert_row r d).0 ≡ some e
      → ((c : Text) → find (pool.insert_row r d).1 c ≡ find d c)
        ⊎ ((c : Text) → find (pool.insert_row r d).1 c ≡ with_stored store_time r (find d) c)
  pub insert_error : (r : Row) (d : D) → (pool.insert_row r d).0 ≢ some panic
  pub code_sound : (c : Text) (d : D) → Sound d → Sound (pool.select_code c d).1
  pub code_keeps :
      (c : Text) (d : D) → Sound d → (k : Text) → find (pool.select_code c d).1 k ≡ find d k
  pub code_selects : (c : Text) (d : D) → Sound d → Selects (find d c) (pool.select_code c d).0
  pub hash_sound : (h : Text) (d : D) → Sound d → Sound (pool.select_hash h d).1
  pub hash_keeps :
      (h : Text) (d : D) → Sound d → (k : Text) → find (pool.select_hash h d).1 k ≡ find d k
  pub hash_row :
      (h : Text) (d : D)
      → Sound d
      → (r : Row) → (pool.select_hash h d).0 ≡ one_row r
      → (find d r.code ≡ some r) × (r.url_hash ≡ some h)
  pub hash_none :
      (h : Text) (d : D)
      → Sound d
      → (pool.select_hash h d).0 ≡ no_rows
      → (c : Text) (r : Row) → find d c ≡ some r
      → r.url_hash ≢ some h
  pub hash_error : (h : Text) (d : D) → (pool.select_hash h d).0 ≢ query_failed not_found

-- A query whose answer is an error other than `ErrNotFound` has failed with this error.
finish_failed :
    (q : Queried) (e : Error) → finish_query q ≡ err e → e ≢ not_found → q ≡ query_failed e
unfolding finish_query
finish_failed (one_row r) e h other = absurd (ground arith)
finish_failed no_rows e h other = absurd (other (ground arith))
finish_failed (query_failed x) e h other = ground arith

pub find_code-fails :
    {D : Type 0} (pool : Pool D) (c : Text) (d : D) (m : Text)
    → (find_code pool c d).0 ≡ err (failure m)
    → (pool.select_code c d).0 ≡ query_failed (failure m)
unfolding find_code
find_code-fails pool c d m h = finish_failed (pool.select_code c d).0 (failure m) h (cc)

module _ {D : Type 0} {pool : Pool D} {store_time : ℤ → ℤ} {Sound : D → Type 0}
    {find : D → Text → Option Row} (i : IsTable pool store_time Sound find) (keep_time : ℤ → ℤ)
    (rounds : (t : ℤ) → keep_time (store_time t) ≡ keep_time t) where
  abbrev pub kept_row : Option Row → Option ShortUrl
  kept_row none = none
  kept_row (some r) = some (keeping keep_time (scan r))

  abbrev pub table_rows : D → Text → Option ShortUrl
  table_rows d c = kept_row (find d c)

  kept_stored :
      (u : ShortUrl) → keeping keep_time (scan (stored store_time (row_of u))) ≡ keeping keep_time u
  unfolding scan row_of nullable_string
  kept_stored u = ground (arith, text_eq_iff u.url_hash [], rounds u.created_at)

  kept_with_stored :
      (u : ShortUrl) (d : D) (c : Text)
      → kept_row (with_stored store_time (row_of u) (find d) c)
        ≡ with_row u.code (keeping keep_time u) (table_rows d) c
  unfolding row_of
  kept_with_stored u d c = ground (arith, kept_stored u)

  no_row : (row : Option Row) → kept_row row ≡ none → row ≡ none
  no_row none h = refl
  no_row (some r) h = absurd (ground arith)

  a_row :
      (row : Option Row) (u : ShortUrl)
      → kept_row row ≡ some u
      → (r : Row) × (row ≡ some r) × (keeping keep_time (scan r) ≡ u)
  a_row none u h = absurd (ground arith)
  a_row (some r) u h = (r, refl, ground arith)

  finish-Answers :
      (row : Option Row) (q : Queried)
      → Selects row q
      → Answers (keeping keep_time) (finish_query q) (kept_row row)
  unfolding finish_query
  finish-Answers _ _ (selects_row r) = answer_row (scan r)
  finish-Answers _ _ selects_none = answer_missing
  finish-Answers _ _ (selects_failed m row) = answer_failed m (kept_row row)

  found_row :
      (q : Queried) (u : ShortUrl)
      → finish_query q ≡ ok u
      → (r : Row) × (q ≡ one_row r) × (scan r ≡ u)
  unfolding finish_query
  found_row (one_row r) u h = (r, refl, ground arith)
  found_row no_rows u h = absurd (ground arith)
  found_row (query_failed e) u h = absurd (ground arith)

  not_found_row :
      (q : Queried) → q ≢ query_failed not_found → finish_query q ≡ err not_found → q ≡ no_rows
  unfolding finish_query
  not_found_row (one_row r) k h = absurd (ground arith)
  not_found_row no_rows k h = refl
  not_found_row (query_failed e) k h = absurd (ground arith)

  hash_of_scan : (r : Row) (h : Text) → r.url_hash ≡ some h → (scan r).url_hash ≡ h
  unfolding scan
  hash_of_scan r h e = ground arith

  hash_of_row : (r : Row) (h : Text) → h ≢ [] → (scan r).url_hash ≡ h → r.url_hash ≡ some h
  unfolding scan
  hash_of_row r h some_hash e = ground arith

  table_hash_answers :
      (h : Text) (d : D)
      → Sound d
      → (u : ShortUrl) → (find_hash pool h d).0 ≡ ok u
      → (table_rows d u.code ≡ some (keeping keep_time u)) × (u.url_hash ≡ h)
  unfolding find_hash
  table_hash_answers h d sound u e =
      let (r, one, scanned) = found_row (pool.select_hash h d).0 u e in
      let (at_code, tagged) = i.hash_row h d sound r one in
      subst (λ v. (table_rows d v.code ≡ some (keeping keep_time v)) × (v.url_hash ≡ h)) scanned
        (ap kept_row at_code, hash_of_scan r h tagged)

  table_hash_missing :
      (h : Text) (d : D)
      → Sound d
      → h ≢ []
      → (find_hash pool h d).0 ≡ err not_found
      → (c : Text) (u : ShortUrl) → table_rows d c ≡ some u
      → u.url_hash ≢ h
  unfolding find_hash
  table_hash_missing h d sound some_hash e c u row tagged =
      let (r, at_code, same) = a_row (find d c) u row in
      let nothing = not_found_row (pool.select_hash h d).0 (i.hash_error h d) e in
      i.hash_none h d sound nothing c r at_code
        (hash_of_row r h some_hash (ap (λ v. v.url_hash) same ∙ tagged))

  pub postgres-IsStore : IsStore (keeping keep_time) (postgres_repository pool) Sound table_rows
  unfolding save_row find_code find_hash
  postgres-IsStore = record {
    kept = keeping-IsKept keep_time;
    row_code = λ d sound c u row.
        let (r, at_code, same) = a_row (find d c) u row in
        ap (λ v. v.code) (sym same) ∙ i.primary_key d sound c r at_code;
    save_valid = λ u d sound unused. i.insert_sound (row_of u) d sound;
    save_ok = λ u d sound unused done c.
        ap kept_row (i.insert_ok (row_of u) d sound (no_row (find d u.code) unused) done c)
        ∙ kept_with_stored u d c;
    save_failed = λ u d sound unused e failed.
        elim (i.insert_failed (row_of u) d sound (no_row (find d u.code) unused) e failed) [
          | inl same ↦ inl (λ c. ap kept_row (same c))
          | inr added ↦ inr (λ c. ap kept_row (added c) ∙ kept_with_stored u d c)
        ];
    save_returns = λ u d sound unused. i.insert_error (row_of u) d;
    get_valid = i.code_sound;
    get_answers =
        λ c d sound. finish-Answers (find d c) (pool.select_code c d).0 (i.code_selects c d sound);
    get_keeps = λ c d sound k. ap kept_row (i.code_keeps c d sound k);
    hash_valid = i.hash_sound;
    hash_keeps = λ h d sound k. ap kept_row (i.hash_keeps h d sound k);
    hash_missing = table_hash_missing;
    hash_answers = table_hash_answers;
  }

  -- Over a sound table, of which any statement may fail, `PostgresStore` meets the contract of a
  -- store, up to a rounding of times that forgets what the column forgets, and its errors are those
  -- of its statements: a `Save` under a code that has no row stores the entity or reports the error
  -- of the insert, and the two lookups answer with a row, with `ErrNotFound` only where there is
  -- none, or with the error of a query that has failed.
  pub postgres-IsHonest :
      IsHonest
        (postgres_repository pool)
        Sound
        (keeping keep_time)
        table_rows
        (λ u d e. (pool.insert_row (row_of u) d).0 ≡ some e)
        (λ c d m. (pool.select_code c d).0 ≡ query_failed (failure m))
        (λ h d e. (pool.select_hash h d).0 ≡ query_failed e)
  unfolding save_row find_code find_hash
  postgres-IsHonest = record {
    contract = postgres-IsStore;
    save_fails = λ u d sound e h. h;
    code_fails = λ c d sound m h. find_code-fails pool c d m h;
    hash_fails = λ h d sound e failed other. finish_failed (pool.select_hash h d).0 e failed other;
  }
