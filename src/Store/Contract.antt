-- ===== src/Store/Contract.antt =====
-- What a client of `shortener.Repository` relies on, stated by the entity that each code has.
use web_demo_go.Prelude.{
  ap, ℤ, ◌∙◌, text_eq_iff, arith, [], ◌≡◌, refl, ◌⊎◌, Option, none, some, Text, text_eq, Error,
  not_found, failure, panic, ◌≢◌, Result, ok, err, if◌then◌else◌,
}
use web_demo_go.Shortener.{ShortUrl, Repository}

-- The entity of each code.
abbrev pub Rows : Type 0
Rows = Text → Option ShortUrl

-- The rows with one more.
abbrev pub with_row : Text → ShortUrl → Rows → Rows
with_row code u rows c = if text_eq code c then some u else rows c

pub with_row_self : (c : Text) (u : ShortUrl) (rows : Rows) → with_row c u rows c ≡ some u
with_row_self c u rows = ground (arith, text_eq_iff c c)

-- Each row of the first is one of the second.
abbrev pub Grows : Rows → Rows → Type 0
Grows rows rows' = (c : Text) (v : ShortUrl) → rows c ≡ some v → rows' c ≡ some v

pub same-Grows : (rows rows' : Rows) → ((c : Text) → rows' c ≡ rows c) → Grows rows rows'
same-Grows rows rows' same c v h = same c ∙ h

pub with_row-Grows :
    (code : Text) (u : ShortUrl) (rows rows' : Rows)
    → rows code ≡ none
    → ((c : Text) → rows' c ≡ with_row code u rows c)
    → Grows rows rows'
with_row-Grows code u rows rows' unused added c v h = ground (arith, text_eq_iff code c, added c)

-- `keep` is what a store keeps of an entity: a database may round its time. Only the time may
-- change.
pub record IsKept (keep : ShortUrl → ShortUrl) : Type 0 where
  pub kept_code : (u : ShortUrl) → (keep u).code ≡ u.code
  pub kept_url : (u : ShortUrl) → (keep u).original_url ≡ u.original_url
  pub kept_hash : (u : ShortUrl) → (keep u).url_hash ≡ u.url_hash

module _ (keep : ShortUrl → ShortUrl) where
  -- A lookup answers with an entity of which the store keeps the row, with `ErrNotFound` where there
  -- is no row, or with a failure that is neither `ErrNotFound` nor a panic.
  pub data Answers : Result ShortUrl → Option ShortUrl → Type 0 where
    answer_row : (u : ShortUrl) → Answers (ok u) (some (keep u))
    answer_missing : Answers (err not_found) none
    answer_failed : (m : Text) (row : Option ShortUrl) → Answers (err (failure m)) row

  -- `repo` keeps the valid states, and its operations act on the rows as their names say. A saved
  -- entity needs a code that has no row yet. A `Save` that fails may have stored it nevertheless.
  pub record IsStore {S : Type 0} (repo : Repository S) (Valid : S → Type 0) (rows : S → Rows)
      : Type 0 where
    pub kept : IsKept keep
    pub row_code : (s : S) → Valid s → (c : Text) (u : ShortUrl) → rows s c ≡ some u → u.code ≡ c
    pub save_valid :
        (u : ShortUrl) (s : S) → Valid s → rows s u.code ≡ none → Valid (repo.save u s).1
    pub save_ok :
        (u : ShortUrl) (s : S)
        → Valid s
        → rows s u.code ≡ none
        → (repo.save u s).0 ≡ none
        → (c : Text) → rows (repo.save u s).1 c ≡ with_row u.code (keep u) (rows s) c
    pub save_failed :
        (u : ShortUrl) (s : S)
        → Valid s
        → rows s u.code ≡ none
        → (e : Error) → (repo.save u s).0 ≡ some e
        → ((c : Text) → rows (repo.save u s).1 c ≡ rows s c)
          ⊎ ((c : Text) → rows (repo.save u s).1 c ≡ with_row u.code (keep u) (rows s) c)
    pub save_returns :
        (u : ShortUrl) (s : S) → Valid s → rows s u.code ≡ none → (repo.save u s).0 ≢ some panic
    pub get_valid : (c : Text) (s : S) → Valid s → Valid (repo.get_by_code c s).1
    pub get_answers : (c : Text) (s : S) → Valid s → Answers (repo.get_by_code c s).0 (rows s c)
    pub get_keeps :
        (c : Text) (s : S) → Valid s → (d : Text) → rows (repo.get_by_code c s).1 d ≡ rows s d
    pub hash_valid : (h : Text) (s : S) → Valid s → Valid (repo.get_by_hash h s).1
    pub hash_keeps :
        (h : Text) (s : S) → Valid s → (d : Text) → rows (repo.get_by_hash h s).1 d ≡ rows s d
    -- An entity that is found by its hash is that of the row of its code and has that hash.
    -- `ErrNotFound` is the answer only where no row has the hash.
    pub hash_missing :
        (h : Text) (s : S)
        → Valid s
        → h ≢ []
        → (repo.get_by_hash h s).0 ≡ err not_found
        → (c : Text) (u : ShortUrl) → rows s c ≡ some u
        → u.url_hash ≢ h
    pub hash_answers :
        (h : Text) (s : S)
        → Valid s
        → (u : ShortUrl) → (repo.get_by_hash h s).0 ≡ ok u
        → (rows s u.code ≡ some (keep u)) × (u.url_hash ≡ h)

pub answered_row :
    {keep : ShortUrl → ShortUrl} (u : ShortUrl) (r : Result ShortUrl) (row : Option ShortUrl)
    → Answers keep r row
    → r ≡ ok u
    → row ≡ some (keep u)
answered_row {keep} u _ _ (answer_row v) e =
    let same : v ≡ u = ground arith in ap (λ w. some (keep w)) same
answered_row u _ _ answer_missing e = absurd (ground arith)
answered_row u _ _ (answer_failed m row) e = absurd (ground arith)

-- A store that keeps every entity as it is.
abbrev pub whole : ShortUrl → ShortUrl
whole u = u

pub whole-IsKept : IsKept whole
whole-IsKept = record { kept_code = λ u. refl; kept_url = λ u. refl; kept_hash = λ u. refl }

-- A store that keeps less of the time.
abbrev pub keeping : (ℤ → ℤ) → ShortUrl → ShortUrl
keeping keep_time u = record u { created_at = keep_time u.created_at }

pub keeping-IsKept : (keep_time : ℤ → ℤ) → IsKept (keeping keep_time)
keeping-IsKept keep_time = record {
  kept_code = λ u. refl;
  kept_url = λ u. refl;
  kept_hash = λ u. refl;
}
