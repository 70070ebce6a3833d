-- ===== src/Store/Cached/Overlap.antt =====
-- Calls of internal/store/cached.go that run at the same time. A call of the store or of the LRU
-- cache, which holds its mutex, is one step; between two of them a call can be overtaken.
pub mod Sound
pub mod Moves
pub mod Safe
use web_demo_go.Prelude.{
  ◌≡◌, ℕ, Option, none, some, Text, Text_eq, nat_eq, Error, panic, Result, ok, err, if◌then◌else◌,
}
use web_demo_go.Lru
use web_demo_go.Lru.{Lru}
use web_demo_go.Shortener.{ShortUrl, Repository}
use web_demo_go.Store.Cached.{Cached}

-- How far a call has come.
pub data Call : Type 0 where
  -- `Save`, before `r.store.Save` and before `r.cache.Set`
  saving : ShortUrl → Call
  caching : ShortUrl → Call
  saved : Option Error → Call
  -- `GetByCode`, before `r.cache.Get`, before `r.store.GetByCode` and before `r.cache.Set`
  getting : Text → Call
  asking : Text → Call
  keeping : Text → ShortUrl → Call
  got : Text → Result ShortUrl → Call

pub record Overlapping (S : Type 0) : Type 0 where
  pub state : Cached S
  pub calls : ℕ → Call

abbrev pub with_call : ℕ → Call → (ℕ → Call) → ℕ → Call
with_call i call calls j = if nat_eq i j then call else calls j

module _ {S : Type 0} (repo : Repository S) where
  unfoldable pub step_save : ShortUrl → Cached S → Call × Cached S
  step_save u c =
      let (failed, s) = repo.save u c.store in
      elim failed [
        | some e ↦ (saved (some e), record c { store = s })
        | none ↦ (caching u, record c { store = s })
      ]

  unfoldable pub step_cache : ShortUrl → Cached S → Call × Cached S
  step_cache u c = elim (Lru.set u.code u c.cache) [
    | none ↦ (saved (some panic), c)
    | some cache ↦ (saved none, record c { cache = cache })
  ]

  unfoldable pub step_get : Text → Cached S → Call × Cached S
  step_get code c = elim (Lru.get code c.cache) [
    | none ↦ (got code (err panic), c)
    | some (some u, cache) ↦ (got code (ok u), record c { cache = cache })
    | some (none, cache) ↦ (asking code, record c { cache = cache })
  ]

  unfoldable pub step_ask : Text → Cached S → Call × Cached S
  step_ask code c =
      let (r, s) = repo.get_by_code code c.store in
      elim r [
        | err e ↦ (got code (err e), record c { store = s })
        | ok u ↦ (keeping code u, record c { store = s })
      ]

  unfoldable pub step_keep : Text → ShortUrl → Cached S → Call × Cached S
  step_keep code u c = elim (Lru.set code u c.cache) [
    | none ↦ (got code (err panic), c)
    | some cache ↦ (got code (ok u), record c { cache = cache })
  ]

  abbrev pub move : ℕ → Call × Cached S → Overlapping S → Overlapping S
  move i (call, c) s = record { state = c; calls = with_call i call s.calls }

  pub data Step (s : Overlapping S) : Overlapping S → Type 0 where
    saves : (i : ℕ) (u : ShortUrl) → s.calls i ≡ saving u → Step s (move i (step_save u s.state) s)
    caches :
        (i : ℕ) (u : ShortUrl) → s.calls i ≡ caching u → Step s (move i (step_cache u s.state) s)
    gets :
        (i : ℕ) (code : Text) → s.calls i ≡ getting code → Step s (move i (step_get code s.state) s)
    asks :
        (i : ℕ) (code : Text) → s.calls i ≡ asking code → Step s (move i (step_ask code s.state) s)
    keeps :
        (i : ℕ) (code : Text) (u : ShortUrl)
        → s.calls i ≡ keeping code u
        → Step s (move i (step_keep code u s.state) s)

  pub data Reach (s : Overlapping S) : Overlapping S → Type 0 where
    here : Reach s s
    next : {t t' : Overlapping S} → Reach s t → Step t t' → Reach s t'
