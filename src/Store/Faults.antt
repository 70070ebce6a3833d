-- ===== src/Store/Faults.antt =====
-- When a `shortener.Repository` may fail: a contract for stores of which one can say it.
use web_demo_go.Prelude.{◌≡◌, ◌≢◌, some, Text, Error, not_found, failure, err}
use web_demo_go.Shortener.{ShortUrl, Repository}
use web_demo_go.Store.Contract.{Rows, IsStore}

module _ {S : Type 0} (repo : Repository S) (Valid : S → Type 0) where
  -- A lookup by code fails only with the failures of `code_fault`.
  abbrev pub CodeFails : (Text → S → Text → Type 0) → Type 0
  CodeFails code_fault =
      (c : Text) (s : S)
      → Valid s
      → (m : Text) → (repo.get_by_code c s).0 ≡ err (failure m)
      → code_fault c s m

  -- The contract of a store, and each error that is not `ErrNotFound` has its reason.
  pub record IsHonest (keep : ShortUrl → ShortUrl) (rows : S → Rows)
      (save_fault : ShortUrl → S → Error → Type 0) (code_fault : Text → S → Text → Type 0)
      (hash_fault : Text → S → Error → Type 0) : Type 0 where
    pub contract : IsStore keep repo Valid rows
    pub save_fails :
        (u : ShortUrl) (s : S)
        → Valid s
        → (e : Error) → (repo.save u s).0 ≡ some e
        → save_fault u s e
    pub code_fails : CodeFails code_fault
    pub hash_fails :
        (h : Text) (s : S)
        → Valid s
        → (e : Error) → (repo.get_by_hash h s).0 ≡ err e
        → e ≢ not_found
        → hash_fault h s e
