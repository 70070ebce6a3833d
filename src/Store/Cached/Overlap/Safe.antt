-- ===== src/Store/Cached/Overlap/Safe.antt =====
-- What overlapping calls of internal/store/cached.go keep.
use mathlib.Core.Path.{subst}
use web_demo_go.Prelude.{◌≡◌, ◌≢◌, ℕ, none, some, Text_eq, arith}
use web_demo_go.Shortener.{ShortUrl, Repository}
use web_demo_go.Store.Contract.{Rows, IsStore}
use web_demo_go.Store.Cached.Overlap.{
  Call, saving, caching, keeping, Overlapping, Step, saves, caches, gets, asks, keeps, Reach, here,
  next,
}
use web_demo_go.Store.Cached.Overlap.Sound.{CallSound, Safe, move-Safe}
use web_demo_go.Store.Cached.Overlap.Moves.{
  step_get-Moved, step_keep-Moved, step_cache-Moved, step_ask-Moved, step_save-Moved,
}

module _ {keep : ShortUrl → ShortUrl} {S : Type 0} {repo : Repository S} {Valid : S → Type 0}
    {rows : S → Rows} (i : IsStore keep repo Valid rows) where
  nothing_changed :
      (n : ℕ) (s : Overlapping S) (m : ℕ) (u : ShortUrl)
      → s.calls m ≡ saving u
      → n ≢ m
      → none ≢ some u.code
  nothing_changed n s m u e apart = λ h. cc

  at_call :
      (s : Overlapping S) (n : ℕ) (call : Call)
      → Safe i s
      → s.calls n ≡ call
      → CallSound i (rows s.state.store) call
  at_call s n call safe e = subst (CallSound i (rows s.state.store)) e (safe.sound n)

  Step-Safe : (s t : Overlapping S) → Safe i s → Step repo s t → Safe i t
  Step-Safe s _ safe (saves n u e) =
      move-Safe i n s (some u.code) _ safe
        (step_save-Moved i u s.state safe.valid safe.coherent (at_call s n (saving u) safe e))
        (λ m v h apart same. apart (safe.apart n m u v e h (ground arith)))
  Step-Safe s _ safe (caches n u e) =
      move-Safe i n s none _ safe
        (step_cache-Moved i u s.state safe.valid safe.coherent (at_call s n (caching u) safe e))
        (nothing_changed n s)
  Step-Safe s _ safe (gets n code e) =
      move-Safe i n s none _ safe (step_get-Moved i code s.state safe.valid safe.coherent)
        (nothing_changed n s)
  Step-Safe s _ safe (asks n code e) =
      move-Safe i n s none _ safe (step_ask-Moved i code s.state safe.valid safe.coherent)
        (nothing_changed n s)
  Step-Safe s _ safe (keeps n code u e) =
      move-Safe i n s none _ safe
        (step_keep-Moved i code u s.state safe.valid safe.coherent
          (at_call s n (keeping code u) safe e))
        (nothing_changed n s)

  -- However any number of calls of `Save` and `GetByCode` overtake each other between the store,
  -- which meets the contract, and the LRU cache, where the codes to be saved have no rows and
  -- differ: the store stays valid, the cache a well-formed list of rows, an entity that a call has
  -- found is that of the row of its code, and no call panics.
  pub Reach-Safe : (s t : Overlapping S) → Safe i s → Reach repo s t → Safe i t
  Reach-Safe s _ safe here = safe
  Reach-Safe s t safe (next {t = u} path step) = Step-Safe u t (Reach-Safe s u safe path) step
