-- ===== src/Store/Cached/Overlap/Sound.antt =====
-- What a step of a call of internal/store/cached.go may leave.
use mathlib.Core.Path.{subst}
use web_demo_go.Prelude.{
  ◌≡◌, ◌≢◌, inl, inr, refl, ◌∙◌, ℕ, Option, none, some, Text, Text_eq, nat_eq, nat_eq_iff, panic,
  ok, err, arith, Bool-cases,
}
use web_demo_go.Shortener.{ShortUrl, Repository}
use web_demo_go.Store.Contract.{Rows, IsStore, Grows}
use web_demo_go.Store.Cached.{Cached}
use web_demo_go.Store.Cached.Coherence.{Coherent}
use web_demo_go.Store.Cached.Overlap.{
  Call, saving, caching, saved, getting, asking, keeping, got, Overlapping, with_call, move,
}

module _ {keep : ShortUrl → ShortUrl} {S : Type 0} {repo : Repository S} {Valid : S → Type 0}
    {rows : S → Rows} (i : IsStore keep repo Valid rows) where
  -- What a call has found, stored or returned is a row, and it has not panicked. The code of an
  -- entity to be saved has no row.
  abbrev pub CallSound : Rows → Call → Type 0
  CallSound now (saving u) = now u.code ≡ none
  CallSound now (caching u) = now u.code ≡ some (keep u)
  CallSound now (saved e) = e ≢ some panic
  CallSound now (getting code) = Unit
  CallSound now (asking code) = Unit
  CallSound now (keeping code u) = now code ≡ some (keep u)
  CallSound now (got code (ok u)) = now code ≡ some (keep u)
  CallSound now (got code (err e)) = e ≢ panic

  -- No two calls save under one code.
  abbrev pub Apart : (ℕ → Call) → Type 0
  Apart calls =
      (m n : ℕ) (u v : ShortUrl) → calls m ≡ saving u → calls n ≡ saving v → u.code ≡ v.code → m ≡ n

  pub record Safe (s : Overlapping S) : Type 0 where
    pub valid : Valid s.state.store
    pub coherent : Coherent keep (rows s.state.store) s.state.cache
    pub sound : (n : ℕ) → CallSound (rows s.state.store) (s.calls n)
    pub apart : Apart s.calls

  -- A call that is not about to save.
  abbrev pub Past : Call → Type 0
  Past call = (u : ShortUrl) → call ≢ saving u

  -- What one step leaves: rows are only added, and under no other code than `changed`.
  pub record Moved (changed : Option Text) (c : Cached S) (out : Call × Cached S) : Type 0 where
    pub valid : Valid out.1.store
    pub coherent : Coherent keep (rows out.1.store) out.1.cache
    pub grows : Grows (rows c.store) (rows out.1.store)
    pub others : (k : Text) → changed ≢ some k → rows out.1.store k ≡ rows c.store k
    pub call : CallSound (rows out.1.store) out.0
    pub past : Past out.0

  CallSound-Grows :
      (old new : Rows) (call : Call)
      → Grows old new
      → ((u : ShortUrl) → call ≡ saving u → new u.code ≡ none)
      → CallSound old call
      → CallSound new call
  CallSound-Grows old new (saving u) grow unused s = unused u refl
  CallSound-Grows old new (caching u) grow unused s = grow u.code (keep u) s
  CallSound-Grows old new (saved e) grow unused s = s
  CallSound-Grows old new (getting code) grow unused s = tt
  CallSound-Grows old new (asking code) grow unused s = tt
  CallSound-Grows old new (keeping code u) grow unused s = grow code (keep u) s
  CallSound-Grows old new (got code (ok u)) grow unused s = grow code (keep u) s
  CallSound-Grows old new (got code (err e)) grow unused s = s

  unused_at :
      (call : Call) (now : Rows) (u : ShortUrl)
      → call ≡ saving u
      → CallSound now call
      → now u.code ≡ none
  unused_at call now u e sound = subst (CallSound now) e sound

  module _ (n : ℕ) (s : Overlapping S) (changed : Option Text) (out : Call × Cached S)
      (safe : Safe s) (moved : Moved changed s.state out)
      (free : (m : ℕ) (u : ShortUrl) → s.calls m ≡ saving u → n ≢ m → changed ≢ some u.code) where
    sound_other : (m : ℕ) → n ≢ m → CallSound (rows out.1.store) (s.calls m)
    sound_other m apart =
        CallSound-Grows (rows s.state.store) (rows out.1.store) (s.calls m) moved.grows
          (λ u e.
            moved.others u.code (free m u e apart)
            ∙ unused_at (s.calls m) (rows s.state.store) u e (safe.sound m))
          (safe.sound m)

    sound_all : (m : ℕ) → CallSound (rows out.1.store) (with_call n out.0 s.calls m)
    sound_all m = elim (Bool-cases (nat_eq n m)) [
      | inl same ↦ rw same moved.call
      | inr other ↦ rw other (sound_other m (λ e. ground (arith, nat_eq_iff n m)))
    ]

    still_saving :
        (m : ℕ) (u : ShortUrl) → with_call n out.0 s.calls m ≡ saving u → s.calls m ≡ saving u
    still_saving m u e = elim (Bool-cases (nat_eq n m)) [
      | inl same ↦ absurd (moved.past u (ground arith))
      | inr other ↦ ground arith
    ]

    pub move-Safe : Safe (move repo n out s)
    move-Safe = record {
      valid = moved.valid;
      coherent = moved.coherent;
      sound = sound_all;
      apart =
          λ k m u v hu hv same. safe.apart k m u v (still_saving k u hu) (still_saving m v hv) same;
    }
