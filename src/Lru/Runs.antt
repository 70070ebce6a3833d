-- ===== src/Lru/Runs.antt =====
-- Sequences of calls of the methods of internal/cache/lru.go, in the order in which its mutex lets
-- them through.
use mathlib.Core.Path.{subst}
use web_demo_go.Prelude.{
  ◌≡◌, refl, none, some, List, [], ◌∷◌, arith, Eq, ℤ, pos, length, Map, lookup, IsDistinct, Option,
  ◌≢◌, ◌≤◌, ◌≤ℤ◌, ◌⊎◌, inr, sym, ap, ◌∙◌,
}
use web_demo_go.Lru.{Lru, new, get, set, len}
use web_demo_go.Lru.Spec.{spec_get, spec_set}
use web_demo_go.Lru.Inserts.{set-Represents}
use web_demo_go.Lru.Refines.{
  new-capacity, Represents, new-Represents, get-Represents, len-Represents,
}
use web_demo_go.Lru.Recency.{
  last_key, lookup-spec_set_self, lookup-spec_set_ne, length-spec_get, Fits, spec_set-Fits,
}

pub data Call (K V : Type 0) : Type 0 where
  get_call : K → Call K V
  set_call : K → V → Call K V

module _ {K V : Type 0} ⦃e : Eq K⦄ where
  -- The results of the `Get` calls, in order, and the final cache; `none` is a panic.
  unfoldable pub run : List (Call K V) → Lru K V → Option (List (Option V) × Lru K V)
  run [] c = some ([], c)
  run (get_call k ∷ calls) c = elim (get k c) [
    | none ↦ none
    | some (v, c') ↦ elim (run calls c') [ none ↦ none | some (vs, c'') ↦ some (v ∷ vs, c'') ]
  ]
  run (set_call k v ∷ calls) c = elim (set k v c) [ none ↦ none | some c' ↦ run calls c' ]

  -- The same calls on the recency list.
  unfoldable pub spec_run : ℤ → List (Call K V) → Map K V → List (Option V) × Map K V
  spec_run bound [] l = ([], l)
  spec_run bound (get_call k ∷ calls) l =
      let (vs, m) = spec_run bound calls (spec_get k l) in (lookup k l ∷ vs, m)
  spec_run bound (set_call k v ∷ calls) l = spec_run bound calls (spec_set bound k v l)

  pub Represents-IsDistinct : (c : Lru K V) (l : Map K V) → Represents c l → IsDistinct l
  Represents-IsDistinct c l r = subst (λ m. IsDistinct m) r.seen r.holds.distinct

  run-get :
      (k : K) (calls : List (Call K V)) (c c1 c2 : Lru K V) (v : Option V) (vs : List (Option V))
      → get k c ≡ some (v, c1)
      → run calls c1 ≡ some (vs, c2)
      → run (get_call k ∷ calls) c ≡ some (v ∷ vs, c2)
  unfolding run
  run-get k calls c c1 c2 v vs first rest = ground arith

  run-set :
      (k : K) (v : V) (calls : List (Call K V)) (c c1 c2 : Lru K V) (vs : List (Option V))
      → set k v c ≡ some c1
      → run calls c1 ≡ some (vs, c2)
      → run (set_call k v ∷ calls) c ≡ some (vs, c2)
  unfolding run
  run-set k v calls c c1 c2 vs first rest = ground arith

  -- Any sequence of `Get` and `Set` calls runs without a panic on a cache that stands for a list:
  -- the `Get` results are those of the specification, whose final list the final cache stands for.
  pub run-spec_run :
      (calls : List (Call K V)) (c : Lru K V) (l : Map K V)
      → Represents c l
      → (c' : Lru K V) × (run calls c ≡ some ((spec_run c.capacity calls l).0, c'))
        × Represents c' (spec_run c.capacity calls l).1
        × (c'.capacity ≡ c.capacity)
  unfolding run spec_run
  run-spec_run [] c l r = (c, refl, r, refl)
  run-spec_run (get_call k ∷ calls) c l r =
      let (c1, first, r1, same1) = get-Represents k c l r in
      let (c2, rest, r2, same2) = run-spec_run calls c1 (spec_get k l) r1 in
      (c2, run-get k calls c c1 c2 _ _ first (rw same1 at rest), rw same1 at r2, same2 ∙ same1)
  run-spec_run (set_call k v ∷ calls) c l r =
      let (c1, first, r1, same1) = set-Represents k v c l r in
      let (c2, rest, r2, same2) = run-spec_run calls c1 (spec_set c.capacity k v l) r1 in
      (c2, run-set k v calls c c1 c2 _ first (rw same1 at rest), rw same1 at r2, same2 ∙ same1)

  spec_run-Fits :
      (bound : ℤ) (calls : List (Call K V)) (c : Lru K V) (l : Map K V)
      → Represents c l
      → c.capacity ≡ bound
      → Fits bound l
      → Fits bound (spec_run bound calls l).1
  unfolding spec_run
  spec_run-Fits bound [] c l r same f = f
  spec_run-Fits bound (get_call k ∷ calls) c l r same f =
      let (c1, _, r1, same1) = get-Represents k c l r in
      let kept = length-spec_get k l (Represents-IsDistinct c l r) in
      spec_run-Fits bound calls c1 (spec_get k l) r1 (same1 ∙ same)
        (subst (λ n. (pos n ≤ℤ bound) ⊎ (n ≤ 1)) (sym kept) f)
  spec_run-Fits bound (set_call k v ∷ calls) c l r same f =
      let (c1, _, r1, same1) = set-Represents k v c l r in
      spec_run-Fits bound calls c1 (spec_set bound k v l) (rw same at r1) (same1 ∙ same)
        (spec_set-Fits bound k v l (Represents-IsDistinct c l r) f)

  -- From a new cache any sequence of `Get` and `Set` calls runs without a panic, and `Len` is then
  -- at most the capacity, or at most 1 where the capacity is not positive.
  pub run-new-len :
      (zero_key : K) (zero_value : V) (bound : ℤ) (calls : List (Call K V))
      → (c : Lru K V) × (vs : List (Option V)) × (run calls (new zero_key zero_value bound)
          ≡ some (vs, c))
        × ((pos (len c) ≤ℤ bound) ⊎ (len c ≤ 1))
  run-new-len zero_key zero_value bound calls =
      let r = new-Represents zero_key zero_value bound in
      let start = new-capacity zero_key zero_value bound in
      let (c, runs, after, same) = run-spec_run calls (new zero_key zero_value bound) [] r in
      let fits =
        spec_run-Fits bound calls (new zero_key zero_value bound) [] r start (inr (omega arith)) in
      let size = len-Represents c _ after in
      (
        c,
        _,
        runs,
        subst (λ n. (pos n ≤ℤ bound) ⊎ (n ≤ 1))
            (sym (size ∙ ap (λ q. length (spec_run q calls []).1) start)) fits,
      )

  module _ (k : K) (v : V) (c : Lru K V) (l : Map K V) (r : Represents c l) where
    -- On a cache that stands for a list, a `Get` right after a `Set` of the key returns the value.
    pub get-set_self :
        (c1 : Lru K V) × (c2 : Lru K V) × (set k v c ≡ some c1) × (get k c1 ≡ some (some v, c2))
    get-set_self =
        let (c1, first, r1, _) = set-Represents k v c l r in
        let (c2, second, _, _) = get-Represents k c1 (spec_set c.capacity k v l) r1 in
        (c1, c2, first, second ∙ ap (λ o. some (o, c2)) (lookup-spec_set_self c.capacity k v l))

    -- On a cache that stands for a list, a `Get` of a key after a `Set` of another one finds what
    -- the list held for it, unless the key is the least recently used.
    pub get-set_ne :
        (j : K)
        → k ≢ j
        → last_key l ≢ some j
        → (c1 : Lru K V) × (c2 : Lru K V) × (set k v c ≡ some c1)
          × (get j c1 ≡ some (lookup j l, c2))
    get-set_ne j ne kept =
        let (c1, first, r1, _) = set-Represents k v c l r in
        let (c2, second, _, _) = get-Represents j c1 (spec_set c.capacity k v l) r1 in
        (
          c1,
          c2,
          first,
          second ∙ ap (λ o. some (o, c2)) (lookup-spec_set_ne c.capacity k j v l ne kept),
        )
