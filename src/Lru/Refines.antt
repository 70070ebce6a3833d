-- ===== src/Lru/Refines.antt =====
-- The methods of internal/cache/lru.go against the recency list of `Spec`.
use mathlib.Core.Path.{subst}
use web_demo_go.Prelude.{
  ◌≡◌, refl, ap, sym, ◌∙◌, none, some, List, [], ◌∷◌, ◌++◌, arith, Eq, inl, inr, length, Map,
  lookup, erase, ℤ,
}
use web_demo_go.Lru.{Lru, new, get, len}
use web_demo_go.Lru.Nodes.{Ptr}
use web_demo_go.Lru.Spec.{spec_get, spec_get-none, spec_get-some}
use web_demo_go.Lru.Entries.{Entry, entry, view, At, find_split, erase-view, length-view}
use web_demo_go.Lru.Holds.{Holds, moved, move-runs, Holds-move}

module _ {K V : Type 0} ⦃e : Eq K⦄ where
  -- The cache stands for the list `l`, most recently used first.
  pub record Represents (c : Lru K V) (l : Map K V) : Type 0 where
    pub entries : List (Entry K V)
    pub holds : Holds c.heap c.head c.tail c.items entries
    pub seen : view entries ≡ l

  -- A new cache is empty.
  pub new-Represents :
      (zero_key : K) (zero_value : V) (bound : ℤ) → Represents (new zero_key zero_value bound) []
  unfolding new lookup
  new-Represents zero_key zero_value bound = record {
    entries = [];
    holds = record {
      ring = record {
        chain = (refl, refl);
        apart = (refl, tt);
        end_apart = refl;
        no_nil = refl;
        old = omega arith;
      };
      stored = tt;
      index = λ k. refl;
      size = refl;
      one_each = tt;
      distinct = tt;
    };
    seen = refl;
  }

  pub new-capacity :
      (zero_key : K) (zero_value : V) (bound : ℤ) → (new zero_key zero_value bound).capacity ≡ bound
  unfolding new
  new-capacity zero_key zero_value bound = refl

  get_hit :
      (k : K) (c : Lru K V) (xs ys : List (Entry K V)) (p : Ptr) (v : V)
      → Holds c.heap c.head c.tail c.items (xs ++ entry p k v ∷ ys)
      → lookup k c.items ≡ some p
      → (c' : Lru K V) × (get k c ≡ some (some v, c'))
        × Represents c' ((k, v) ∷ view (xs ++ ys))
        × (c'.capacity ≡ c.capacity)
  unfolding get
  get_hit k c xs ys p v holds found =
      let x = entry p k v in
      let h' = moved c.heap c.head c.tail c.items xs ys x holds in
      let runs = move-runs c.heap c.head c.tail c.items xs ys x holds in
      let after = Holds-move c.heap c.head c.tail c.items xs ys x holds in
      let value : h'.value p ≡ v = after.stored.1 in
      let pos = after.ring.no_nil in
      (
        record c { heap = h' },
        ground arith,
        record { entries = x ∷ xs ++ ys; holds = after; seen = refl },
        refl,
      )

  pub Represents-eq : {c : Lru K V} {l m : Map K V} → Represents c l → l ≡ m → Represents c m
  Represents-eq r h = record { entries = r.entries; holds = r.holds; seen = r.seen ∙ h }

  module _ (k : K) (c : Lru K V) (l : Map K V) (r : Represents c l) (s : At k r.entries) where
    pub Holds-at : Holds c.heap c.head c.tail c.items (s.before ++ entry s.node k s.value ∷ s.after)
    Holds-at = subst (λ es. Holds c.heap c.head c.tail c.items es) s.split r.holds

    pub found_at : lookup k c.items ≡ some s.node
    found_at = r.holds.index k ∙ s.found

    pub listed_at : lookup k l ≡ some s.value
    listed_at = ap (lookup k) (sym r.seen) ∙ s.seen

    pub rest_at : view (s.before ++ s.after) ≡ erase k l
    rest_at =
        sym (erase-view s.before s.after (entry s.node k s.value) Holds-at.distinct)
        ∙ ap (λ es. erase k (view es)) (sym s.split)
        ∙ ap (erase k) r.seen

  -- On a cache that stands for a list `Get` does not panic, returns what the list holds for the key
  -- and moves the key to the front. The capacity stays.
  pub get-Represents :
      (k : K) (c : Lru K V) (l : Map K V)
      → Represents c l
      → (c' : Lru K V) × (get k c ≡ some (lookup k l, c'))
        × Represents c' (spec_get k l)
        × (c'.capacity ≡ c.capacity)
  unfolding get
  get-Represents k c l r = elim (find_split k r.entries) [
    | inl (lost, unseen) ↦
        let absent : lookup k c.items ≡ none = r.holds.index k ∙ lost in
        let unlisted : lookup k l ≡ none = ap (lookup k) (sym r.seen) ∙ unseen in
        (c, ground arith, Represents-eq r (sym (spec_get-none k l unlisted)), refl)
    | inr s ↦
        let (c', runs, after, same) =
          get_hit k c s.before s.after s.node s.value (Holds-at k c l r s) (found_at k c l r s) in
        let listed = listed_at k c l r s in
        (
          c',
          rw listed runs,
          Represents-eq after
              (ap (◌∷◌ (k, s.value)) (rest_at k c l r s) ∙ sym (spec_get-some k s.value l listed)),
          same,
        )
  ]

  -- `Len` is the number of entries.
  pub len-Represents : (c : Lru K V) (l : Map K V) → Represents c l → len c ≡ length l
  unfolding len
  len-Represents c l r = r.holds.size ∙ sym (length-view r.entries) ∙ ap length r.seen
