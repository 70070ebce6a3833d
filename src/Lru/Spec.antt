-- ===== src/Lru/Spec.antt =====
-- What internal/cache/lru.go promises: a list of keys and values, most recently used first.
use web_demo_go.Prelude.{
  arith, ◌≡◌, refl, true, false, none, some, List, [], ◌∷◌, if◌then◌else◌, Eq, ℤ, pos, leb_ℤ,
  length, Map, lookup, erase,
}

-- The list without its least recently used entry.
unfoldable pub drop_last {ℓ} : {A : Type ℓ} → List A → List A
drop_last [] = []
drop_last (x ∷ []) = []
drop_last (x ∷ y ∷ l) = x ∷ drop_last (y ∷ l)

pub drop_last-nil {ℓ} : {A : Type ℓ} → drop_last {A = A} [] ≡ []
unfolding drop_last
drop_last-nil = refl

module _ {K V : Type 0} ⦃e : Eq K⦄ where
  unfoldable pub spec_get : K → Map K V → Map K V
  spec_get k l = elim (lookup k l) [ none ↦ l | some v ↦ (k, v) ∷ erase k l ]

  unfoldable pub spec_set : ℤ → K → V → Map K V → Map K V
  spec_set bound k v l = elim (lookup k l) [
    | none ↦ (k, v) ∷ (if leb_ℤ bound (pos (length l)) then drop_last l else l)
    | some w ↦ (k, v) ∷ erase k l
  ]

  pub spec_get-none : (k : K) (l : Map K V) → lookup k l ≡ none → spec_get k l ≡ l
  unfolding spec_get
  spec_get-none k l h = ground arith

  pub spec_get-some :
      (k : K) (v : V) (l : Map K V) → lookup k l ≡ some v → spec_get k l ≡ (k, v) ∷ erase k l
  unfolding spec_get
  spec_get-some k v l h = ground arith

  pub spec_set-some :
      (bound : ℤ) (k : K) (v w : V) (l : Map K V)
      → lookup k l ≡ some w
      → spec_set bound k v l ≡ (k, v) ∷ erase k l
  unfolding spec_set
  spec_set-some bound k v w l h = ground arith

  pub spec_set-full :
      (bound : ℤ) (k : K) (v : V) (l : Map K V)
      → lookup k l ≡ none
      → leb_ℤ bound (pos (length l)) ≡ true
      → spec_set bound k v l ≡ (k, v) ∷ drop_last l
  unfolding spec_set
  spec_set-full bound k v l h f = ground arith

  pub spec_set-room :
      (bound : ℤ) (k : K) (v : V) (l : Map K V)
      → lookup k l ≡ none
      → leb_ℤ bound (pos (length l)) ≡ false
      → spec_set bound k v l ≡ (k, v) ∷ l
  unfolding spec_set
  spec_set-room bound k v l h f = ground arith
