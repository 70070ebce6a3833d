-- ===== src/Lru/Recency.antt =====
-- Laws of the recency list that specifies internal/cache/lru.go.
use web_demo_go.Prelude.{
  ◌≡◌, refl, none, some, List, [], ◌∷◌, arith, Eq, ==_iff, ==_refl, ℤ, pos, leb_ℤ, length, Map,
  lookup, IsDistinct, lookup-erase, length-erase, Option, ◌≢◌, ◌≤◌, ◌≤ℤ◌, ◌⊎◌, Option-cases, inl,
  inr, Bool-cases, ◌-◌,
}
use web_demo_go.Lru.Spec.{
  drop_last, spec_get, spec_set, spec_get-none, spec_get-some, spec_set-some, spec_set-full,
  spec_set-room,
}

length-drop_last {ℓ} : {A : Type ℓ} (l : List A) → length (drop_last l) ≡ length l - 1
unfolding drop_last
length-drop_last [] = omega arith
length-drop_last (x ∷ []) = omega arith
length-drop_last (x ∷ y ∷ l) = omega (arith, length-drop_last (y ∷ l))

-- The least recently used key.
unfoldable pub last_key : {K V : Type 0} → Map K V → Option K
last_key [] = none
last_key ((k, v) ∷ []) = some k
last_key (x ∷ y ∷ l) = last_key (y ∷ l)

module _ {K V : Type 0} ⦃e : Eq K⦄ where
  lookup-drop_last :
      (j : K) (l : Map K V) → last_key l ≢ some j → lookup j (drop_last l) ≡ lookup j l
  unfolding drop_last last_key lookup
  lookup-drop_last j [] h = refl
  lookup-drop_last j ((k, v) ∷ []) h = ground (arith, ==_iff k j)
  lookup-drop_last j (x ∷ y ∷ l) h = ground (arith, lookup-drop_last j (y ∷ l))

  pub lookup-spec_set_self :
      (bound : ℤ) (k : K) (v : V) (l : Map K V) → lookup k (spec_set bound k v l) ≡ some v
  unfolding spec_set lookup
  lookup-spec_set_self bound k v l = ground (arith, ==_refl k)

  -- Another key keeps its value, unless it is the one that is dropped.
  pub lookup-spec_set_ne :
      (bound : ℤ) (k j : K) (v : V) (l : Map K V)
      → k ≢ j
      → last_key l ≢ some j
      → lookup j (spec_set bound k v l) ≡ lookup j l
  unfolding spec_set lookup
  lookup-spec_set_ne bound k j v l h g =
      ground (arith, ==_iff k j, lookup-erase k j l, lookup-drop_last j l)

  lookup-drop_last-some :
      (j : K) (u : V) (l : Map K V) → lookup j (drop_last l) ≡ some u → lookup j l ≡ some u
  unfolding drop_last lookup
  lookup-drop_last-some j u [] h = h
  lookup-drop_last-some j u ((k, v) ∷ []) h = ground arith
  lookup-drop_last-some j u (x ∷ y ∷ l) h = ground (arith, lookup-drop_last-some j u (y ∷ l))

  -- Whatever is found after a `Set` was put there by it or was there before.
  pub lookup-spec_set-some :
      (bound : ℤ) (k j : K) (v u : V) (l : Map K V)
      → lookup j (spec_set bound k v l) ≡ some u
      → ((k ≡ j) × (v ≡ u)) ⊎ (lookup j l ≡ some u)
  unfolding spec_set lookup
  lookup-spec_set-some bound k j v u l h =
      ground (arith, ==_iff k j, lookup-erase k j l, lookup-drop_last-some j u l)

  pub lookup-spec_get : (k j : K) (l : Map K V) → lookup j (spec_get k l) ≡ lookup j l
  unfolding spec_get lookup
  lookup-spec_get k j l = ground (arith, ==_iff k j, lookup-erase k j l)

  pub length-spec_get : (k : K) (l : Map K V) → IsDistinct l → length (spec_get k l) ≡ length l
  length-spec_get k l d = elim (Option-cases (lookup k l)) [
    | inl h ↦ rw (spec_get-none k l h)
    | inr (v, h) ↦ rw (spec_get-some k v l h) (length-erase k v l d h)
  ]

  -- At most the capacity, or one entry where the capacity is not positive.
  abbrev pub Fits : ℤ → Map K V → Type 0
  Fits bound l = (pos (length l) ≤ℤ bound) ⊎ (length l ≤ 1)

  pub spec_set-Fits :
      (bound : ℤ) (k : K) (v : V) (l : Map K V)
      → IsDistinct l
      → Fits bound l
      → Fits bound (spec_set bound k v l)
  spec_set-Fits bound k v l d f = elim (Option-cases (lookup k l)) [
    | inr (w, h) ↦ rw (spec_set-some bound k v w l h) (ground (arith, length-erase k w l d h))
    | inl h ↦ elim (Bool-cases (leb_ℤ bound (pos (length l)))) [
      | inl full ↦ rw (spec_set-full bound k v l h full) (ground (arith, length-drop_last l))
      | inr room ↦ rw (spec_set-room bound k v l h room) (ground arith)
    ]
  ]
