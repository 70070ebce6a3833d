-- ===== src/Lru/Entries.antt =====
-- The nodes of a cache in order, with what they store.

use web_demo_go.Prelude.{
  ◌≡◌, refl, ap, false, Option, none, some, List, [], ◌∷◌, ◌++◌, ◌⊎◌, inl, inr, arith,
  if◌then◌else◌, Bool-cases, Eq, ◌==◌, ==_iff, length, Map, lookup, erase, IsDistinct, erase_absent,
  suc,
}
use web_demo_go.Lru.Nodes.{Ptr}
use web_demo_go.Lru.Spec.{drop_last}

pub record Entry (K V : Type 0) : Type 0 where
  pub at : Ptr
  pub key : K
  pub value : V

module _ {K V : Type 0} where
  abbrev pub entry : Ptr → K → V → Entry K V
  entry p k v = record { at = p; key = k; value = v }

  abbrev pub ptrs : List (Entry K V) → List Ptr
  ptrs [] = []
  ptrs (x ∷ xs) = x.at ∷ ptrs xs

  -- The abstract cache.
  abbrev pub view : List (Entry K V) → Map K V
  view [] = []
  view (x ∷ xs) = (x.key, x.value) ∷ view xs

  pub ptrs-append : (xs ys : List (Entry K V)) → ptrs (xs ++ ys) ≡ ptrs xs ++ ptrs ys
  ptrs-append [] ys = refl
  ptrs-append (x ∷ xs) ys = ap (◌∷◌ x.at) (ptrs-append xs ys)

  pub length-view : (xs : List (Entry K V)) → length (view xs) ≡ length xs
  length-view [] = refl
  length-view (x ∷ xs) = ap suc (length-view xs)

  pub length-remove :
      (xs ys : List (Entry K V)) (x : Entry K V) → length (xs ++ x ∷ ys) ≡ suc (length (xs ++ ys))
  length-remove [] ys x = refl
  length-remove (y ∷ xs) ys x = ap suc (length-remove xs ys x)

  pub drop_last-view :
      (xs : List (Entry K V)) (x : Entry K V) → drop_last (view (xs ++ x ∷ [])) ≡ view xs
  unfolding drop_last
  drop_last-view [] x = refl
  drop_last-view (y ∷ []) x = refl
  drop_last-view (y ∷ z ∷ xs) x = ap (◌∷◌ (y.key, y.value)) (drop_last-view (z ∷ xs) x)

  -- The last entry, where there is one.
  pub last_split :
      (es : List (Entry K V))
      → (es ≡ []) ⊎ ((xs : List (Entry K V)) × (x : Entry K V) × (es ≡ xs ++ x ∷ []))
  last_split [] = inl refl
  last_split (y ∷ es) = elim (last_split es) [
    | inl none_left ↦ inr ([], y, ap (◌∷◌ y) none_left)
    | inr (xs, x, e) ↦ inr (y ∷ xs, x, ap (◌∷◌ y) e)
  ]

module _ {K V : Type 0} ⦃e : Eq K⦄ where
  -- The node of a key.
  abbrev pub find : K → List (Entry K V) → Option Ptr
  find k [] = none
  find k (x ∷ xs) = if x.key == k then some x.at else find k xs

  pub record At (k : K) (es : List (Entry K V)) : Type 0 where
    pub before : List (Entry K V)
    pub node : Ptr
    pub value : V
    pub after : List (Entry K V)
    pub split : es ≡ before ++ entry node k value ∷ after
    pub found : find k es ≡ some node
    pub seen : lookup k (view es) ≡ some value

  pub find_split :
      (k : K) (es : List (Entry K V)) → ((find k es ≡ none) × (lookup k (view es) ≡ none)) ⊎ At k es
  unfolding lookup
  find_split k [] = inl (refl, refl)
  find_split k (x ∷ es) = elim (Bool-cases (x.key == k)) [
    | inl here ↦ inr (record {
      before = [];
      node = x.at;
      value = x.value;
      after = es;
      split = ground (arith, ==_iff x.key k);
      found = rw here;
      seen = rw here;
    })
    | inr there ↦ elim (find_split k es) [
      | inl (a, b) ↦ inl (rw there a, rw there b)
      | inr s ↦ inr (record {
        before = x ∷ s.before;
        node = s.node;
        value = s.value;
        after = s.after;
        split = ap (◌∷◌ x) s.split;
        found = rw there s.found;
        seen = rw there s.seen;
      })
    ]
  ]

  pub absent_ne :
      (j : K) (xs ys : List (Entry K V)) (x : Entry K V)
      → lookup j (view (xs ++ x ∷ ys)) ≡ none
      → ((x.key == j) ≡ false) × (lookup j (view (xs ++ ys)) ≡ none)
  unfolding lookup
  absent_ne j [] ys x h = ground arith
  absent_ne j (y ∷ xs) ys x h = ground (arith, absent_ne j xs ys x)

  -- Moving an entry to the front changes no lookup.
  pub find_move :
      (k : K) (xs ys : List (Entry K V)) (x : Entry K V)
      → IsDistinct (view (xs ++ x ∷ ys))
      → find k (x ∷ xs ++ ys) ≡ find k (xs ++ x ∷ ys)
  find_move k [] ys x d = refl
  find_move k (y ∷ xs) ys x d = ground (
    arith,
    find_move k xs ys x,
    absent_ne y.key xs ys x,
    ==_iff x.key k,
    ==_iff y.key k,
    ==_iff x.key y.key,
  )

  pub remove-IsDistinct :
      (xs ys : List (Entry K V)) (x : Entry K V)
      → IsDistinct (view (xs ++ x ∷ ys))
      → IsDistinct (view (x ∷ xs ++ ys))
  unfolding lookup
  remove-IsDistinct [] ys x d = d
  remove-IsDistinct (y ∷ xs) ys x d = ground (
    arith,
    remove-IsDistinct xs ys x,
    absent_ne y.key xs ys x,
    ==_iff y.key x.key,
    ==_iff x.key y.key,
  )

  pub erase-view :
      (xs ys : List (Entry K V)) (x : Entry K V)
      → IsDistinct (view (xs ++ x ∷ ys))
      → erase x.key (view (xs ++ x ∷ ys)) ≡ view (xs ++ ys)
  unfolding erase
  erase-view [] ys x d = ground (arith, ==_iff x.key x.key, erase_absent x.key (view ys))
  erase-view (y ∷ xs) ys x d =
      ground
        (arith, erase-view xs ys x, absent_ne y.key xs ys x, ==_iff y.key x.key, ==_iff x.key y.key)
