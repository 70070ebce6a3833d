-- ===== src/Tests/Cache.antt =====
-- A cache of capacity 1 that holds the key 1, for internal/cache/lru.go.
use mathlib.Core.Path.{subst}
use web_demo_go.Prelude.{
  Map, ◌≡◌, refl, sym, ◌∙◌, Option, none, some, List, [], ◌∷◌, ℕ, pos, ◌≤ℤ◌, ◌≤◌, ◌⊎◌, ℕ_eq, lookup,
  arith,
}
use web_demo_go.Lru.{Lru, add_new, make_room, add_to_front, new, get, set, len}
use web_demo_go.Lru.Nodes.{update}
use web_demo_go.Lru.Spec.{drop_last, spec_get, spec_set}
use web_demo_go.Lru.Inserts.{set-Represents}
use web_demo_go.Lru.Refines.{Represents, new-Represents, get-Represents}
use web_demo_go.Lru.Runs.{Call, get_call, set_call, run, spec_run, run-spec_run, run-new-len}

abbrev start : Lru ℕ ℕ
start = new 0 0 (pos 1)

abbrev full : Lru ℕ ℕ
full = elim (set 1 10 start) [ none ↦ start | some c ↦ c ]

abbrev listed : Map ℕ ℕ
listed = (1, 10) ∷ []

set-full : set 1 10 start ≡ some full
unfolding set new lookup add_new make_room add_to_front update
set-full = refl

some_eq : {A : Type 0} {x y : A} → some x ≡ some y → x ≡ y
some_eq h = ground arith

full-Represents : Represents full listed
unfolding spec_set lookup new
full-Represents =
    let (c, runs, shown, _) = set-Represents 1 10 start [] (new-Represents 0 0 (pos 1)) in
    subst (λ x. Represents x listed) (some_eq (sym runs ∙ set-full)) shown

set_drops_last : spec_set (pos 1) 2 20 listed ≡ (2, 20) ∷ []
unfolding spec_set lookup drop_last
set_drops_last = refl

get-Represents_example :
    (c : Lru ℕ ℕ) × (get 1 full ≡ some (lookup 1 listed, c))
    × Represents c (spec_get 1 listed)
    × (c.capacity ≡ full.capacity)
get-Represents_example = get-Represents 1 full listed full-Represents

set-Represents_example :
    (c : Lru ℕ ℕ) × (set 2 20 full ≡ some c)
    × Represents c (spec_set full.capacity 2 20 listed)
    × (c.capacity ≡ full.capacity)
set-Represents_example = set-Represents 2 20 full listed full-Represents

abbrev calls : List (Call ℕ ℕ)
calls = get_call 1 ∷ set_call 2 20 ∷ get_call 1 ∷ get_call 2 ∷ []

run-spec_run_example :
    (c : Lru ℕ ℕ) × (run calls full ≡ some ((spec_run full.capacity calls listed).0, c))
    × Represents c (spec_run full.capacity calls listed).1
    × (c.capacity ≡ full.capacity)
run-spec_run_example = run-spec_run calls full listed full-Represents

run-new-len_example :
    (c : Lru ℕ ℕ) × (vs : List (Option ℕ)) × (run calls start ≡ some (vs, c))
    × ((pos (len c) ≤ℤ pos 1) ⊎ (len c ≤ 1))
run-new-len_example = run-new-len 0 0 (pos 1) calls
