-- ===== src/Lru/Inserts.antt =====
-- `Set` of internal/cache/lru.go against the recency list of `Spec`.
use mathlib.Core.Path.{subst}
use mathlib.Core.List.{append-nil}
use web_demo_go.Prelude.{
  ◌≡◌, refl, ap, sym, ◌∙◌, true, false, none, some, List, [], ◌∷◌, ◌++◌, arith, Eq, inl, inr,
  length, Map, lookup, erase, insert, pos, leb_ℤ, Bool-cases,
}
use web_demo_go.Lru.{Lru, set, add_new, make_room}
use web_demo_go.Lru.Nodes.{Ptr, Heap, update}
use web_demo_go.Lru.Segment.{link_front}
use web_demo_go.Lru.Spec.{
  spec_set, drop_last, drop_last-nil, spec_set-some, spec_set-full, spec_set-room,
}
use web_demo_go.Lru.Entries.{
  Entry, entry, view, find_split, absent_ne, length-view, drop_last-view, last_split,
}
use web_demo_go.Lru.Holds.{Holds, moved, move-runs, Holds-move}
use web_demo_go.Lru.Evict.{
  evict_empty, evicted, evict-runs, Holds-evict, allocated, alloc-allocated, Holds-add,
}
use web_demo_go.Lru.Rewrite.{store-runs, Holds-value}
use web_demo_go.Lru.Refines.{Represents, Represents-eq, Holds-at, found_at, listed_at, rest_at}

module _ {K V : Type 0} ⦃e : Eq K⦄ where
  set_hit :
      (k : K) (v w : V) (c : Lru K V) (xs ys : List (Entry K V)) (p : Ptr)
      → Holds c.heap c.head c.tail c.items (xs ++ entry p k w ∷ ys)
      → lookup k c.items ≡ some p
      → (c' : Lru K V) × (set k v c ≡ some c')
        × Represents c' ((k, v) ∷ view (xs ++ ys))
        × (c'.capacity ≡ c.capacity)
  unfolding set
  set_hit k v w c xs ys p holds found =
      let x = entry p k v in
      let stored = store-runs p k w v c.heap c.head c.tail c.items xs ys holds in
      let h = record (c.heap) { value = update c.heap.value p v } in
      let kept = Holds-value p k w v c.heap c.head c.tail c.items xs ys holds in
      let h' = moved h c.head c.tail c.items xs ys x kept in
      let runs = move-runs h c.head c.tail c.items xs ys x kept in
      let after = Holds-move h c.head c.tail c.items xs ys x kept in
      (
        record c { heap = h' },
        ground arith,
        record { entries = x ∷ xs ++ ys; holds = after; seen = refl },
        refl,
      )

  -- A key that is not there: room is made where `room` says so, and the entries `es` stay.
  set_miss :
      (k : K) (v : V) (c : Lru K V) (items : Map K Ptr) (h : Heap K V) (es : List (Entry K V))
      → make_room c c.heap ≡ some (items, h)
      → Holds h c.head c.tail items es
      → lookup k c.items ≡ none
      → lookup k (view es) ≡ none
      → (c' : Lru K V) × (set k v c ≡ some c')
        × Represents c' ((k, v) ∷ view es)
        × (c'.capacity ≡ c.capacity)
  unfolding set add_new
  set_miss k v c items h es room holds absent fresh_key =
      let h' = allocated h c.head c.tail items es holds k v in
      let (runs, after) = Holds-add h c.head c.tail items es holds k v fresh_key in
      let made = alloc-allocated h c.head c.tail items es holds k v in
      (
        record c { items = insert k h.fresh items; heap = link_front c.head h.fresh h' },
        ground arith,
        record { entries = entry h.fresh k v ∷ es; holds = after; seen = refl },
        refl,
      )

  abbrev SetResult : K → V → Lru K V → Map K V → Type 0
  SetResult k v c l =
      (c' : Lru K V) × (set k v c ≡ some c')
      × Represents c' (spec_set c.capacity k v l)
      × (c'.capacity ≡ c.capacity)

  module _ (k : K) (v : V) (c : Lru K V) (l : Map K V) (r : Represents c l)
      (absent : lookup k c.items ≡ none) (unseen : lookup k (view r.entries) ≡ none) where
    unlisted : lookup k l ≡ none
    unlisted = ap (lookup k) (sym r.seen) ∙ unseen

    size_same : length c.items ≡ length l
    size_same = r.holds.size ∙ sym (length-view r.entries) ∙ ap length r.seen

    set_room : leb_ℤ c.capacity (pos (length c.items)) ≡ false → SetResult k v c l
    unfolding make_room
    set_room room =
        let (c', runs, after, same) =
          set_miss k v c c.items c.heap r.entries (ground arith) r.holds absent unseen in
        let small = ap (λ n. leb_ℤ c.capacity (pos n)) (sym size_same) ∙ room in
        (
          c',
          runs,
          Represents-eq after
              (ap (◌∷◌ (k, v)) r.seen ∙ sym (spec_set-room c.capacity k v l unlisted small)),
          same,
        )

    set_full : leb_ℤ c.capacity (pos (length c.items)) ≡ true → SetResult k v c l
    unfolding make_room
    set_full full =
        let big = ap (λ n. leb_ℤ c.capacity (pos n)) (sym size_same) ∙ full in
        let spec = spec_set-full c.capacity k v l unlisted big in
        elim (last_split r.entries) [
          | inl empty ↦
              let holds = subst (λ es. Holds c.heap c.head c.tail c.items es) empty r.holds in
              let runs = evict_empty c.heap c.head c.tail c.items holds in
              let (c', done, after, same) =
                set_miss k v c c.items c.heap [] (ground arith) holds absent (ground arith) in
              let nothing : drop_last l ≡ [] =
                ap drop_last (sym r.seen ∙ ap view empty) ∙ drop_last-nil in
              (c', done, Represents-eq after (sym (spec ∙ ap (◌∷◌ (k, v)) nothing)), same)
          | inr (xs, x, split) ↦
              let holds = subst (λ es. Holds c.heap c.head c.tail c.items es) split r.holds in
              let runs = evict-runs c.heap c.head c.tail c.items xs x holds in
              let rest = Holds-evict c.heap c.head c.tail c.items xs x holds in
              let other =
                absent_ne k xs [] x (subst (λ es. lookup k (view es) ≡ none) split unseen) in
              let gone = subst (λ es. lookup k (view es) ≡ none) (append-nil xs) other.1 in
              let dropped : view xs ≡ drop_last l =
                sym (drop_last-view xs x) ∙ ap drop_last (ap view (sym split) ∙ r.seen) in
              let (c', done, after, same) =
                set_miss k v c (erase x.key c.items)
                  (evicted c.heap c.head c.tail c.items xs x holds) xs (ground arith) rest absent
                  gone in
              (c', done, Represents-eq after (ap (◌∷◌ (k, v)) dropped ∙ sym spec), same)
        ]

    set_new : SetResult k v c l
    set_new = elim (Bool-cases (leb_ℤ c.capacity (pos (length c.items)))) [
      | inl full ↦ set_full full
      | inr room ↦ set_room room
    ]

  -- On a cache that stands for a list `Set` does not panic and puts the key in front: an old entry
  -- of the key goes, and a new key first drops the least recently used entry if the list has
  -- reached the capacity. The capacity stays.
  pub set-Represents :
      (k : K) (v : V) (c : Lru K V) (l : Map K V)
      → Represents c l
      → (c' : Lru K V) × (set k v c ≡ some c')
        × Represents c' (spec_set c.capacity k v l)
        × (c'.capacity ≡ c.capacity)
  set-Represents k v c l r = elim (find_split k r.entries) [
    | inr s ↦
        let (c', runs, after, same) =
          set_hit k v s.value c s.before s.after s.node (Holds-at k c l r s) (found_at k c l r s) in
        (
          c',
          runs,
          Represents-eq after (
              ap (◌∷◌ (k, v)) (rest_at k c l r s)
              ∙ sym (spec_set-some c.capacity k v s.value l (listed_at k c l r s))),
          same,
        )
    | inl (lost, unseen) ↦
        let absent : lookup k c.items ≡ none = r.holds.index k ∙ lost in
        set_new k v c l r absent unseen
  ]
