-- ===== src/Lru/Holds.antt =====
-- The representation of a cache: its heap and its map hold the entries `es`, in order.
use web_demo_go.Prelude.{
  ◌≡◌, sym, ◌∙◌, false, some, List, [], ◌∷◌, ◌++◌, arith, Eq, length, Map, lookup, IsDistinct,
}
use web_demo_go.Lru.Nodes.{Ptr, Heap, update}
use web_demo_go.Lru.Segment.{join, link_front, has}
use web_demo_go.Lru.{add_to_front, move_to_front}
use web_demo_go.Lru.Ring.{Ring, detach-Ring-runs, detach-Ring, detach-out, add_to_front-Ring}
use web_demo_go.Lru.Entries.{
  Entry, ptrs, view, find, ptrs-append, find_move, remove-IsDistinct, length-remove,
}

module _ {K V : Type 0} where
  -- The nodes store their entries.
  abbrev pub Stored : Heap K V → List (Entry K V) → Type 0
  Stored h [] = Unit
  Stored h (x ∷ es) = (h.key x.at ≡ x.key) × (h.value x.at ≡ x.value) × Stored h es

  pub Stored-remove :
      (h : Heap K V) (xs ys : List (Entry K V)) (x : Entry K V)
      → Stored h (xs ++ x ∷ ys)
      → (h.key x.at ≡ x.key) × (h.value x.at ≡ x.value) × Stored h (xs ++ ys)
  Stored-remove h [] ys x s = s
  Stored-remove h (y ∷ xs) ys x s =
      let r = Stored-remove h xs ys x s.2 in (r.0, r.1, (s.0, s.1, r.2))

  -- The same in a heap that differs at one address outside.
  pub Stored-update :
      (h : Heap K V) (p : Ptr) (k : K) (v : V) (es : List (Entry K V))
      → has p (ptrs es) ≡ false
      → Stored h es
      → Stored (record h { key = update h.key p k; value = update h.value p v }) es
  unfolding update
  Stored-update h p k v [] o s = tt
  Stored-update h p k v (x ∷ es) o s = ground (arith, Stored-update h p k v es)

module _ {K V : Type 0} ⦃e : Eq K⦄ where
  pub record Holds (h : Heap K V) (a z : Ptr) (items : Map K Ptr) (es : List (Entry K V))
      : Type 0 where
    pub ring : Ring h a z (ptrs es)
    pub stored : Stored h es
    pub index : (k : K) → lookup k items ≡ find k es
    pub size : length items ≡ length es
    pub one_each : IsDistinct items
    pub distinct : IsDistinct (view es)

  module _ (h : Heap K V) (a z : Ptr) (items : Map K Ptr) (xs ys : List (Entry K V)) (x : Entry K V)
      (holds : Holds h a z items (xs ++ x ∷ ys)) where
    pub Ring-at : Ring h a z (ptrs xs ++ x.at ∷ ptrs ys)
    Ring-at = rw (ptrs-append xs (x ∷ ys)) at (holds.ring)

    -- The heap after `moveToFront` on the node of `x`.
    abbrev pub moved : Heap K V
    moved = link_front a x.at (join (h.prev x.at) (h.next x.at) h)

    out-Ring : Ring (join (h.prev x.at) (h.next x.at) h) a z (ptrs xs ++ ptrs ys)
    out-Ring = detach-Ring h a z (ptrs xs) x.at (ptrs ys) Ring-at

    relink :
        (add_to_front a x.at (join (h.prev x.at) (h.next x.at) h) ≡ some (tt, moved))
        × Ring moved a z (x.at ∷ ptrs xs ++ ptrs ys)
    unfolding join
    relink =
        let (out, pos, low) = detach-out h a z (ptrs xs) x.at (ptrs ys) Ring-at in
        add_to_front-Ring _ a z (ptrs xs ++ ptrs ys) x.at out-Ring out pos low

    pub move-runs : move_to_front a x.at h ≡ some (tt, moved)
    unfolding move_to_front
    move-runs = ground (arith, detach-Ring-runs h a z (ptrs xs) x.at (ptrs ys) Ring-at, relink.0)

    pub Holds-move : Holds moved a z items (x ∷ xs ++ ys)
    unfolding join link_front
    Holds-move = record {
      ring = rw (ptrs-append xs ys) (relink.1);
      stored = Stored-remove h xs ys x holds.stored;
      index = λ k. holds.index k ∙ sym (find_move k xs ys x holds.distinct);
      size = holds.size ∙ length-remove xs ys x;
      one_each = holds.one_each;
      distinct = remove-IsDistinct xs ys x holds.distinct;
    }
