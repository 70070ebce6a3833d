-- ===== src/Lru/Evict.antt =====
-- `evictLRU` and the insertion of a new node in internal/cache/lru.go.
use mathlib.Core.List.{append-nil}
use web_demo_go.Prelude.{
  ◌≡◌, ◌≢◌, refl, ap, sym, ◌∙◌, none, some, List, [], ◌∷◌, ◌++◌, arith, Eq, ◌==◌, ==_iff, length,
  Map, lookup, insert, erase, suc, lookup-erase, length-erase, erase-IsDistinct, lookup-insert,
  length-insert, insert-IsDistinct, if◌then◌else◌, ◌<◌,
}
use web_demo_go.Lru.{evict_lru, add_to_front}
use web_demo_go.Lru.Nodes.{Ptr, Heap, update, alloc}
use web_demo_go.Lru.Segment.{join, link_front, last_or, prev_end, Seg-cong, ne_of_has}
use web_demo_go.Lru.Ring.{
  Ring, Below-suc, Below-has, detach-Ring-runs, detach-Ring, detach-out, add_to_front-Ring,
}
use web_demo_go.Lru.Entries.{
  Entry, entry, ptrs, view, find, find_move, remove-IsDistinct, length-remove,
}
use web_demo_go.Lru.Holds.{Holds, Stored-remove, Stored-update, Ring-at}

last_or_snoc : (a n : Ptr) (ps : List Ptr) → last_or a (ps ++ n ∷ []) ≡ n
last_or_snoc a n [] = refl
last_or_snoc a n (p ∷ ps) = last_or_snoc p n ps

Below-pos : {p m : Ptr} → p < m → m ≢ 0
Below-pos h = omega arith

module _ {K V : Type 0} ⦃e : Eq K⦄ where
  find-none : (k : K) (es : List (Entry K V)) → lookup k (view es) ≡ none → find k es ≡ none
  unfolding lookup
  find-none k [] h = refl
  find-none k (x ∷ es) h = ground (arith, find-none k es)

  pub evict_empty :
      (h : Heap K V) (a z : Ptr) (items : Map K Ptr)
      → Holds h a z items []
      → evict_lru a z items h ≡ some (items, h)
  unfolding evict_lru
  evict_empty h a z items holds = ground (arith, holds.ring.chain, holds.ring.no_nil)

  module _ (h : Heap K V) (a z : Ptr) (items : Map K Ptr) (xs : List (Entry K V)) (x : Entry K V)
      (holds : Holds h a z items (xs ++ x ∷ [])) where
    abbrev pub evicted : Heap K V
    evicted = join (h.prev x.at) (h.next x.at) h

    last-Ring : Ring h a z (ptrs xs ++ x.at ∷ [])
    last-Ring = Ring-at h a z items xs [] x holds

    tail_prev : h.prev z ≡ x.at
    tail_prev =
        prev_end h a (ptrs xs ++ x.at ∷ []) z last-Ring.chain ∙ last_or_snoc a x.at (ptrs xs)

    found_last : (k : K) → lookup k items ≡ (if x.key == k then some x.at else find k xs)
    found_last k =
        holds.index k
        ∙ sym (find_move k xs [] x holds.distinct)
        ∙ ap (λ es. if x.key == k then some x.at else find k es) (append-nil xs)

    last_absent : find x.key xs ≡ none
    last_absent =
        find-none x.key xs (rw (append-nil xs) at ((remove-IsDistinct xs [] x holds.distinct).0))

    pub evict-runs : evict_lru a z items h ≡ some (erase x.key items, evicted)
    unfolding evict_lru join
    evict-runs =
        let (out, pos, low) = detach-out h a z (ptrs xs) x.at [] last-Ring in
        let (key, value, others) = Stored-remove h xs [] x holds.stored in
        let runs = detach-Ring-runs h a z (ptrs xs) x.at [] last-Ring in
        let end_pos = holds.ring.no_nil in ground (arith, tail_prev)

    pub Holds-evict : Holds evicted a z (erase x.key items) xs
    unfolding join
    Holds-evict = record {
      ring = rw (append-nil (ptrs xs)) at (detach-Ring h a z (ptrs xs) x.at [] last-Ring);
      stored = rw (append-nil xs) at ((Stored-remove h xs [] x holds.stored).2);
      index = λ k.
          ground (arith, found_last k, last_absent, lookup-erase x.key k items, ==_iff x.key k);
      size = ground (
        arith,
        found_last x.key,
        ==_iff x.key x.key,
        length-remove xs [] x,
        ap length (append-nil xs),
        holds.size,
        length-erase x.key x.at items holds.one_each,
      );
      one_each = erase-IsDistinct x.key items holds.one_each;
      distinct = rw (append-nil xs) at ((remove-IsDistinct xs [] x holds.distinct).1);
    }

  -- A new node at the front.
  module _ (h : Heap K V) (a z : Ptr) (items : Map K Ptr) (es : List (Entry K V))
      (holds : Holds h a z items es) (k : K) (v : V) where
    unfoldable pub allocated : Heap K V
    allocated = record {
      key = update h.key h.fresh k;
      value = update h.value h.fresh v;
      prev = update h.prev h.fresh 0;
      next = update h.next h.fresh 0;
      fresh = suc h.fresh;
    }

    pub alloc-allocated : alloc k v h ≡ some (h.fresh, allocated)
    unfolding alloc allocated
    alloc-allocated = refl

    Ring-allocated : Ring allocated a z (ptrs es)
    unfolding allocated update
    Ring-allocated =
        let out = Below-has h.fresh (z ∷ a ∷ ptrs es) holds.ring.old in
        record {
          chain =
              Seg-cong h allocated a (ptrs es) z
                (λ p i. ground (arith, ne_of_has p h.fresh (a ∷ ptrs es) i))
                (λ p i. ground (arith, ne_of_has p h.fresh (z ∷ ptrs es) i)) holds.ring.chain;
          apart = holds.ring.apart;
          end_apart = holds.ring.end_apart;
          no_nil = holds.ring.no_nil;
          old = Below-suc h.fresh (z ∷ a ∷ ptrs es) holds.ring.old;
        }

    pub Holds-add :
        lookup k (view es) ≡ none
        → (add_to_front a h.fresh allocated ≡ some (tt, link_front a h.fresh allocated))
          × Holds
              (link_front a h.fresh allocated)
              a
              z
              (insert k h.fresh items)
              (entry h.fresh k v ∷ es)
    unfolding allocated link_front update
    Holds-add fresh_key =
        let out = Below-has h.fresh (z ∷ a ∷ ptrs es) holds.ring.old in
        let pos = Below-pos holds.ring.old.0 in
        let (runs, ring) =
          add_to_front-Ring allocated a z (ptrs es) h.fresh Ring-allocated out pos (omega arith) in
        let absent : lookup k items ≡ none = holds.index k ∙ find-none k es fresh_key in
        (
          runs,
          record {
            ring = ring;
            stored = ground (arith, Stored-update h h.fresh k v es);
            index = λ j. ground (arith, lookup-insert k j h.fresh items, holds.index j);
            size = length-insert k h.fresh items absent ∙ ap suc holds.size;
            one_each = insert-IsDistinct k h.fresh items holds.one_each;
            distinct = (fresh_key, holds.distinct);
          },
        )
